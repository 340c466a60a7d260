-- ===== src/Prelude/Reversed.antt =====
-- What reversing a list keeps.
use Prim.Native.Nat.{◌+◌}
use mathlib.Core.Path.{◌≡◌, refl, subst, sym}
use mathlib.Core.Logic.{◌⊎◌, inl, inr}
use mathlib.Core.List.{List, [], ◌∷◌, ◌++◌, reverse, reverse_aux, reverse-cons}
use native.Mathlib.Omega.{arith}
use ssdiq.Prelude.Lists.{length, In, Distinct, All}

module _ {A : Type 0} where
  pub All-In : (P : A → Type 0) (xs : List A) (a : A) → All P xs → In a xs → P a
  All-In P [] a h k = absurd k
  All-In P (x ∷ xs) a h (inl e) = subst P (sym e) h.0
  All-In P (x ∷ xs) a h (inr k) = All-In P xs a h.1 k

  All-reverse_aux :
      (P : A → Type 0) (xs ys : List A) → All P xs → All P ys → All P (reverse_aux xs ys)
  All-reverse_aux P [] ys h k = k
  All-reverse_aux P (x ∷ xs) ys h k = All-reverse_aux P xs (x ∷ ys) h.1 (h.0, k)

  pub All-reverse : (P : A → Type 0) (xs : List A) → All P xs → All P (reverse xs)
  All-reverse P xs h = All-reverse_aux P xs [] h tt

  In-reverse_aux : (a : A) (xs ys : List A) → In a (reverse_aux xs ys) → In a xs ⊎ In a ys
  In-reverse_aux a [] ys h = inr h
  In-reverse_aux a (x ∷ xs) ys h = elim (In-reverse_aux a xs (x ∷ ys) h) [
    | inl k ↦ inl (inr k)
    | inr k ↦ elim k [ inl e ↦ inl (inl e) | inr m ↦ inr m ]
  ]

  pub In-reverse : (a : A) (xs : List A) → In a (reverse xs) → In a xs
  In-reverse a xs h = elim (In-reverse_aux a xs [] h) [ inl k ↦ k | inr k ↦ absurd k ]

  Distinct-reverse_aux :
      (xs ys : List A)
      → Distinct xs
      → Distinct ys
      → ((a : A) → In a xs → ¬ In a ys)
      → Distinct (reverse_aux xs ys)
  Distinct-reverse_aux [] ys d e apart = e
  Distinct-reverse_aux (x ∷ xs) ys d e apart =
      Distinct-reverse_aux xs (x ∷ ys) d.1 (apart x (inl refl), e)
        (λ a m k. elim k [
          | inl same ↦ d.0 (subst (λ b. In b xs) same m)
          | inr later ↦ apart a (inr m) later
        ])

  pub Distinct-reverse : (xs : List A) → Distinct xs → Distinct (reverse xs)
  Distinct-reverse xs d = Distinct-reverse_aux xs [] d tt (λ a m k. k)

  length-reverse_aux : (xs ys : List A) → length (reverse_aux xs ys) ≡ length xs + length ys
  length-reverse_aux [] ys = omega arith
  length-reverse_aux (x ∷ xs) ys = omega (arith, length-reverse_aux xs (x ∷ ys))

  pub length-reverse : (xs : List A) → length (reverse xs) ≡ length xs
  length-reverse xs = omega (arith, length-reverse_aux xs [])

  -- The last entry of a list that starts with `x`.
  abbrev pub last_of : A → List A → A
  last_of x [] = x
  last_of x (y ∷ ys) = last_of y ys

  last_of-append : (x y : A) (xs : List A) → last_of x (xs ++ (y ∷ [])) ≡ y
  last_of-append x y [] = refl
  last_of-append x y (z ∷ xs) = last_of-append z y xs

  -- The first entry is the last one in reverse.
  pub reverse-last_of :
      (x : A) (xs : List A)
      → (d : A) × (rest : List A) × (reverse (x ∷ xs) ≡ d ∷ rest) × (last_of d rest ≡ x)
  reverse-last_of x xs = from (reverse xs) (reverse-cons x xs)
    where
      from :
          (ys : List A)
          → reverse (x ∷ xs) ≡ ys ++ (x ∷ [])
          → (d : A) × (rest : List A) × (reverse (x ∷ xs) ≡ d ∷ rest) × (last_of d rest ≡ x)
      from [] e = (x, [], e, refl)
      from (d ∷ ys) e = (d, ys ++ (x ∷ []), e, last_of-append d x ys)
