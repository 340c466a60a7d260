-- ===== src/Prelude/Appended.antt =====
-- Lists with one entry put at the end.
use mathlib.Core.Path.{◌≡◌, refl, sym}
use mathlib.Core.Logic.{◌⊎◌, inl, inr}
use mathlib.Core.List.{List, [], ◌∷◌, ◌++◌}
use ssdiq.Prelude.Lists.{In, Distinct, All}

module _ {A : Type 0} where
  pub In-append : (a y : A) (xs : List A) → In a (xs ++ (y ∷ [])) → In a xs ⊎ (a ≡ y)
  In-append a y [] h = elim h [ inl e ↦ inr e | inr k ↦ absurd k ]
  In-append a y (x ∷ xs) (inl e) = inl (inl e)
  In-append a y (x ∷ xs) (inr h) = elim (In-append a y xs h) [ inl k ↦ inl (inr k) | inr e ↦ inr e ]

  pub In-append_left : (a y : A) (xs : List A) → In a xs → In a (xs ++ (y ∷ []))
  In-append_left a y [] h = absurd h
  In-append_left a y (x ∷ xs) (inl e) = inl e
  In-append_left a y (x ∷ xs) (inr h) = inr (In-append_left a y xs h)

  pub In-append_last : (y : A) (xs : List A) → In y (xs ++ (y ∷ []))
  In-append_last y [] = inl refl
  In-append_last y (x ∷ xs) = inr (In-append_last y xs)

  pub All-append : (P : A → Type 0) (xs : List A) (y : A) → All P xs → P y → All P (xs ++ (y ∷ []))
  All-append P [] y h k = (k, tt)
  All-append P (x ∷ xs) y h k = (h.0, All-append P xs y h.1 k)

  pub Distinct-append : (xs : List A) (y : A) → Distinct xs → ¬ In y xs → Distinct (xs ++ (y ∷ []))
  Distinct-append [] y d n = ((λ h. h), tt)
  Distinct-append (x ∷ xs) y d n = (
    λ h. elim (In-append x y xs h) [ inl k ↦ d.0 k | inr e ↦ n (inl (sym e)) ],
    Distinct-append xs y d.1 (λ h. n (inr h)),
  )

  pub In-before : (a : A) (xs ys : List A) → In a xs → In a (xs ++ ys)
  In-before a [] ys h = absurd h
  In-before a (x ∷ xs) ys (inl e) = inl e
  In-before a (x ∷ xs) ys (inr h) = inr (In-before a xs ys h)

  pub In-after : (a : A) (xs ys : List A) → In a ys → In a (xs ++ ys)
  In-after a [] ys h = h
  In-after a (x ∷ xs) ys h = inr (In-after a xs ys h)
