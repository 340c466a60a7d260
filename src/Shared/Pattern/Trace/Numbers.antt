-- ===== src/Shared/Pattern/Trace/Numbers.antt =====
-- Parts of a list of numbers, by position, for the trace files of shared/PatternGen.hpp.
use ssdiq.Prelude.{
  ℕ, zero, suc, ◌+◌, ◌-◌, ◌<◌, ◌≤◌, ◌≡◌, refl, ap, List, [], ◌∷◌, arith, get_or, length, take,
}
use ssdiq.Shared.Pattern.Trace.{drop_numbers}

pub length-drop_numbers : (n : ℕ) (xs : List ℕ) → length (drop_numbers n xs) ≡ length xs - n
unfolding drop_numbers
length-drop_numbers zero xs = omega arith
length-drop_numbers (suc n) [] = omega arith
length-drop_numbers (suc n) (x ∷ xs) = omega (arith, length-drop_numbers n xs)

pub get_or-drop_numbers :
    (n i : ℕ) (xs : List ℕ) → get_or (drop_numbers n xs) i 0 ≡ get_or xs (n + i) 0
unfolding drop_numbers
get_or-drop_numbers zero i xs = ap (λ k. get_or xs k 0) (omega arith)
get_or-drop_numbers (suc n) i [] = refl
get_or-drop_numbers (suc n) i (x ∷ xs) =
    let e : suc n + i ≡ suc (n + i) = omega arith in rw e (get_or-drop_numbers n i xs)

pub get_or-take : (n i : ℕ) (xs : List ℕ) → i < n → get_or (take n xs) i 0 ≡ get_or xs i 0
get_or-take zero i xs h = absurd (omega (arith, h))
get_or-take (suc n) i [] h = refl
get_or-take (suc n) zero (x ∷ xs) h = refl
get_or-take (suc n) (suc i) (x ∷ xs) h = get_or-take n i xs (omega (arith, h))

pub length-take_all : (n : ℕ) (xs : List ℕ) → n ≤ length xs → length (take n xs) ≡ n
length-take_all zero xs h = refl
length-take_all (suc n) [] h = absurd (omega (arith, h))
length-take_all (suc n) (x ∷ xs) h = ap suc (length-take_all n xs (omega (arith, h)))

pub length-take_more : (n k : ℕ) (xs : List ℕ) → k < n → k < length xs → k < length (take n xs)
length-take_more zero k xs h e = absurd (omega (arith, h))
length-take_more (suc n) k [] h e = absurd (omega (arith, e))
length-take_more (suc n) zero (x ∷ xs) h e = omega arith
length-take_more (suc n) (suc k) (x ∷ xs) h e =
    omega (arith, length-take_more n k xs (omega (arith, h)) (omega (arith, e)))

pub drop_numbers-step :
    (i : ℕ) (xs : List ℕ)
    → i < length xs
    → drop_numbers i xs ≡ get_or xs i 0 ∷ drop_numbers (i + 1) xs
unfolding drop_numbers
drop_numbers-step i [] h = absurd (omega (arith, h))
drop_numbers-step zero (x ∷ xs) h = refl
drop_numbers-step (suc i) (x ∷ xs) h =
    let e : suc i + 1 ≡ suc (i + 1) = omega arith in
    rw e (drop_numbers-step i xs (omega (arith, h)))
