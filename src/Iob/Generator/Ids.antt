-- ===== src/Iob/Generator/Ids.antt =====
-- How often a number stands on the stack of available requests of iob/RequestGenerator.hpp, and among the
-- requests in flight.
use ssdiq.Prelude.{
  ℕ, zero, suc, ◌+◌, ◌<◌, ◌≡◌, refl, inl, inr, ap, ◌∙◌, List, [], ◌∷◌, arith, length, get_or, set,
  ◌==◌, ==→eq, ==-refl, if◌then◌else◌, Bool-cases,
}

abbrev pub is_id : ℕ → ℕ → ℕ
is_id r x = if x == r then 1 else 0

-- Among the first `n` entries.
unfoldable pub count_id : ℕ → ℕ → List ℕ → ℕ
count_id r zero xs = 0
count_id r (suc n) [] = 0
count_id r (suc n) (x ∷ xs) = is_id r x + count_id r n xs

unfoldable pub occurs_id : ℕ → List ℕ → ℕ
occurs_id r [] = 0
occurs_id r (x ∷ xs) = is_id r x + occurs_id r xs

unfoldable pub remove_id : ℕ → List ℕ → List ℕ
remove_id r [] = []
remove_id r (x ∷ xs) = let rest = remove_id r xs in if x == r then xs else x ∷ rest

count_id-suc :
    (r n : ℕ) (xs : List ℕ)
    → n < length xs
    → count_id r (suc n) xs ≡ count_id r n xs + is_id r (get_or xs n 0)
unfolding count_id
count_id-suc r zero [] h = absurd (omega arith)
count_id-suc r zero (x ∷ xs) h = omega arith
count_id-suc r (suc n) [] h = absurd (omega arith)
count_id-suc r (suc n) (x ∷ xs) h = omega (arith, count_id-suc r n xs (omega arith))

pub count_id-last :
    (r n : ℕ) (xs : List ℕ)
    → n < length xs
    → count_id r (n + 1) xs ≡ count_id r n xs + is_id r (get_or xs n 0)
count_id-last r n xs h = ap (λ m. count_id r m xs) (omega arith) ∙ count_id-suc r n xs h

pub count_id-set_last :
    (r n : ℕ) (xs : List ℕ) (x : ℕ) → count_id r n (set xs n x) ≡ count_id r n xs
unfolding count_id
count_id-set_last r zero [] x = refl
count_id-set_last r zero (y ∷ xs) x = refl
count_id-set_last r (suc n) [] x = refl
count_id-set_last r (suc n) (y ∷ xs) x = omega (arith, count_id-set_last r n xs x)

-- A number that is taken out occurs once less.
pub occurs_id-remove_id :
    (r x : ℕ) (xs : List ℕ)
    → 0 < occurs_id x xs
    → (occurs_id r (remove_id x xs) + is_id r x ≡ occurs_id r xs)
      × (length (remove_id x xs) + 1 ≡ length xs)
unfolding occurs_id remove_id
occurs_id-remove_id r x [] h = absurd (omega (arith, h))
occurs_id-remove_id r x (y ∷ ys) h = elim (Bool-cases (y == x)) [
  | inl e ↦ rw e (omega (arith, ap (is_id r) (==→eq y x e)), omega arith)
  | inr e ↦
      let more : 0 < occurs_id x ys = omega (arith, (rw e at h)) in
      let i = occurs_id-remove_id r x ys more in rw e (omega (arith, i.0), omega (arith, i.1))
]

pub is_id_self : (r : ℕ) → is_id r r ≡ 1
is_id_self r = rw (==-refl r) refl
