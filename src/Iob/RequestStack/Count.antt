-- ===== src/Iob/RequestStack/Count.antt =====
-- How often a request stands on the stacks and in the set of iob/io/RequestStack.hpp.
use ssdiq.Prelude.{
  ℕ, zero, suc, ◌+◌, ◌<◌, ◌≡◌, refl, inl, inr, ap, ◌∙◌, true, false, List, [], ◌∷◌, none, some,
  arith, length, get_or, set, ==→eq, ==-refl, if◌then◌else◌, Bool-cases,
}
use ssdiq.Iob.RequestStack.{Pointer, same_pointer, holds, take_out}

abbrev pub hit : ℕ → Pointer → ℕ
hit r p = if same_pointer p (some r) then 1 else 0

-- Among the first `n` entries of an array.
unfoldable pub count : ℕ → ℕ → List Pointer → ℕ
count r zero ps = 0
count r (suc n) [] = 0
count r (suc n) (p ∷ ps) = hit r p + count r n ps

unfoldable pub occurs : ℕ → List Pointer → ℕ
occurs r [] = 0
occurs r (p ∷ ps) = hit r p + occurs r ps

count-suc :
    (r n : ℕ) (ps : List Pointer)
    → n < length ps
    → count r (suc n) ps ≡ count r n ps + hit r (get_or ps n none)
unfolding count
count-suc r zero [] h = absurd (omega arith)
count-suc r zero (p ∷ ps) h = omega arith
count-suc r (suc n) [] h = absurd (omega arith)
count-suc r (suc n) (p ∷ ps) h = omega (arith, count-suc r n ps (omega arith))

pub count-last :
    (r n : ℕ) (ps : List Pointer)
    → n < length ps
    → count r (n + 1) ps ≡ count r n ps + hit r (get_or ps n none)
count-last r n ps h = ap (λ m. count r m ps) (omega arith) ∙ count-suc r n ps h

pub count-set_last :
    (r n : ℕ) (ps : List Pointer) (p : Pointer) → count r n (set ps n p) ≡ count r n ps
unfolding count
count-set_last r zero [] p = refl
count-set_last r zero (q ∷ ps) p = refl
count-set_last r (suc n) [] p = refl
count-set_last r (suc n) (q ∷ ps) p = omega (arith, count-set_last r n ps p)

pub same_pointer-eq : (p q : Pointer) → same_pointer p q ≡ true → p ≡ q
same_pointer-eq none none h = refl
same_pointer-eq none (some q) h = cc
same_pointer-eq (some p) none h = cc
same_pointer-eq (some p) (some q) h = ap some (==→eq p q h)

-- A member that is taken out occurs once less.
pub occurs-take_out :
    (r : ℕ) (p : Pointer) (ps : List Pointer)
    → holds p ps ≡ true
    → (occurs r (take_out p ps) + hit r p ≡ occurs r ps) × (length (take_out p ps) + 1 ≡ length ps)
unfolding occurs take_out holds
occurs-take_out r p [] h = cc
occurs-take_out r p (q ∷ qs) h = elim (Bool-cases (same_pointer q p)) [
  | inl e ↦ rw e (omega (arith, ap (hit r) (same_pointer-eq q p e)), omega arith)
  | inr e ↦
      let i = occurs-take_out r p qs (rw e at h) in rw e (omega (arith, i.0), omega (arith, i.1))
]

-- What does not occur is not in the set.
pub absent-holds : (r : ℕ) (ps : List Pointer) → occurs r ps ≡ 0 → holds (some r) ps ≡ false
unfolding occurs holds
absent-holds r [] h = refl
absent-holds r (q ∷ qs) h = elim (Bool-cases (same_pointer q (some r))) [
  | inl e ↦ absurd (ground (arith, e, h))
  | inr e ↦ rw e (absent-holds r qs (omega (arith, h)))
]

-- What stands among the first `n` entries is counted there.
pub count-at :
    (r n j : ℕ) (ps : List Pointer)
    → j < n
    → j < length ps
    → get_or ps j none ≡ some r
    → 0 < count r n ps
unfolding count
count-at r zero j ps h k e = absurd (omega (arith, h))
count-at r (suc n) j [] h k e = absurd (omega (arith, k))
count-at r (suc n) zero (p ∷ ps) h k e =
    let one : hit r p ≡ 1 = rw (e, ==-refl r) refl in omega (arith, one)
count-at r (suc n) (suc j) (p ∷ ps) h k e =
    omega (arith, count-at r n j ps (omega (arith, h)) (omega (arith, k)) e)
