-- ===== src/Sim/Block/Used.antt =====
-- The pages in use of a block of sim/SSD.hpp, by position and by membership.
use ssdiq.Prelude.{
  ℕ, zero, suc, ◌<◌, ◌≡◌, ◌≢◌, refl, sym, ◌⊎◌, inl, inr, List, [], ◌∷◌, arith, length, get_or, In,
  Distinct, ℕ_discrete, subst,
}
use ssdiq.Sim.Block.{unused}
use ssdiq.Sim.Block.Compact.{used, used-free, used-page}

pub In? : (a : ℕ) (xs : List ℕ) → In a xs ⊎ (¬ In a xs)
In? a [] = inr (λ h. h)
In? a (x ∷ xs) = elim (ℕ_discrete a x) [
  | yes e ↦ inl (inl e)
  | no ne ↦ elim (In? a xs) [
    | inl h ↦ inl (inr h)
    | inr k ↦ inr (λ h. elim h [ inl e ↦ ne e | inr m ↦ k m ])
  ]
]

pub In-get_or : (xs : List ℕ) (i : ℕ) → i < length xs → In (get_or xs i unused) xs
In-get_or [] i h = absurd (omega arith)
In-get_or (x ∷ xs) zero h = inl refl
In-get_or (x ∷ xs) (suc i) h = inr (In-get_or xs i (omega arith))

pub In-index :
    (a : ℕ) (xs : List ℕ) → In a xs → (i : ℕ) × (i < length xs) × (get_or xs i unused ≡ a)
In-index a [] h = absurd h
In-index a (x ∷ xs) (inl e) = (0, omega arith, sym e)
In-index a (x ∷ xs) (inr h) = let r = In-index a xs h in (suc r.0, omega (arith, r.1), r.2)

-- Every page in use is listed, and every listed page is in use.
pub In-used :
    (ptl : List ℕ) (i : ℕ)
    → i < length ptl
    → get_or ptl i unused ≢ unused
    → In (get_or ptl i unused) (used ptl)
In-used [] i h u = absurd (omega arith)
In-used (x ∷ ptl) zero h u = rw (used-page x ptl u) (inl refl)
In-used (x ∷ ptl) (suc i) h u = elim (ℕ_discrete x unused) [
  | yes free ↦ rw (used-free x ptl free) (In-used ptl i (omega arith) u)
  | no page ↦ rw (used-page x ptl page) (inr (In-used ptl i (omega arith) u))
]

pub used-index :
    (a : ℕ) (ptl : List ℕ)
    → In a (used ptl)
    → (i : ℕ) × (i < length ptl) × (get_or ptl i unused ≡ a) × (a ≢ unused)
unfolding used
used-index a [] h = absurd h
used-index a (x ∷ ptl) h = elim (ℕ_discrete x unused) [
  | yes free ↦
      let r = used-index a ptl (subst (In a) (used-free x ptl free) h) in
      (suc r.0, omega (arith, r.1), r.2, r.3)
  | no page ↦ here page (subst (In a) (used-page x ptl page) h) (used-index a ptl)
]
  where
    here :
        x ≢ unused
        → In a (x ∷ used ptl)
        → (In a (used ptl) → (i : ℕ) × (i < length ptl) × (get_or ptl i unused ≡ a) × (a ≢ unused))
        → (i : ℕ) × (i < suc (length ptl)) × (get_or (x ∷ ptl) i unused ≡ a) × (a ≢ unused)
    here page (inl e) rest = (0, omega arith, sym e, rw e page)
    here page (inr m) rest = let r = rest m in (suc r.0, omega (arith, r.1), r.2, r.3)

-- No page is twice in a table.
abbrev pub IsInjective : List ℕ → Type 0
IsInjective ptl =
    (i j : ℕ) → get_or ptl i unused ≢ unused → get_or ptl i unused ≡ get_or ptl j unused → i ≡ j

pub Distinct-used : (ptl : List ℕ) → IsInjective ptl → Distinct (used ptl)
unfolding used
Distinct-used [] inj = tt
Distinct-used (x ∷ ptl) inj = elim (ℕ_discrete x unused) [
  | yes free ↦ rw (used-free x ptl free) (Distinct-used ptl tail_inj)
  | no page ↦ rw (used-page x ptl page) (once page, Distinct-used ptl tail_inj)
]
  where
    tail_inj : IsInjective ptl
    tail_inj i j u e = omega (arith, inj (suc i) (suc j) u e)

    once : x ≢ unused → ¬ In x (used ptl)
    once page h =
        let r = used-index x ptl h in absurd (omega (arith, inj 0 (suc r.0) page (sym r.2)))
