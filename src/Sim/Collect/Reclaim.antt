-- ===== src/Sim/Collect/Reclaim.antt =====
-- What SSD::compactUntilFreeBlock of sim/SSD.hpp does with a list of victims.
use mathlib.Core.List.{reverse, reverse_aux}
use ssdiq.Prelude.{
  ℕ, suc, ◌+◌, ◌*◌, ◌<◌, ◌≤◌, ◌≡◌, refl, sym, ap, ◌∙◌, inl, inr, List, [], ◌∷◌, arith, length, ok,
  Fault, fetch-in, ◌>>=◌, subst, In, All, Distinct, All-In, All-reverse, Distinct-reverse,
  In-reverse, length-reverse, last_of, reverse-last_of,
}
use ssdiq.Sim.Ssd.{Ssd, erase_block}
use ssdiq.Sim.Ssd.Pages.{no_block}
use ssdiq.Sim.Ssd.Valid.{IsValid}
use ssdiq.Sim.Ssd.Write.{head_of, valid_of}
use ssdiq.Sim.Ssd.Erase.{Keeps, Keeps-trans, erase_block-Keeps}
use ssdiq.Sim.Collect.{compact_chain, erase_final, compact_reversed, compact_victims}
use ssdiq.Sim.Collect.Chain.{held, chain-empties}

-- What the reclaim of a list of victims leaves: its first block is erased, every page is kept, and no
-- other block's write position changes.
pub record Reclaims (first : ℕ) (victims : List ℕ) (s s' : Ssd) : Type 0 where
  pub keeps : Keeps s s'
  pub erased : head_of s' first ≡ 0
  pub others : (c : ℕ) → ¬ In c victims → head_of s' c ≡ head_of s c

erase_final-steps :
    (id : ℕ) (s t : Ssd)
    → IsValid s
    → id < s.block_count
    → valid_of s id ≡ 0
    → erase_block id s ≡ ok t
    → IsValid t
    → id < t.block_count
    → head_of t id ≡ 0
    → erase_final id s ≡ ok (t, id)
unfolding erase_final
erase_final-steps id s t v h none_valid e w k z = rw (
  fetch-in Fault.undefined_access s.blocks id no_block (omega (arith, h, v.all_blocks)),
  none_valid,
  e,
  fetch-in Fault.undefined_access t.blocks id no_block (omega (arith, k, w.all_blocks)),
  z,
)

chain-final :
    (d : ℕ) (rest : List ℕ) (s t : Ssd)
    → compact_chain d rest s ≡ ok (t, last_of d rest)
    → compact_reversed (d ∷ rest) s ≡ erase_final (last_of d rest) t
unfolding compact_reversed compact_chain
chain-final d [] s t e = ap (λ r. r >>= λ c. erase_final d c.0) e
chain-final d (source ∷ rest) s t e = rw e refl

In-last_of : (d : ℕ) (rest : List ℕ) → In (last_of d rest) (d ∷ rest)
In-last_of d [] = inl refl
In-last_of d (x ∷ rest) = inr (In-last_of x rest)

reversed-Reclaims :
    (d : ℕ) (rest : List ℕ) (s : Ssd)
    → IsValid s
    → All (λ b. b < s.block_count) (d ∷ rest)
    → Distinct (d ∷ rest)
    → valid_of s d + held s rest ≤ length rest * s.pages_per_block
    → (s' : Ssd) × (compact_reversed (d ∷ rest) s ≡ ok (s', last_of d rest))
      × Reclaims (last_of d rest) (d ∷ rest) s s'
reversed-Reclaims d rest s v a u lack =
    let first = last_of d rest in
    let c = chain-empties rest d s v a u lack in
    let inside : first < c.0.block_count = omega (
      arith,
      All-In (λ b. b < s.block_count) (d ∷ rest) first a (In-last_of d rest),
      c.2.shape.block_count,
    ) in
    let e = erase_block-Keeps c.0 first c.2.valid inside c.3 in
    (
      e.0,
      chain-final d rest s c.0 c.1
          ∙ erase_final-steps first c.0 e.0 c.2.valid inside c.3 e.1 e.2.valid
              (omega (arith, inside, e.2.shape.block_count)) e.3,
      record {
        keeps = Keeps-trans s c.0 e.0 c.2 e.2;
        erased = e.3;
        others = λ b h.
            ap (λ y. y.write_pos)
              (e.4 b (λ k. h (subst (λ x. In x (d ∷ rest)) k (In-last_of d rest))))
            ∙ c.4 b h;
      },
    )

held-reverse_aux : (s : Ssd) (xs ys : List ℕ) → held s (reverse_aux xs ys) ≡ held s xs + held s ys
unfolding held
held-reverse_aux s [] ys = omega arith
held-reverse_aux s (x ∷ xs) ys = omega (arith, held-reverse_aux s xs (x ∷ ys))

held-reverse : (s : Ssd) (xs : List ℕ) → held s (reverse xs) ≡ held s xs
unfolding held
held-reverse s xs = omega (arith, held-reverse_aux s xs [])

held-cons : (s : Ssd) (b : ℕ) (bs : List ℕ) → valid_of s b + held s bs ≡ held s (b ∷ bs)
unfolding held
held-cons s b bs = refl

without_one : (k l n x y : ℕ) → x + n ≤ l * n → suc k ≡ l → y ≡ x → y ≤ k * n
without_one k l n x y h e m = subst (λ t. t ≤ k * n) (sym m) (less (rw e h))
  where
    less : x + n ≤ suc k * n → x ≤ k * n
    less h' = grind arith

-- On a valid SSD `compactUntilFreeBlock` never throws for distinct victims that are blocks and that
-- together have at least the invalid pages of one block, in whatever order they are listed. It erases
-- and returns the first of them, keeps every logical page, and writes to no block but the victims.
pub compact_victims-Reclaims :
    (first : ℕ) (others : List ℕ) (s : Ssd)
    → IsValid s
    → All (λ b. b < s.block_count) (first ∷ others)
    → Distinct (first ∷ others)
    → held s (first ∷ others) + s.pages_per_block ≤ length (first ∷ others) * s.pages_per_block
    → (s' : Ssd) × (compact_victims (first ∷ others) s ≡ ok (s', first))
      × Reclaims first (first ∷ others) s s'
unfolding compact_victims
compact_victims-Reclaims first others s v a u lack = from r.0 r.1 r.2 r.3
  where
    r : (d : ℕ) × (rest : List ℕ) × (reverse (first ∷ others) ≡ d ∷ rest) × (last_of d rest ≡ first)
    r = reverse-last_of first others

    from :
        (d : ℕ) (rest : List ℕ)
        → reverse (first ∷ others) ≡ d ∷ rest
        → last_of d rest ≡ first
        → (s' : Ssd) × (compact_reversed (reverse (first ∷ others)) s ≡ ok (s', first))
          × Reclaims first (first ∷ others) s s'
    from d rest e l =
        let sum : held s (d ∷ rest) ≡ held s (first ∷ others) =
          ap (held s) (sym e) ∙ held-reverse s (first ∷ others) in
        let size : length (d ∷ rest) ≡ length (first ∷ others) =
          ap length (sym e) ∙ length-reverse (first ∷ others) in
        let m =
          reversed-Reclaims d rest s v
            (subst (All (λ b. b < s.block_count)) e
              (All-reverse (λ b. b < s.block_count) (first ∷ others) a))
            (subst Distinct e (Distinct-reverse (first ∷ others) u))
            (without_one (length rest) (length (first ∷ others)) s.pages_per_block
              (held s (first ∷ others)) (valid_of s d + held s rest) lack size
              (held-cons s d rest ∙ sum)) in
        (
          m.0,
          rw e (m.1 ∙ ap (λ i. ok (m.0, i)) l),
          record {
            keeps = m.2.keeps;
            erased = ap (head_of m.0) (sym l) ∙ m.2.erased;
            others = λ c h.
                m.2.others c (λ k. h (In-reverse c (first ∷ others) (subst (In c) (sym e) k)));
          },
        )
