-- ===== src/Sim/Greedy/Select.antt =====
-- The choice of a victim: GreedyGC::singleGreedy of sim/Greedy.hpp.
use ssdiq.Prelude.{
  ℕ, zero, suc, ◌+◌, ◌-◌, ◌*◌, ◌^◌, ◌≤◌, ◌<◌, ◌≡◌, refl, ◌∙◌, ◌⊎◌, inl, inr, Bool, true, false,
  ◌&&◌, arith, length, Option, none, some, ok, err, Fault, fetch-in, ltb, if◌then◌else◌, ℕ_discrete,
  Bool-cases, subst, ltb→lt, ltb→ge,
}
use ssdiq.Sim.Block.{fully_written}
use ssdiq.Sim.Block.Valid as BlockValid
use ssdiq.Sim.Ssd.{Ssd}
use ssdiq.Sim.Ssd.Write.{valid_of}
use ssdiq.Sim.Ssd.Pages.{nth_block, no_block}
use ssdiq.Sim.Ssd.Valid.{IsValid}
use ssdiq.Sim.Greedy.{greedy_scan, single_greedy}

abbrev pub IsFull : Ssd → ℕ → Type 0
IsFull s b = fully_written (nth_block s.blocks b) ≡ true

-- A full block that has no more valid pages than any other full block below `bound`.
pub record IsLeast (s : Ssd) (bound m : ℕ) : Type 0 where
  pub inside : m < bound
  pub full : IsFull s m
  pub least : (j : ℕ) → j < bound → IsFull s j → valid_of s m ≤ valid_of s j

-- What the scan has found below index `i`.
abbrev Scanned : Ssd → ℕ → Option ℕ → ℕ → Type 0
Scanned s i none cnt = (cnt ≡ 2 ^ 64 - 1) × ((j : ℕ) → j < i → ¬ IsFull s j)
Scanned s i (some m) cnt = (cnt ≡ valid_of s m) × IsLeast s i m

-- What the whole scan returns.
abbrev Scans : Ssd → ℕ → Option ℕ → Type 0
Scans s n none = (j : ℕ) → j < n → ¬ IsFull s j
Scans s n (some m) = IsLeast s n m

and_left : (a b : Bool) → (a && b) ≡ true → a ≡ true
and_left a b h = ground arith

and_right : (a b : Bool) → (a && b) ≡ true → b ≡ true
and_right a b h = ground arith

and_false : (a b : Bool) → b ≡ true → (a && b) ≡ false → a ≡ false
and_false a b e h = ground arith

module _ (s : Ssd) (small : (j : ℕ) → j < length s.blocks → valid_of s j < 2 ^ 64 - 1) where
  scan_better :
      (i : ℕ) (o : Option ℕ) (cnt : ℕ)
      → Scanned s i o cnt
      → IsFull s i
      → valid_of s i < cnt
      → Scanned s (i + 1) (some i) (valid_of s i)
  scan_better i none cnt h full lt = (
    refl,
    record {
      inside = omega arith;
      full = full;
      least = λ j hj fj. elim (ℕ_discrete i j) [
        | yes e ↦ rw e (omega arith)
        | no ne ↦ absurd (h.1 j (omega arith) fj)
      ];
    },
  )
  scan_better i (some m) cnt h full lt = (
    refl,
    record {
      inside = omega arith;
      full = full;
      least = λ j hj fj. elim (ℕ_discrete i j) [
        | yes e ↦ rw e (omega arith)
        | no ne ↦ omega (arith, h.1.least j (omega arith) fj, h.0)
      ];
    },
  )

  scan_keep :
      (i : ℕ) (o : Option ℕ) (cnt : ℕ)
      → i < length s.blocks
      → Scanned s i o cnt
      → (IsFull s i → cnt ≤ valid_of s i)
      → Scanned s (i + 1) o cnt
  scan_keep i none cnt hi h worse = (
    h.0,
    λ j hj fj. elim (ℕ_discrete i j) [
      | yes e ↦ omega (arith, small i hi, worse (rw e fj), h.0)
      | no ne ↦ h.1 j (omega arith) fj
    ],
  )
  scan_keep i (some m) cnt hi h worse = (
    h.0,
    record {
      inside = omega (arith, h.1.inside);
      full = h.1.full;
      least = λ j hj fj. elim (ℕ_discrete i j) [
        | yes e ↦ rw (← e) (omega (arith, worse (rw e fj), h.0))
        | no ne ↦ h.1.least j (omega arith) fj
      ];
    },
  )

  scan_done : (n : ℕ) (o : Option ℕ) (cnt : ℕ) → Scanned s n o cnt → Scans s n o
  scan_done n none cnt h = h.1
  scan_done n (some m) cnt h = h.1

  scan_step :
      (rounds i : ℕ) (o : Option ℕ) (cnt : ℕ)
      → i < length s.blocks
      → let better = ltb (valid_of s i) cnt && fully_written (nth_block s.blocks i) in
        greedy_scan (suc rounds) i o cnt s
        ≡ greedy_scan rounds
            (i + 1)
            (if better then some i else o)
            (if better then valid_of s i else cnt)
            s
  unfolding greedy_scan
  scan_step rounds i o cnt h = rw (fetch-in Fault.undefined_access s.blocks i no_block h)

  greedy_scan-Scans :
      (rounds i n : ℕ) (o : Option ℕ) (cnt : ℕ)
      → i + rounds ≡ n
      → n ≤ length s.blocks
      → Scanned s i o cnt
      → (o' : Option ℕ) × (greedy_scan rounds i o cnt s ≡ ok o') × Scans s n o'
  greedy_scan-Scans zero i n o cnt e hn h =
      (o, scan_end, subst (λ t. Scans s t o) (omega arith) (scan_done i o cnt h))
    where
      scan_end : greedy_scan zero i o cnt s ≡ ok o
      scan_end = unfold greedy_scan in refl
  greedy_scan-Scans (suc rounds) i n o cnt e hn h =
      elim (Bool-cases (ltb (valid_of s i) cnt && fully_written (nth_block s.blocks i))) [
        | inl t ↦
            let r = greedy_scan-Scans rounds (i + 1) n (some i) (valid_of s i) (omega arith) hn (
              scan_better i o cnt h
                (and_right (ltb (valid_of s i) cnt) (fully_written (nth_block s.blocks i)) t)
                (ltb→lt (valid_of s i) cnt
                  (and_left (ltb (valid_of s i) cnt) (fully_written (nth_block s.blocks i)) t))) in
            (r.0, scan_step rounds i o cnt (omega arith) ∙ rw t r.1, r.2)
        | inr t ↦
            let r =
              greedy_scan-Scans rounds (i + 1) n o cnt (omega arith) hn
                (scan_keep i o cnt (omega arith) h (λ full. worse full t)) in
            (r.0, scan_step rounds i o cnt (omega arith) ∙ rw t r.1, r.2)
      ]
    where
      worse :
          IsFull s i
          → (ltb (valid_of s i) cnt && fully_written (nth_block s.blocks i)) ≡ false
          → cnt ≤ valid_of s i
      worse full u =
          ltb→ge (valid_of s i) cnt
            (and_false (ltb (valid_of s i) cnt) (fully_written (nth_block s.blocks i)) full u)

-- With counters in range `singleGreedy` returns a full block that has no more valid pages than any other
-- full block, or no block is full and its check fails.
pub single_greedy-cases :
    (s : Ssd)
    → length s.blocks ≡ s.block_count
    → ((j : ℕ) → j < length s.blocks → valid_of s j < 2 ^ 64 - 1)
    → ((m : ℕ) × (single_greedy s ≡ ok m) × IsLeast s s.block_count m)
      ⊎ ((single_greedy s ≡ err Fault.ensure_failed) × ((j : ℕ) → j < s.block_count → ¬ IsFull s j))
unfolding single_greedy
single_greedy-cases s e small =
    let r =
      greedy_scan-Scans s small s.block_count 0 s.block_count none (2 ^ 64 - 1) (omega arith)
        (omega arith) (refl, λ j hj. absurd (omega arith)) in
    answer r.0 r.1 r.2
  where
    answer :
        (o : Option ℕ)
        → greedy_scan s.block_count 0 none (2 ^ 64 - 1) s ≡ ok o
        → Scans s s.block_count o
        → ((m : ℕ) × (single_greedy s ≡ ok m) × IsLeast s s.block_count m)
          ⊎ ((single_greedy s ≡ err Fault.ensure_failed)
              × ((j : ℕ) → j < s.block_count → ¬ IsFull s j))
    answer none q h = inr (unfold single_greedy in rw q, h)
    answer (some m) q h = inl (m, unfold single_greedy in rw q, h)

-- The valid pages of a valid SSD are in range of the scan's start value.
pub valid_of-small :
    (s : Ssd) → IsValid s → (j : ℕ) → j < length s.blocks → valid_of s j < 2 ^ 64 - 1
valid_of-small s v j h =
    let own = v.each j h in
    omega (
      arith,
      own.valid.within,
      own.same_size,
      BlockValid.valid_cnt-le-write_pos (nth_block s.blocks j) own.valid,
      v.address_space,
      v.all_blocks,
      le-mul s.pages_per_block s.block_count (omega (arith, v.all_blocks)),
    )
  where
    le-mul : (a c : ℕ) → 0 < c → a ≤ c * a
    le-mul a c p = grind arith
