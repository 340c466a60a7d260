-- ===== src/Sim/Greedy/Sampled.antt =====
-- The k-greedy policy of GreedyGC::performGC of sim/Greedy.hpp, which samples k blocks.
use ssdiq.Prelude.{
  ℕ, zero, suc, ◌+◌, ◌-◌, ◌^◌, ◌<◌, ◌≡◌, refl, ◌∙◌, false, [], ◌∷◌, arith, Option, none, some, ok,
  err, Fault, ltb, lt→ltb, ge→ltb, ne→==, fetch-in, if◌then◌else◌,
}
use ssdiq.Sim.Block.{can_write}
use ssdiq.Sim.Ssd.{Ssd, compact_block}
use ssdiq.Sim.Ssd.Pages.{nth_block, no_block}
use ssdiq.Sim.Ssd.Valid as SsdValid
use ssdiq.Sim.Ssd.Write.{valid_of, head_of}
use ssdiq.Sim.Ssd.Compact.{Compacts, compact_block-Compacts}
use ssdiq.Sim.Greedy.{
  Greedy, k_greedy_scan, choose_victim, collect_victim, next_block, gc_write_page,
}
use ssdiq.Sim.Greedy.Select.{valid_of-small}
use ssdiq.Sim.Greedy.Valid.{IsValid}
use ssdiq.Sim.Greedy.Total.{block_at-ok, refill-empty, pop_front-some}

-- Every one of the first `k` blocks that are drawn is full of valid pages.
abbrev pub AllDrawnValid : ℕ → (ℕ → ℕ) → Ssd → Type 0
AllDrawnValid k rnd s =
    (i : ℕ) → i < k → (rnd i < s.block_count) × (valid_of s (rnd i) ≡ s.pages_per_block)

module _ (s : Ssd) (v : SsdValid.IsValid s) where
  draw-ok :
      (rnd : ℕ → ℕ) (rounds cnt : ℕ) (o : Option ℕ)
      → rnd 0 < s.block_count
      → k_greedy_scan (suc rounds) rnd o cnt s
        ≡ k_greedy_scan rounds
            (λ i. rnd (i + 1))
            (if ltb (valid_of s (rnd 0)) cnt then some (rnd 0) else o)
            (if ltb (valid_of s (rnd 0)) cnt then valid_of s (rnd 0) else cnt)
            s
  unfolding k_greedy_scan
  draw-ok rnd rounds cnt o h =
      rw (fetch-in Fault.out_of_range s.blocks (rnd 0) no_block (omega (arith, v.all_blocks)))

  -- A later draw is taken only if it has fewer valid pages.
  keeps-first :
      (rounds : ℕ) (rnd : ℕ → ℕ) (first : ℕ)
      → AllDrawnValid rounds rnd s
      → k_greedy_scan rounds rnd (some first) s.pages_per_block s ≡ ok (some first)
  keeps-first zero rnd first d = unfold k_greedy_scan in refl
  keeps-first (suc rounds) rnd first d =
      let h = d 0 (omega arith) in
      draw-ok rnd rounds s.pages_per_block (some first) h.0
      ∙ rw (ge→ltb (valid_of s (rnd 0)) s.pages_per_block (omega arith))
          (keeps-first rounds (λ i. rnd (i + 1)) first (λ i hi. d (i + 1) (omega arith)))

  sampled-first :
      (rounds : ℕ) (rnd : ℕ → ℕ)
      → AllDrawnValid (suc rounds) rnd s
      → k_greedy_scan (suc rounds) rnd none (2 ^ 64 - 1) s ≡ ok (some (rnd 0))
  sampled-first rounds rnd d =
      let h = d 0 (omega arith) in
      draw-ok rnd rounds (2 ^ 64 - 1) none h.0
      ∙ rw
          (
            lt→ltb (valid_of s (rnd 0)) (2 ^ 64 - 1)
                (valid_of-small s v (rnd 0) (omega (arith, v.all_blocks))),
            h.1,
          )
          (keeps-first rounds (λ i. rnd (i + 1)) (rnd 0) (λ i hi. d (i + 1) (omega arith)))

module _ (fuel page j : ℕ) (g : Greedy) (v : IsValid g) (plain : g.simple_two_r ≡ false)
    (k : g.k ≡ suc j) (empty : g.free_blocks ≡ [])
    (full : head_of g.ssd g.current_block ≡ g.ssd.pages_per_block)
    (drawn : AllDrawnValid (suc j) g.rnd g.ssd) where
  victim-first : choose_victim g ≡ ok (g.rnd 0)
  unfolding choose_victim
  victim-first =
      simp k (rw (ne→== (suc j) 0 (omega arith), sampled-first g.ssd v.ssd j g.rnd drawn))

  module _ (s : Ssd) (compacts : compact_block (g.rnd 0) g.ssd ≡ ok s)
      (c : Compacts (g.rnd 0) g.ssd s) where
    abbrev popped : Greedy
    popped = record g {
      ssd = s;
      current_block = g.rnd 0;
      free_blocks = [];
      rnd = λ i. g.rnd (i + g.k);
    }

    collects :
        collect_victim g
        ≡ ok (record g { ssd = s; free_blocks = g.rnd 0 ∷ []; rnd = λ i. g.rnd (i + g.k) })
    unfolding collect_victim
    collects = simp (victim-first, compacts, empty)

    inside : g.rnd 0 < s.block_count
    inside = omega (arith, (drawn 0 (omega arith)).0, c.shape.block_count)

    no_room : can_write (nth_block s.blocks (g.rnd 0)) ≡ false
    no_room =
        let own = c.valid.each (g.rnd 0) (omega (arith, c.valid.all_blocks, inside)) in
        ge→ltb (head_of s (g.rnd 0)) (nth_block s.blocks (g.rnd 0)).pages_per_block
          (omega (arith, c.head, (drawn 0 (omega arith)).1, own.same_size, c.shape.pages_per_block))

    next_block-stuck : next_block fuel g ≡ err Fault.ensure_failed
    unfolding next_block
    next_block-stuck = rw (
      refill-empty fuel g g.free_blocks empty plain,
      collects,
      pop_front-some (g.rnd 0) [] (g.rnd 0 ∷ [])
          (record g { ssd = s; free_blocks = g.rnd 0 ∷ []; rnd = λ i. g.rnd (i + g.k) }) refl,
      block_at-ok s (g.rnd 0) c.valid inside,
      no_room,
    )

  current_full : can_write (nth_block g.ssd.blocks g.current_block) ≡ false
  current_full =
      let own = v.ssd.each g.current_block (omega (arith, v.ssd.all_blocks, v.current)) in
      ge→ltb (head_of g.ssd g.current_block)
        (nth_block g.ssd.blocks g.current_block).pages_per_block
        (omega (arith, own.same_size, full))

  -- When every block is written to its end and the k sampled blocks have no invalid page, the k-greedy
  -- collector compacts a block that stays full, and the write fails with EnsureFailed, whatever the
  -- page and however many other blocks could have been collected.
  pub sampled-stuck : gc_write_page fuel page g ≡ err Fault.ensure_failed
  unfolding gc_write_page
  sampled-stuck =
      let c = compact_block-Compacts (g.rnd 0) g.ssd v.ssd (drawn 0 (omega arith)).0 in
      rw (
        block_at-ok g.ssd g.current_block v.ssd v.current,
        current_full,
        next_block-stuck c.0 c.1 c.2,
      )
