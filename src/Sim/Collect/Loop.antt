-- ===== src/Sim/Collect/Loop.antt =====
-- The loop of SSD::moveValidPagesTo of sim/SSD.hpp on a valid SSD.
use ssdiq.Prelude.{
  ℕ, zero, suc, ◌+◌, ◌≤◌, ◌<◌, ◌≡◌, ◌≢◌, refl, sym, ap, ◌∙◌, ◌⊎◌, inl, inr, true, arith, ok, Fault,
  fetch-in, ◌==◌, ne→==, lt→ltb, ge→ltb, ℕ_discrete, dec_lt, minus_one, if◌then◌else◌, ◌>>=◌,
}
use ssdiq.Sim.Block.{unused}
use ssdiq.Sim.Ssd.{Ssd, is_address, write_page_without_caching}
use ssdiq.Sim.Ssd.Pages.{nth_block, no_block, page_at, page_at-inside, address-lt}
use ssdiq.Sim.Ssd.Consistent.{mapped, is_address-small, mapped-inside}
use ssdiq.Sim.Ssd.Valid.{IsValid}
use ssdiq.Sim.Ssd.Write.{
  SameShape, SameShape-refl, SameShape-trans, head_of, valid_of, Writes,
  write_page_without_caching-Writes,
}
use ssdiq.Sim.Collect.{block_at, move_loop, move_page}
use ssdiq.Sim.Collect.Count.{source-valid_of, other-valid_of}

-- A page in use is a mapped logical page.
pub page_at-mapped :
    (s : Ssd) (b q : ℕ)
    → IsValid s
    → page_at s.blocks b q ≢ unused
    → (is_address (mapped s.ltp_mapping (page_at s.blocks b q)) ≡ true)
      × (page_at s.blocks b q < s.logical_pages)
page_at-mapped s b q v u =
    let inside = page_at-inside s.blocks b q u in
    let own = v.each b inside.0 in
    let low : q < s.pages_per_block = omega (arith, inside.1, own.valid.sized, own.same_size) in
    let counted : b < s.block_count = omega (arith, inside.0, v.all_blocks) in
    let a = is_address-small (mapped s.ltp_mapping (page_at s.blocks b q)) (
      omega (
        arith,
        v.consistent.backward b q u,
        address-lt s.pages_per_block s.block_count b q counted low,
        v.address_space,
      )) in
    (
      a,
      omega (
        arith,
        mapped-inside s.pages_per_block s.ltp_mapping (page_at s.blocks b q) a,
        v.all_logical,
      ),
    )

-- The source is left without pages.
abbrev pub IsEmptied : Ssd → ℕ → Type 0
IsEmptied s b = (q : ℕ) → page_at s.blocks b q ≡ unused

-- A block has no positions past its end.
IsEmptied-below :
    (s : Ssd) (b n : ℕ)
    → IsValid s
    → s.pages_per_block ≤ n
    → ((q : ℕ) → q < n → page_at s.blocks b q ≡ unused)
    → IsEmptied s b
IsEmptied-below s b n v h f q = elim (ℕ_discrete (page_at s.blocks b q) unused) [
  | yes k ↦ k
  | no u ↦
      let inside = page_at-inside s.blocks b q u in
      let own = v.each b inside.0 in f q (omega (arith, inside.1, own.valid.sized, own.same_size))
]

-- What moving pages from `source` to `destination` leaves.
pub record Moved (source destination : ℕ) (s s' : Ssd) : Type 0 where
  pub shape : SameShape s s'
  pub valid : IsValid s'
  pub same_pages :
      (k : ℕ) → is_address (mapped s'.ltp_mapping k) ≡ is_address (mapped s.ltp_mapping k)
  pub heads : (d : ℕ) → destination ≢ d → head_of s' d ≡ head_of s d
  pub grows : head_of s destination ≤ head_of s' destination
  pub outcome : (head_of s' destination ≡ s'.pages_per_block) ⊎ IsEmptied s' source
  pub conserved :
      valid_of s' source + head_of s' destination ≡ valid_of s source + head_of s destination
  pub counts :
      (c : ℕ) → c < s.block_count → destination ≢ c → source ≢ c → valid_of s' c ≡ valid_of s c

module _ (source destination : ℕ) (apart : destination ≢ source) where
  -- The write of one page of the source.
  one_page :
      (p : ℕ) (s s' : Ssd)
      → IsValid s
      → page_at s.blocks source p ≢ unused
      → ((q : ℕ) → q < p → page_at s.blocks source q ≡ unused)
      → Writes (page_at s.blocks source p) destination s s'
      → ((q : ℕ) → q < p + 1 → page_at s'.blocks source q ≡ unused)
        × ((k : ℕ) → is_address (mapped s'.ltp_mapping k) ≡ is_address (mapped s.ltp_mapping k))
  one_page p s s' v u below w = (emptied, same)
    where
      emptied : (q : ℕ) → q < p + 1 → page_at s'.blocks source q ≡ unused
      emptied q h = elim (w.moves.others source q) [
        | inl k ↦ absurd (apart (sym k.0))
        | inr (inl gone) ↦ gone
        | inr (inr kept) ↦ elim (ℕ_discrete q p) [
          | yes e ↦ absurd (kept.1 (ap (page_at s.blocks source) e))
          | no ne ↦ kept.0 ∙ below q (omega arith)
        ]
      ]

      home : is_address (mapped s'.ltp_mapping (page_at s.blocks source p)) ≡ true
      home =
          rw w.moves.arrived at
            (page_at-mapped s' destination (head_of s destination) w.valid
              (λ m. u (sym w.moves.arrived ∙ m))).0

      same : (k : ℕ) → is_address (mapped s'.ltp_mapping k) ≡ is_address (mapped s.ltp_mapping k)
      same k = elim (ℕ_discrete (page_at s.blocks source p) k) [
        | yes e ↦
            ap (λ t. is_address (mapped s'.ltp_mapping t)) (sym e)
            ∙ home
            ∙ sym (page_at-mapped s source p v u).0
            ∙ ap (λ t. is_address (mapped s.ltp_mapping t)) e
        | no ne ↦ ap is_address (w.kept k ne)
      ]

  -- The blocks that the loop reads are there.
  module _ (p : ℕ) (s : Ssd) (v : IsValid s) (hs : source < s.block_count)
      (hd : destination < s.block_count) where
    at_ok : (b : ℕ) → b < s.block_count → block_at b s ≡ ok (nth_block s.blocks b)
    at_ok b h = fetch-in Fault.undefined_access s.blocks b no_block (omega (arith, v.all_blocks))

    loop_full :
        (rounds : ℕ)
        → head_of s destination ≡ s.pages_per_block
        → move_loop (suc rounds) p source destination s ≡ ok s
    unfolding move_loop
    loop_full rounds full = rw (
      at_ok destination hd,
      ge→ltb (head_of s destination) (nth_block s.blocks destination).pages_per_block
          (omega (arith, full, (v.each destination (omega (arith, v.all_blocks))).same_size)),
    )

    loop_step :
        (rounds : ℕ)
        → head_of s destination < s.pages_per_block
        → p < s.pages_per_block
        → move_loop (suc rounds) p source destination s ≡ (
            (if page_at s.blocks source p == unused
              then ok s
              else write_page_without_caching (page_at s.blocks source p) destination minus_one s)
            >>= λ s'. move_loop rounds (p + 1) source destination s')
    unfolding move_loop move_page
    loop_step rounds room low =
        let own = v.each source (omega (arith, v.all_blocks)) in
        rw (
          at_ok destination hd,
          lt→ltb (head_of s destination) (nth_block s.blocks destination).pages_per_block
              (omega (arith, room, (v.each destination (omega (arith, v.all_blocks))).same_size)),
          at_ok source hs,
          fetch-in Fault.undefined_access (nth_block s.blocks source).ptl p unused
              (omega (arith, own.valid.sized, own.same_size)),
        )

    loop-stops :
        (rounds : ℕ)
        → ¬ (head_of s destination < s.pages_per_block)
        → (s' : Ssd) × (move_loop (suc rounds) p source destination s ≡ ok s')
          × Moved source destination s s'
    loop-stops rounds full =
        let own = v.each destination (omega (arith, v.all_blocks)) in
        let at_end : head_of s destination ≡ s.pages_per_block =
          omega (arith, own.valid.within, own.same_size) in
        (
          s,
          loop_full rounds at_end,
          record {
            shape = SameShape-refl s;
            valid = v;
            same_pages = λ k. refl;
            heads = λ d h. refl;
            grows = omega arith;
            outcome = inl at_end;
            conserved = refl;
            counts = λ c h k l. refl;
          },
        )

  pub loop-Moved :
      (rounds p : ℕ) (s : Ssd)
      → IsValid s
      → source < s.block_count
      → destination < s.block_count
      → p + rounds ≡ s.pages_per_block
      → ((q : ℕ) → q < p → page_at s.blocks source q ≡ unused)
      → (s' : Ssd) × (move_loop rounds p source destination s ≡ ok s')
        × Moved source destination s s'
  loop-Moved zero p s v hs hd e below = (
    s,
    unfold move_loop in refl,
    record {
      shape = SameShape-refl s;
      valid = v;
      same_pages = λ k. refl;
      heads = λ d h. refl;
      grows = omega arith;
      outcome = inr (IsEmptied-below s source p v (omega arith) below);
      conserved = refl;
      counts = λ c h k l. refl;
    },
  )
  loop-Moved (suc rounds) p s v hs hd e below =
      elim (dec_lt (head_of s destination) s.pages_per_block) [
        | no full ↦ loop-stops p s v hs hd rounds full
        | yes room ↦ elim (ℕ_discrete (page_at s.blocks source p) unused) [
          | yes free ↦
              let r =
                loop-Moved rounds (p + 1) s v hs hd (omega arith) (λ q h. below_next free q h) in
              (r.0, loop_step p s v hs hd rounds room (omega arith) ∙ rw free r.1, r.2)
          | no u ↦
              let m = page_at-mapped s source p v u in
              let w =
                write_page_without_caching-Writes (page_at s.blocks source p) destination minus_one
                  s v m.1 hd room in
              let o = one_page p s w.0 v u below w.2 in
              let r =
                loop-Moved rounds (p + 1) w.0 w.2.valid (omega (arith, hs, w.2.shape.block_count))
                  (omega (arith, hd, w.2.shape.block_count))
                  (omega (arith, w.2.shape.pages_per_block)) o.0 in
              (
                r.0,
                loop_step p s v hs hd rounds room (omega arith)
                    ∙ rw (ne→== (page_at s.blocks source p) unused u, w.1) r.1,
                record {
                  shape = SameShape-trans s w.0 r.0 w.2.shape r.2.shape;
                  valid = r.2.valid;
                  same_pages = λ k. r.2.same_pages k ∙ o.1 k;
                  heads = λ d h. r.2.heads d h ∙ w.2.heads d h;
                  grows = omega (arith, r.2.grows, w.2.head);
                  outcome = r.2.outcome;
                  conserved = omega (
                    arith,
                    r.2.conserved,
                    w.2.head,
                    source-valid_of source destination p s w.0 apart v u w.2 hs,
                  );
                  counts = λ c h hd' hs'.
                      r.2.counts c (omega (arith, h, w.2.shape.block_count)) hd' hs'
                      ∙ other-valid_of source destination p s w.0 apart v u w.2 c h hd' hs';
                },
              )
        ]
      ]
    where
      below_next :
          page_at s.blocks source p ≡ unused
          → (q : ℕ) → q < p + 1
          → page_at s.blocks source q ≡ unused
      below_next free q h = elim (ℕ_discrete q p) [
        | yes k ↦ ap (page_at s.blocks source) k ∙ free
        | no k ↦ below q (omega arith)
      ]
