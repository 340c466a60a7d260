-- ===== src/Sim/Collect/Move.antt =====
-- What SSD::moveValidPagesTo of sim/SSD.hpp does on a valid SSD.
use ssdiq.Prelude.{
  ℕ, suc, ◌<◌, ◌≡◌, ◌≢◌, refl, ◌∙◌, inl, inr, true, false, not, List, [], ◌∷◌, arith, get_or, set,
  ok, Fault, fetch-in, ==→ne,
}
use ssdiq.Sim.Block.{Block, unused, all_invalid}
use ssdiq.Sim.Block.Valid.{count_used}
use ssdiq.Sim.Ssd.{Ssd, count_gced}
use ssdiq.Sim.Ssd.Pages.{nth_block, no_block, field-set_same}
use ssdiq.Sim.Ssd.Valid.{IsValid}
use ssdiq.Sim.Ssd.Write.{SameShape, SameShape-trans, head_of, valid_of}
use ssdiq.Sim.Collect.{block_at, move_loop, move_valid_pages_to}
use ssdiq.Sim.Collect.Relabel.{relabel-IsValid}
use ssdiq.Sim.Collect.Loop.{Moved, IsEmptied, loop-Moved}

count_used-empty : (xs : List ℕ) → ((i : ℕ) → get_or xs i unused ≡ unused) → count_used xs ≡ 0
unfolding count_used
count_used-empty [] h = refl
count_used-empty (x ∷ xs) h =
    let first : x ≡ unused = h 0 in rw first (omega (arith, count_used-empty xs (λ i. h (suc i))))

-- A block without pages counts none.
pub IsEmptied-valid_cnt :
    (s : Ssd) (b : ℕ)
    → IsValid s
    → b < s.block_count
    → IsEmptied s b
    → (nth_block s.blocks b).valid_cnt ≡ 0
IsEmptied-valid_cnt s b v h e =
    (v.each b (omega (arith, v.all_blocks))).valid.counted ∙ count_used-empty _ e

module _ (source destination : ℕ) (s : Ssd) (apart : destination ≢ source) (v : IsValid s)
    (hs : source < s.block_count) (hd : destination < s.block_count) where
  abbrev marked_block : Block
  marked_block = record (nth_block s.blocks destination) { written_by_gc = true }

  -- The destination is marked, and the statistics are counted, before the loop.
  abbrev marked : Ssd
  marked =
      let s' = count_gced (nth_block s.blocks source).written_by_gc s in
      record s' { blocks = set s'.blocks destination marked_block }

  marked-SameShape : SameShape s marked
  marked-SameShape = record {
    pages_per_block = refl;
    block_count = refl;
    logical_pages = refl;
    write_buffer_size = refl;
  }

  marked-IsValid : IsValid marked
  marked-IsValid =
      relabel-IsValid destination marked_block s marked v hd
        (record {
          ptl = refl;
          write_pos = refl;
          valid_cnt = refl;
          pages_per_block = refl;
          block_id = refl;
        })
        marked-SameShape refl refl refl

  marked-head : (d : ℕ) → head_of marked d ≡ head_of s d
  marked-head d =
      field-set_same (λ y. y.write_pos) s.blocks destination d marked_block
        (omega (arith, v.all_blocks)) refl

  marked-valid_of : (d : ℕ) → valid_of marked d ≡ valid_of s d
  marked-valid_of d =
      field-set_same (λ y. y.valid_cnt) s.blocks destination d marked_block
        (omega (arith, v.all_blocks)) refl

  move-steps :
      (t : Ssd)
      → move_loop s.pages_per_block 0 source destination marked ≡ ok t
      → block_at source t ≡ ok (nth_block t.blocks source)
      → move_valid_pages_to source destination s
        ≡ ok (t, not (all_invalid (nth_block t.blocks source)))
  unfolding move_valid_pages_to
  move-steps t e f = rw (
    fetch-in Fault.undefined_access s.blocks source no_block (omega (arith, v.all_blocks)),
    fetch-in Fault.undefined_access s.blocks destination no_block (omega (arith, v.all_blocks)),
    e,
    f,
  )

  -- `moveValidPagesTo` never throws on a valid SSD, if source and destination are two of its blocks. It
  -- keeps every page present, every other block's write position, and the count of valid pages of every
  -- third block; what the source loses the destination is written. It answers whether the source still
  -- has a valid page, and that is so only when the destination is full.
  pub move_valid_pages_to-Moved :
      (s' : Ssd) × (move_valid_pages_to source destination s
        ≡ ok (s', not (all_invalid (nth_block s'.blocks source))))
      × Moved source destination s s'
      × (all_invalid (nth_block s'.blocks source) ≡ false
          → head_of s' destination ≡ s'.pages_per_block)
  move_valid_pages_to-Moved =
      let r =
        loop-Moved source destination apart s.pages_per_block 0 marked marked-IsValid hs hd
          (omega arith) (λ q h. absurd (omega arith)) in
      let shape = SameShape-trans s marked r.0 marked-SameShape r.2.shape in
      let hs' : source < r.0.block_count = omega (arith, hs, shape.block_count) in
      (
        r.0,
        move-steps r.0 r.1 (
            fetch-in Fault.undefined_access r.0.blocks source no_block
              (omega (arith, r.2.valid.all_blocks, hs'))),
        record {
          shape = shape;
          valid = r.2.valid;
          same_pages = r.2.same_pages;
          heads = λ d h. r.2.heads d h ∙ marked-head d;
          grows = omega (arith, r.2.grows, marked-head destination);
          outcome = r.2.outcome;
          conserved = omega (arith, r.2.conserved, marked-head destination, marked-valid_of source);
          counts = λ c h k l. r.2.counts c h k l ∙ marked-valid_of c;
        },
        λ more. elim r.2.outcome [
          | inl full ↦ full
          | inr empty ↦ absurd (
              ==→ne (nth_block r.0.blocks source).valid_cnt 0 more
                (IsEmptied-valid_cnt r.0 source r.2.valid hs' empty))
        ],
      )
