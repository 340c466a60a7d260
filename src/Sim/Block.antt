-- ===== src/Sim/Block.antt =====
-- The erase block of the simulated SSD: class SSD::Block of sim/SSD.hpp.
pub mod Valid
pub mod Compact
pub mod Used
use ssdiq.Prelude.{
  ℕ, zero, suc, ◌+◌, ◌-◌, ◌^◌, Bool, true, false, not, ◌&&◌, List, [], ◌∷◌, Result, ok, err, Fault,
  ◌>>=◌, ◌>>◌, ensure, fetch, ltb, ◌==◌, if◌then◌else◌, add64, sub64, ℤ, pos, minus_one, to_int64,
  replicate, get_or, set,
}

-- `~0ULL`, and the state next to it.
abbrev pub unused : ℕ
unused = 2 ^ 64 - 1

abbrev pub incache : ℕ
incache = unused - 1

pub record Block : Type 0 where
  pub write_pos : ℕ
  pub valid_cnt : ℕ
  pub erase_count : ℕ
  pub ptl : List ℕ
  pub pages_per_block : ℕ
  pub block_id : ℕ
  pub gc_age : ℤ
  pub gc_generation : ℤ
  pub group : ℤ
  pub written_by_gc : Bool

-- The constructor.
unfoldable pub new_block : ℕ → ℕ → Block
new_block pages_per_block block_id = record {
  write_pos = 0;
  valid_cnt = 0;
  erase_count = 0;
  ptl = replicate pages_per_block unused;
  pages_per_block = pages_per_block;
  block_id = block_id;
  gc_age = minus_one;
  gc_generation = pos 0;
  group = minus_one;
  written_by_gc = false;
}

abbrev pub invalid_cnt : Block → ℕ
invalid_cnt b = sub64 b.pages_per_block b.valid_cnt

abbrev pub fully_written : Block → Bool
fully_written b = b.write_pos == b.pages_per_block

abbrev pub can_write : Block → Bool
can_write b = ltb b.write_pos b.pages_per_block

abbrev pub all_valid : Block → Bool
all_valid b = b.valid_cnt == b.pages_per_block

abbrev pub all_invalid : Block → Bool
all_invalid b = b.valid_cnt == 0

abbrev pub is_gcable : Block → Bool
is_gcable b = fully_written b && not (all_valid b)

abbrev pub is_erased : Block → Bool
is_erased b = b.write_pos == 0

-- `write` returns the position that it wrote.
unfoldable pub write : ℕ → Block → Result (ℕ × Block)
write log_page b = do
  ensure (can_write b)
  old ← fetch Fault.undefined_access b.ptl b.write_pos
  ensure (old == unused)
  ok (
    b.write_pos,
    record b {
      ptl = set b.ptl b.write_pos log_page;
      valid_cnt = add64 b.valid_cnt 1;
      write_pos = add64 b.write_pos 1;
    },
  )

unfoldable pub set_unused : ℕ → Block → Result Block
set_unused p b = do
  old ← fetch Fault.undefined_access b.ptl p
  ensure (not (old == unused))
  ok (record b { ptl = set b.ptl p unused; valid_cnt = sub64 b.valid_cnt 1 })

-- The loop `for (BPOS p = 0; p < pagesPerBlock; p++)` of `compactNoMappingUpdate`, over the rounds
-- that are left. It reads position `p` and writes position `w` of one and the same vector, which
-- has `pages_per_block` entries (`IsValid.sized`), so that no read is out of range.
unfoldable pub compact_loop : ℕ → ℕ → ℕ → List ℕ → ℕ × List ℕ
compact_loop zero p w ptl = (w, ptl)
compact_loop (suc rounds) p w ptl =
    let logpagemove = get_or ptl p unused in
    compact_loop rounds (p + 1) (if logpagemove == unused then w else add64 w 1)
      (if logpagemove == unused then ptl else set ptl w logpagemove)

-- `fill(v.begin() + n, v.end(), unused)`.
unfoldable pub fill_unused : ℕ → List ℕ → List ℕ
fill_unused n [] = []
fill_unused zero (x ∷ xs) = unused ∷ fill_unused zero xs
fill_unused (suc n) (x ∷ xs) = x ∷ fill_unused n xs

-- The static counter `_eraseAgeCounter` is shared by all blocks: it goes in and comes out.
unfoldable pub compact_no_mapping_update : ℕ → Block → Block × ℕ
compact_no_mapping_update erase_age b =
    let (w, moved) = compact_loop b.pages_per_block 0 0 b.ptl in
    (
      record b {
        write_pos = w;
        valid_cnt = w;
        ptl = fill_unused w moved;
        erase_count = add64 b.erase_count 1;
        gc_age = to_int64 erase_age;
        written_by_gc = true;
      },
      add64 erase_age 1,
    )

unfoldable pub erase : ℕ → Block → Block × ℕ
erase erase_age b = (
  record b {
    ptl = fill_unused 0 b.ptl;
    write_pos = 0;
    erase_count = add64 b.erase_count 1;
    gc_age = to_int64 erase_age;
    written_by_gc = false;
    valid_cnt = 0;
    group = minus_one;
  },
  add64 erase_age 1,
)
