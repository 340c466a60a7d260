-- ===== src/Sim/Collect.antt =====
-- Garbage collection over several blocks: moveValidPagesTo and compactUntilFreeBlock of sim/SSD.hpp.
pub mod Relabel
pub mod Count
pub mod Loop
pub mod Move
pub mod Chain
pub mod Reclaim
use mathlib.Core.List.{reverse}
use ssdiq.Prelude.{
  ℕ, zero, suc, ◌+◌, ◌-◌, ◌^◌, Bool, true, false, not, List, [], ◌∷◌, Result, ok, err, Fault, ◌>>=◌,
  ◌>>◌, ensure, fetch, ◌==◌, if◌then◌else◌, pos, minus_one, set,
}
use ssdiq.Sim.Block.{Block, unused, can_write, all_valid, all_invalid, is_erased, erase}
use ssdiq.Sim.Ssd.{Ssd, write_page_without_caching, erase_block, compact_block, count_gced}

abbrev pub block_at : ℕ → Ssd → Result Block
block_at id s = fetch Fault.undefined_access s.blocks id

-- The body of the loop of `moveValidPagesTo`, without `p++`.
unfoldable pub move_page : ℕ → ℕ → ℕ → Ssd → Result Ssd
move_page p source_id destination_id s = do
  source ← block_at source_id s
  page ← fetch Fault.undefined_access source.ptl p
  if page == unused then ok s else write_page_without_caching page destination_id minus_one s

-- `while (p < pagesPerBlock && destination.canWrite())`, over the rounds that are left.
unfoldable pub move_loop : ℕ → ℕ → ℕ → ℕ → Ssd → Result Ssd
move_loop zero p source_id destination_id s = ok s
move_loop (suc rounds) p source_id destination_id s = do
  destination ← block_at destination_id s
  let go_on = (do
    s' ← move_page p source_id destination_id s
    move_loop rounds (p + 1) source_id destination_id s')
  if can_write destination then go_on else ok s

-- The result says whether the source still holds a page.
unfoldable pub move_valid_pages_to : ℕ → ℕ → Ssd → Result (Ssd × Bool)
move_valid_pages_to source_id destination_id s = do
  source ← block_at source_id s
  destination ← block_at destination_id s
  let s' = count_gced source.written_by_gc s
  let marked = set s'.blocks destination_id (record destination { written_by_gc = true })
  moved ← move_loop s.pages_per_block 0 source_id destination_id (record s' { blocks = marked })
  left ← block_at source_id moved
  ok (moved, not (all_invalid left))

-- `nowFree.erase(); nowFree.gcGeneration = 0;`
unfoldable pub release_block : ℕ → Ssd → Result Ssd
release_block block_id s = do
  b ← block_at block_id s
  let (b', age) = erase s.erase_age_counter b
  ok (record s {
    blocks = set s.blocks block_id (record b' { gc_generation = pos 0 });
    erase_age_counter = age;
  })

-- The loop of `compactUntilFreeBlock(gcBlockId, nextBlock)`, on fuel. The callback chooses a victim
-- from the state and may throw. The result holds the freed block and the block that has room.
unfoldable pub free_loop : (Ssd → Result ℕ) → ℕ → ℕ → ℕ → Ssd → Result (Ssd × ℕ × ℕ)
free_loop next_block zero victim_id gc_block_id s = err Fault.out_of_fuel
free_loop next_block (suc fuel) victim_id gc_block_id s = do
  moved ← move_valid_pages_to victim_id gc_block_id s
  elim moved.1 [
    | true ↦ do
      compacted ← compact_block victim_id moved.0
      next ← next_block compacted
      free_loop next_block fuel next victim_id compacted
    | false ↦ do freed ← release_block victim_id moved.0; ok (freed, victim_id, gc_block_id)
  ]

-- `gcBlockId == -1 || _blocks[gcBlockId].allValid()`, the parameter being a `uint64_t`.
unfoldable pub needs_gc_block : ℕ → Ssd → Result Bool
needs_gc_block gc_block_id s =
    if gc_block_id == 2 ^ 64 - 1
    then ok true
    else (block_at gc_block_id s >>= λ b. ok (all_valid b))

unfoldable pub fresh_gc_block : (Ssd → Result ℕ) → Ssd → Result (Ssd × ℕ)
fresh_gc_block next_block s = do
  id ← next_block s
  compacted ← compact_block id s
  b ← block_at id compacted
  ensure (not (all_valid b))
  ok (compacted, id)

unfoldable pub compact_until_free_block : (Ssd → Result ℕ) → ℕ → ℕ → Ssd → Result (Ssd × ℕ × ℕ)
compact_until_free_block next_block fuel gc_block_id s = do
  needed ← needs_gc_block gc_block_id s
  begun ← if needed then fresh_gc_block next_block s else ok (s, gc_block_id)
  b ← block_at begun.1 begun.0
  ensure (not (all_valid b))
  victim_id ← next_block begun.0
  free_loop next_block fuel victim_id begun.1 begun.0

-- The loop of `compactUntilFreeBlock(victimBlockList)`. It runs from the back of the list, which is
-- given in reverse; the result holds the first entry.
unfoldable pub compact_chain : ℕ → List ℕ → Ssd → Result (Ssd × ℕ)
compact_chain dest [] s = ok (s, dest)
compact_chain dest (source ∷ rest) s = do
  compacted ← compact_block dest s
  moved ← move_valid_pages_to source dest compacted
  compact_chain source rest moved.0

unfoldable pub erase_final : ℕ → Ssd → Result (Ssd × ℕ)
erase_final id s = do
  b ← block_at id s
  ensure (all_invalid b)
  s' ← erase_block id s
  b' ← block_at id s'
  ensure (is_erased b')
  ok (s', id)

-- `compactUntilFreeBlock(victimBlockList)`, the list in reverse.
unfoldable pub compact_reversed : List ℕ → Ssd → Result (Ssd × ℕ)
compact_reversed [] s = err Fault.invalid_argument
compact_reversed (only ∷ []) s = erase_final only s
compact_reversed (last ∷ source ∷ rest) s = do
  chained ← compact_chain last (source ∷ rest) s
  erase_final chained.1 chained.0

unfoldable pub compact_victims : List ℕ → Ssd → Result (Ssd × ℕ)
compact_victims victims s = compact_reversed (reverse victims) s
