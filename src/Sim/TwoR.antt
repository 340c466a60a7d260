-- ===== src/Sim/TwoR.antt =====
-- The two-region collector: class TwoR of sim/TwoR.hpp, its state, the choice of a region and the
-- greedy policy. The FIFO policy and the writes are in TwoR/Fifo.antt and TwoR/Write.antt.
pub mod Region
pub mod Select
pub mod Choose
pub mod Settle
pub mod Collects
pub mod Fifo
pub mod Write
mod Tests
use ssdiq.Prelude.{
  ℕ, zero, suc, ◌+◌, ◌^◌, ◌%◌, Bool, true, false, not, ◌&&◌, List, [], ◌∷◌, ◌++◌, Result, ok, err,
  Fault, Option, ◌>>=◌, ◌>>◌, ensure, ltb, leb, ◌==◌, if◌then◌else◌, add64, sub64,
}
use ssdiq.Sim.Block.{Block, can_write}
use ssdiq.Sim.Ssd.{Ssd, contains}
use ssdiq.Sim.Collect.{block_at, compact_victims}

pub data GcAlgorithm : Type 0 where
  two_r_fifo two_r_greedy other : GcAlgorithm

-- The number BLK_UTIL: 0.7 if it has been reset and 0.5 before, and the times that 0.05 was added.
pub record Utilization : Type 0 where
  pub reset : Bool
  pub raises : ℕ

-- A node of `fifoList`. Each node has a number of its own, which an iterator that points at it is.
pub record Node : Type 0 where
  pub node : ℕ
  pub block : ℕ

-- An iterator of `fifoList`, `none` being `end()`.
abbrev pub Iterator : Type 0
Iterator = Option ℕ

-- `curBlkPtr` is never read. `steps_since_reset` is a static variable of `selectVictimBlocksFIFO`.
pub record TwoR : Type 0 where
  pub ssd : Ssd
  pub gc_algorithm : GcAlgorithm
  pub current_block : ℕ
  pub free_blocks : List ℕ
  pub normal_blocks : List ℕ
  pub cold_blocks : List ℕ
  pub blk_util : Utilization
  pub fifo_list : List Node
  pub next_node : ℕ
  pub cur_scan : Iterator
  pub cur_cold_blk_ptr : Iterator
  pub steps_since_reset : ℕ

abbrev pub is_empty : List ℕ → Bool
is_empty [] = true
is_empty (b ∷ bs) = false

-- `std::min_element` with the comparison of valid pages, `best` being the least block so far.
unfoldable pub min_element : Ssd → ℕ → List ℕ → Result ℕ
min_element s best [] = ok best
min_element s best (b ∷ bs) = do
  block ← block_at b s
  least ← block_at best s
  min_element s (if ltb block.valid_cnt least.valid_cnt then b else best) bs

-- `greedyNormal` and `greedyCold`, which differ in the region only.
unfoldable pub greedy_region : Ssd → List ℕ → Result ℕ
greedy_region s [] = ok s.block_count
greedy_region s (b ∷ bs) = min_element s b bs

-- `getTotalInvalidPagesCold` and `getTotalInvalidPagesNormal`: the loop over a region.
unfoldable pub total_invalid_pages : Ssd → List ℕ → ℕ → Result ℕ
total_invalid_pages s [] invalid_pages_cnt = ok invalid_pages_cnt
total_invalid_pages s (b ∷ bs) invalid_pages_cnt = do
  block ← block_at b s
  total_invalid_pages s bs (add64 invalid_pages_cnt (sub64 s.pages_per_block block.valid_cnt))

-- The comparison of the two least blocks, whose counters are cut down to 32 bits.
unfoldable pub cold_is_least : TwoR → Result Bool
cold_is_least t = do
  hot_id ← greedy_region t.ssd t.normal_blocks
  hot ← block_at hot_id t.ssd
  cold_id ← greedy_region t.ssd t.cold_blocks
  cold ← block_at cold_id t.ssd
  ok (not (ltb (hot.valid_cnt % 2 ^ 32) (cold.valid_cnt % 2 ^ 32)))

unfoldable pub normal_too_full : TwoR → Result Bool
normal_too_full t = do
  normal ← total_invalid_pages t.ssd t.normal_blocks 0
  if ltb normal t.ssd.pages_per_block then ok true else cold_is_least t

unfoldable pub garbage_collect_cold_region : TwoR → Result Bool
garbage_collect_cold_region t = do
  cold ← total_invalid_pages t.ssd t.cold_blocks 0
  if ltb cold t.ssd.pages_per_block then ok false else normal_too_full t

-- The inner `do … while (selectedVictims.find(victimId) != selectedVictims.end())`, on fuel.
unfoldable pub pick_victim : ℕ → Ssd → List ℕ → List ℕ → Result ℕ
pick_victim zero s selected region = err Fault.out_of_fuel
pick_victim (suc fuel) s selected region = do
  victim_id ← greedy_region s region
  let again = pick_victim fuel s selected region
  if contains victim_id selected then again else ok victim_id

-- `region.erase(std::remove(region.begin(), region.end(), victimId), region.end())`.
unfoldable pub remove_all : ℕ → List ℕ → List ℕ
remove_all v [] = []
remove_all v (b ∷ bs) = let rest = remove_all v bs in if b == v then rest else b ∷ rest

-- What the selection works on: `victimIds`, `selectedVictims`, `totalInvalidPages` and the region.
pub record Selection : Type 0 where
  pub victim_ids : List ℕ
  pub selected_victims : List ℕ
  pub total_invalid : ℕ
  pub region : List ℕ

-- One round of the loop that selects from a region.
unfoldable pub select_one : ℕ → Ssd → Selection → Result Selection
select_one fuel s x = do
  victim_id ← pick_victim fuel s x.selected_victims x.region
  block ← block_at victim_id s
  ok (record {
    victim_ids = x.victim_ids ++ (victim_id ∷ []);
    selected_victims = victim_id ∷ x.selected_victims;
    total_invalid = add64 x.total_invalid (sub64 s.pages_per_block block.valid_cnt);
    region = remove_all victim_id x.region;
  })

-- `while (*totalInvalidPages < ssd.pagesPerBlock && !region.empty())`, on fuel.
unfoldable pub select_loop : ℕ → Ssd → Selection → Result Selection
select_loop zero s x = err Fault.out_of_fuel
select_loop (suc fuel) s x =
    let go_on = (do x' ← select_one (suc fuel) s x; select_loop fuel s x') in
    if ltb x.total_invalid s.pages_per_block && not (is_empty x.region) then go_on else ok x

abbrev pub start_selection : List ℕ → Selection
start_selection region = record {
  victim_ids = [];
  selected_victims = [];
  total_invalid = 0;
  region = region;
}

-- Both branches of `selectVictimBlocksGreedy`; the result holds the victims.
unfoldable pub select_from : ℕ → Bool → TwoR → Result (List ℕ × TwoR)
select_from fuel cold t = do
  x ← select_loop fuel t.ssd (start_selection (if cold then t.cold_blocks else t.normal_blocks))
  ensure (leb t.ssd.pages_per_block x.total_invalid)
  ok (
    x.victim_ids,
    record t {
      cold_blocks = if cold then x.region else t.cold_blocks;
      normal_blocks = if cold then t.normal_blocks else x.region;
    },
  )

unfoldable pub select_victim_blocks_greedy : ℕ → TwoR → Result (List ℕ × TwoR)
select_victim_blocks_greedy fuel t = do
  cold ← garbage_collect_cold_region t
  select_from fuel cold t

-- The loop that puts the victims into the cold region or on the list of free blocks. The check of its
-- second branch repeats the condition of the branch.
unfoldable pub settle : List ℕ → TwoR → Result TwoR
settle [] t = ok t
settle (victim_id ∷ rest) t = do
  block ← block_at victim_id t.ssd
  settle rest (record t {
    cold_blocks = if can_write block then t.cold_blocks else t.cold_blocks ++ (victim_id ∷ []);
    free_blocks = if can_write block then t.free_blocks ++ (victim_id ∷ []) else t.free_blocks;
  })

unfoldable pub garbage_collect_two_r_greedy : ℕ → TwoR → Result TwoR
garbage_collect_two_r_greedy fuel t = do
  selected ← select_victim_blocks_greedy fuel t
  freed ← compact_victims selected.0 selected.1.ssd
  settled ← settle selected.0 (record selected.1 { ssd = freed.0 })
  ensure (not (is_empty settled.free_blocks))
  ok settled
