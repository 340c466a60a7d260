-- ===== src/Sim/TwoR/Fifo.antt =====
-- The FIFO policy of TwoR of sim/TwoR.hpp, with its queue and the iterators into it.
pub mod Nodes
pub mod Queue
use ssdiq.Prelude.{
  ℕ, zero, suc, ◌+◌, Bool, true, false, not, ◌&&◌, List, [], ◌∷◌, ◌++◌, Option, none, some, Result,
  ok, err, Fault, ◌>>=◌, ◌>>◌, ensure, ltb, leb, ◌==◌, if◌then◌else◌, add64, sub64, length,
}
use ssdiq.Sim.Block.{Block, can_write}
use ssdiq.Sim.Ssd.{Ssd, contains}
use ssdiq.Sim.Collect.{block_at, compact_victims}
use ssdiq.Sim.TwoR.{TwoR, Utilization, Node, Iterator, is_empty}

abbrev pub begin : List Node → Iterator
begin [] = none
begin (n ∷ ns) = some n.node

-- The iterator after node `i`. An iterator at no node of the list has lost its meaning.
unfoldable pub advance : ℕ → List Node → Result Iterator
advance i [] = err Fault.undefined_access
advance i (n ∷ ns) = let rest = advance i ns in if n.node == i then ok (begin ns) else rest

-- `*i`.
unfoldable pub deref : ℕ → List Node → Result ℕ
deref i [] = err Fault.undefined_access
deref i (n ∷ ns) = let rest = deref i ns in if n.node == i then ok n.block else rest

abbrev pub is_at : Iterator → ℕ → Bool
is_at none i = false
is_at (some j) i = j == i

-- `fifoList.insert(it, …)` puts a node before `it`.
unfoldable pub insert_before : Iterator → Node → List Node → List Node
insert_before it x [] = x ∷ []
insert_before it x (n ∷ ns) =
    let rest = insert_before it x ns in if is_at it n.node then x ∷ n ∷ ns else n ∷ rest

unfoldable pub erase_node : ℕ → List Node → List Node
erase_node i [] = []
erase_node i (n ∷ ns) = let rest = erase_node i ns in if n.node == i then ns else n ∷ rest

-- `std::find` of a block.
unfoldable pub find_block : ℕ → List Node → Iterator
find_block b [] = none
find_block b (n ∷ ns) = let rest = find_block b ns in if n.block == b then some n.node else rest

-- The loop of `selectVictimBlocksFIFO` works on the collector, the victims and their invalid pages.
pub record FifoSelection : Type 0 where
  pub collector : TwoR
  pub victim_ids : List ℕ
  pub total_invalid : ℕ

-- The victim of a round is taken if it is not taken yet and its utilization is low.
unfoldable pub take_victim : Bool → ℕ → ℕ → FifoSelection → FifoSelection
take_victim low victim_id valid_cnt x =
    if not (contains victim_id x.victim_ids) && low
    then record x {
      victim_ids = x.victim_ids ++ (victim_id ∷ []);
      total_invalid = add64 x.total_invalid (sub64 x.collector.ssd.pages_per_block valid_cnt);
    }
    else x

-- `++curScan; ++stepsSinceReset;` and the second chance.
unfoldable pub step_scan : ℕ → Iterator → TwoR → TwoR
step_scan threshold after t =
    let steps = t.steps_since_reset + 1 in
    let wraps = leb threshold steps in
    record t {
      cur_scan = if wraps then begin t.fifo_list else after;
      steps_since_reset = if wraps then 0 else steps;
      blk_util = if wraps then record t.blk_util { raises = t.blk_util.raises + 1 } else t.blk_util;
    }

-- A victim that is full again is queued at `curColdBlkPtr`.
unfoldable pub queue_cold : ℕ → TwoR → Result TwoR
queue_cold victim_id t = do
  let new : Node = record { node = t.next_node; block = victim_id }
  place ← elim t.cur_cold_blk_ptr [ none ↦ ok none | some i ↦ advance i t.fifo_list ]
  let queued = insert_before place new t.fifo_list
  after ← advance t.next_node queued
  ok (record t {
    cold_blocks = t.cold_blocks ++ (victim_id ∷ []);
    fifo_list = queued;
    next_node = t.next_node + 1;
    cur_cold_blk_ptr = after;
  })

abbrev pub free_victim : ℕ → TwoR → TwoR
free_victim victim_id t = record t { free_blocks = t.free_blocks ++ (victim_id ∷ []) }

-- The victim leaves the queue at the first node that holds it.
unfoldable pub leave_queue : Iterator → TwoR → Result TwoR
leave_queue none t = ok t
leave_queue (some it) t = do
  after ← advance it t.fifo_list
  ok (record t {
    cur_scan = if is_at t.cur_scan it then after else t.cur_scan;
    fifo_list = erase_node it t.fifo_list;
  })

unfoldable pub settle_fifo : List ℕ → TwoR → Result TwoR
settle_fifo [] t = ok t
settle_fifo (victim_id ∷ rest) t = do
  block ← block_at victim_id t.ssd
  placed ← if can_write block then ok (free_victim victim_id t) else queue_cold victim_id t
  left ← leave_queue (find_block victim_id placed.fifo_list) placed
  settle_fifo rest left

-- `is_below` compares the share of valid pages with BLK_UTIL in floating point, and `scan_depth` is the
-- 0.7 of a length, rounded down.
module _ (is_below : Utilization → ℕ → ℕ → Bool) (scan_depth : ℕ → ℕ) where
  unfoldable pub scan_round : ℕ → ℕ → FifoSelection → Result FifoSelection
  scan_round threshold at x = do
    victim_id ← deref at x.collector.fifo_list
    block ← block_at victim_id x.collector.ssd
    after ← advance at x.collector.fifo_list
    let low = is_below x.collector.blk_util block.valid_cnt x.collector.ssd.pages_per_block
    let x' = take_victim low victim_id block.valid_cnt x
    ok (record x' { collector = step_scan threshold after x'.collector })

  -- `while (totalInvalidPages < ssd.pagesPerBlock && curScan != fifoList.end())`, on fuel: if too few
  -- pages are invalid the second chance starts the scan again for ever.
  unfoldable pub scan_loop : ℕ → ℕ → Iterator → FifoSelection → Result FifoSelection
  scan_loop zero threshold it x = err Fault.out_of_fuel
  scan_loop (suc fuel) threshold none x = ok x
  scan_loop (suc fuel) threshold (some at) x =
      let go_on = (do
        x' ← scan_round threshold at x
        scan_loop fuel threshold x'.collector.cur_scan x') in
      if ltb x.total_invalid x.collector.ssd.pages_per_block then go_on else ok x

  abbrev pub restart_scan : TwoR → TwoR
  restart_scan t = elim t.cur_scan [
    | none ↦ record t { cur_scan = begin t.fifo_list; steps_since_reset = 0 }
    | some at ↦ t
  ]

  unfoldable pub select_victim_blocks_fifo : ℕ → TwoR → Result (List ℕ × TwoR)
  select_victim_blocks_fifo fuel t = do
    let begun = restart_scan t
    x ←
        scan_loop fuel (scan_depth (length begun.fifo_list)) begun.cur_scan
          (record { collector = begun; victim_ids = []; total_invalid = 0 })
    ok (x.victim_ids, record x.collector { blk_util = record { reset = true; raises = 0 } })

  unfoldable pub garbage_collect_two_r_fifo : ℕ → TwoR → Result TwoR
  garbage_collect_two_r_fifo fuel t = do
    selected ← select_victim_blocks_fifo fuel t
    freed ← compact_victims selected.0 selected.1.ssd
    settled ← settle_fifo selected.0 (record selected.1 { ssd = freed.0 })
    ensure (not (is_empty settled.free_blocks))
    ok settled
