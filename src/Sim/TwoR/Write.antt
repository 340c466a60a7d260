-- ===== src/Sim/TwoR/Write.antt =====
-- The constructor and the writes of TwoR of sim/TwoR.hpp.
use ssdiq.Prelude.{
  ℕ, ◌+◌, Bool, false, not, List, [], ◌∷◌, ◌++◌, none, Result, ok, err, Fault, ◌>>=◌, ◌>>◌, ensure,
  if◌then◌else◌, minus_one, ltb, ◌^◌,
}
use ssdiq.Sim.Block.{can_write}
use ssdiq.Sim.Ssd.{Ssd, write_page}
use ssdiq.Sim.Collect.{block_at}
use ssdiq.Sim.Greedy.{count_up}
use ssdiq.Sim.TwoR.{TwoR, GcAlgorithm, Utilization, is_empty, garbage_collect_two_r_greedy}
use ssdiq.Sim.TwoR.Fifo.{garbage_collect_two_r_fifo}

-- `currentBlock = freeBlocks.front(); freeBlocks.pop_front();`
unfoldable pub take_front : List ℕ → TwoR → Result TwoR
take_front [] t = err Fault.undefined_access
take_front (b ∷ rest) t = ok (record t { current_block = b; free_blocks = rest })

-- `z` has 32 bits, so that the loop over the blocks does not end for 2^32 of them or more. On an empty
-- list `begin()` is `end()`.
unfoldable pub new_two_r : Ssd → GcAlgorithm → Result TwoR
new_two_r ssd gc_algorithm =
    let started = take_front (count_up ssd.block_count 0) (record {
      ssd = ssd;
      gc_algorithm = gc_algorithm;
      current_block = 0;
      free_blocks = [];
      normal_blocks = [];
      cold_blocks = [];
      blk_util = record { reset = false; raises = 0 };
      fifo_list = [];
      next_node = 0;
      cur_scan = none;
      cur_cold_blk_ptr = none;
      steps_since_reset = 0;
    }) in
    if ltb ssd.block_count (2 ^ 32) then started else err Fault.out_of_fuel

module _ (is_below : Utilization → ℕ → ℕ → Bool) (scan_depth : ℕ → ℕ) where
  unfoldable pub collect_with : GcAlgorithm → ℕ → TwoR → Result TwoR
  collect_with GcAlgorithm.two_r_fifo fuel t = garbage_collect_two_r_fifo is_below scan_depth fuel t
  collect_with GcAlgorithm.two_r_greedy fuel t = garbage_collect_two_r_greedy fuel t
  collect_with GcAlgorithm.other fuel t = err Fault.runtime_error

  unfoldable pub two_r_perform_gc : ℕ → TwoR → Result TwoR
  two_r_perform_gc fuel t =
      if is_empty t.free_blocks then collect_with t.gc_algorithm fuel t else ok t

  -- The current block joins the queue and the normal region.
  abbrev pub retire_current : TwoR → TwoR
  retire_current t = record t {
    fifo_list = t.fifo_list ++ (record { node = t.next_node; block = t.current_block } ∷ []);
    next_node = t.next_node + 1;
    normal_blocks = t.normal_blocks ++ (t.current_block ∷ []);
  }

  unfoldable pub change_block : ℕ → TwoR → Result TwoR
  change_block fuel t = do
    let retired = retire_current t
    ready ← if is_empty retired.free_blocks then two_r_perform_gc fuel retired else ok retired
    ensure (not (is_empty ready.free_blocks))
    changed ← take_front ready.free_blocks ready
    block ← block_at changed.current_block changed.ssd
    ensure (can_write block)
    ok changed

  unfoldable pub two_r_write_page : ℕ → ℕ → TwoR → Result TwoR
  two_r_write_page fuel page_id t = do
    block ← block_at t.current_block t.ssd
    ready ← if can_write block then ok t else change_block fuel t
    ssd ← write_page page_id ready.current_block minus_one ready.ssd
    ok (record ready { ssd = ssd })
