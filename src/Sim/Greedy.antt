-- ===== src/Sim/Greedy.antt =====
-- The greedy collectors: class GreedyGC of sim/Greedy.hpp, with the SSD that it refers to, and the
-- writes of runBench in sim/sim.cpp.
pub mod Select
pub mod Valid
pub mod Victim
pub mod Total
pub mod Run
pub mod Sampled
pub mod Fresh
use ssdiq.Prelude.{
  ℕ, zero, suc, ◌+◌, ◌-◌, ◌^◌, Bool, true, false, ◌&&◌, List, [], ◌∷◌, ◌++◌, Option, none, some,
  Result, ok, err, Fault, ◌>>=◌, ◌>>◌, ensure, assert, fetch, ltb, ◌==◌, if◌then◌else◌, ℤ, pos,
  minus_one, to_int64, to_uint64,
}
use ssdiq.Sim.Block.{Block, fully_written, can_write, is_erased}
use ssdiq.Sim.Ssd.{Ssd, write_page, compact_block, reset_physical_counters}
use ssdiq.Sim.Collect.{block_at, compact_until_free_block}

-- `rnd` holds the block numbers that `rndBlockDist(gen)` is still to draw.
pub record Greedy : Type 0 where
  pub ssd : Ssd
  pub current_block : ℕ
  pub current_gc_block : ℤ
  pub k : ℕ
  pub simple_two_r : Bool
  pub rnd : ℕ → ℕ
  pub free_blocks : List ℕ

-- `for (z = 0; z < blockCount; z++) freeBlocks.push_back(z)`, from `z` on.
unfoldable pub count_up : ℕ → ℕ → List ℕ
count_up zero z = []
count_up (suc rounds) z = z ∷ count_up rounds (z + 1)

-- `currentBlock = freeBlocks.front(); freeBlocks.pop_front();`
unfoldable pub pop_front : List ℕ → Greedy → Result Greedy
pop_front [] g = err Fault.undefined_access
pop_front (b ∷ rest) g = ok (record g { current_block = b; free_blocks = rest })

-- The constructor.
unfoldable pub new_greedy : Ssd → ℕ → Bool → (ℕ → ℕ) → Result Greedy
new_greedy ssd k two_r rnd = pop_front (count_up ssd.block_count 0) (record {
  ssd = ssd;
  current_block = 0;
  current_gc_block = minus_one;
  k = k;
  simple_two_r = two_r;
  rnd = rnd;
  free_blocks = [];
})

-- The loop of `singleGreedy` from index `i` on; the index -1 of "no block yet" is `none`.
unfoldable pub greedy_scan : ℕ → ℕ → Option ℕ → ℕ → Ssd → Result (Option ℕ)
greedy_scan zero i min_idx min_cnt s = ok min_idx
greedy_scan (suc rounds) i min_idx min_cnt s = do
  block ← block_at i s
  let better = ltb block.valid_cnt min_cnt && fully_written block
  greedy_scan rounds (i + 1) (if better then some i else min_idx)
      (if better then block.valid_cnt else min_cnt) s

-- `ensure(minIdx != -1)`.
abbrev pub found : Option ℕ → Result ℕ
found none = err Fault.ensure_failed
found (some i) = ok i

unfoldable pub single_greedy : Ssd → Result ℕ
single_greedy s = do min_idx ← greedy_scan s.block_count 0 none (2 ^ 64 - 1) s; found min_idx

-- The loop of `singleGreedyLimited`, which goes round at the last block.
unfoldable pub limited_scan : ℕ → ℕ → Option ℕ → ℕ → Ssd → Result (Option ℕ)
limited_scan zero idx min_idx min_cnt s = ok min_idx
limited_scan (suc rounds) idx min_idx min_cnt s = do
  block ← block_at idx s
  let better = fully_written block && ltb block.valid_cnt min_cnt
  limited_scan rounds (if idx + 1 == s.block_count then 0 else idx + 1)
      (if better then some idx else min_idx) (if better then block.valid_cnt else min_cnt) s

unfoldable pub single_greedy_limited : ℕ → Ssd → Result ℕ
single_greedy_limited start_idx s = do
  min_idx ← limited_scan 10000 start_idx none (2 ^ 64 - 1) s
  found min_idx

-- The `do … while (i < k)` loop of `performGC`, over the rounds that are left: `k` at first, which is
-- not 0 here.
unfoldable pub k_greedy_scan : ℕ → (ℕ → ℕ) → Option ℕ → ℕ → Ssd → Result (Option ℕ)
k_greedy_scan zero rnd min_idx min_cnt s = ok min_idx
k_greedy_scan (suc rounds) rnd min_idx min_cnt s = do
  block ← fetch Fault.out_of_range s.blocks (rnd 0)
  let better = ltb block.valid_cnt min_cnt
  k_greedy_scan rounds (λ i. rnd (i + 1)) (if better then some (rnd 0) else min_idx)
      (if better then block.valid_cnt else min_cnt) s

-- The victim of `performGC` without `simpleTwoR`.
unfoldable pub choose_victim : Greedy → Result ℕ
choose_victim g =
    if g.k == 0
    then single_greedy g.ssd
    else (k_greedy_scan g.k g.rnd none (2 ^ 64 - 1) g.ssd >>= found)

unfoldable pub collect_victim : Greedy → Result Greedy
collect_victim g = do
  victim ← choose_victim g
  ssd ← compact_block victim g.ssd
  ok (record g {
    ssd = ssd;
    free_blocks = g.free_blocks ++ (victim ∷ []);
    rnd = λ i. g.rnd (i + g.k);
  })

unfoldable pub collect_two_r : ℕ → Greedy → Result Greedy
collect_two_r fuel g = do
  freed ← compact_until_free_block single_greedy fuel (to_uint64 g.current_gc_block) g.ssd
  block ← block_at freed.1 freed.0
  assert (is_erased block)
  ok (record g {
    ssd = freed.0;
    current_gc_block = to_int64 freed.2;
    free_blocks = g.free_blocks ++ (freed.1 ∷ []);
  })

unfoldable pub perform_gc : ℕ → Greedy → Result Greedy
perform_gc fuel g = if g.simple_two_r then collect_two_r fuel g else collect_victim g

-- `if (freeBlocks.empty()) performGC();`
unfoldable pub refill : List ℕ → ℕ → Greedy → Result Greedy
refill [] fuel g = perform_gc fuel g
refill (b ∷ rest) fuel g = ok g

-- `writePage` when the current block is full.
unfoldable pub next_block : ℕ → Greedy → Result Greedy
next_block fuel g = do
  refilled ← refill g.free_blocks fuel g
  popped ← pop_front refilled.free_blocks refilled
  block ← block_at popped.current_block popped.ssd
  ensure (can_write block)
  ok popped

unfoldable pub gc_write_page : ℕ → ℕ → Greedy → Result Greedy
gc_write_page fuel page_id g = do
  block ← block_at g.current_block g.ssd
  ready ← if can_write block then ok g else next_block fuel g
  ssd ← write_page page_id ready.current_block minus_one ready.ssd
  ok (record ready { ssd = ssd })

-- A loop of `gc.writePage(…)` of `runBench`.
unfoldable pub write_pages : ℕ → List ℕ → Greedy → Result Greedy
write_pages fuel [] g = ok g
write_pages fuel (page_id ∷ rest) g = do g' ← gc_write_page fuel page_id g; write_pages fuel rest g'
