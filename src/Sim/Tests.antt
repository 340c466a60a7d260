-- ===== src/Sim/Tests.antt =====
-- Small runs of the simulator of sim/, and its theorems at concrete inputs.
use ssdiq.Prelude.{
  ℕ, zero, suc, ◌+◌, ◌-◌, ◌*◌, ◌/◌, ◌%◌, ◌≤◌, ◌<◌, ◌≡◌, ◌≢◌, refl, ◌⊎◌, true, false, not, List, [],
  ◌∷◌, arith, get_or, ok, err, Fault, ◌>>=◌, minus_one, add64,
}
use ssdiq.Sim.Block.{
  Block, unused, new_block, compact_loop, compact_no_mapping_update, fill_unused, all_invalid,
}
use ssdiq.Sim.Block.Valid as BlockValid
use ssdiq.Sim.Block.Valid.{written, cleared, count_used, write-cases, set_unused-cases}
use ssdiq.Sim.Block.Compact.{compacted, compact_no_mapping_update-eq}
use ssdiq.Sim.Ssd.{
  new_ssd, Ssd, is_address, fresh_ssd, new_blocks, write_page_without_caching, compact_block,
}
use ssdiq.Sim.Ssd.Pages.{nth_block, page_at}
use ssdiq.Sim.Ssd.Consistent.{mapped}
use ssdiq.Sim.Ssd.Valid as SsdValid
use ssdiq.Sim.Ssd.Fresh.{Fits, fresh_ssd-IsValid, fresh_ssd-empty}
use ssdiq.Sim.Ssd.Write.{valid_of, Writes, head_of, write_page_without_caching-Writes}
use ssdiq.Sim.Ssd.Compact.{Compacts, compact_block-Compacts}
use ssdiq.Sim.Collect.{move_valid_pages_to}
use ssdiq.Sim.Collect.Loop.{Moved}
use ssdiq.Sim.Collect.Move.{move_valid_pages_to-Moved}
use ssdiq.Sim.Greedy.{Greedy, new_greedy, write_pages, single_greedy, gc_write_page}
use ssdiq.Sim.Greedy.Select.{IsFull, IsLeast, valid_of-small, single_greedy-cases}
use ssdiq.Sim.Greedy.Valid as GreedyValid
use ssdiq.Sim.Greedy.Valid.{IsGreedy}
use ssdiq.Sim.Greedy.Victim.{AllFull, victim-room}
use ssdiq.Sim.Greedy.Sampled.{sampled-stuck}
use ssdiq.Sim.Greedy.Total.{Stores}
use ssdiq.Sim.Greedy.Run.{gc_write_page-Stores}
use ssdiq.Sim.Greedy.Fresh.{Simulates, simulate, new_greedy-IsGreedy}

-- A block of four positions: page 7, a page given up, page 9, and a free position.
abbrev worn : Block
worn = record (new_block 4 0) {
  ptl = 7 ∷ unused ∷ 9 ∷ unused ∷ [];
  write_pos = 3;
  valid_cnt = 2;
  pages_per_block = 4;
}

worn-IsValid : BlockValid.IsValid worn
unfolding count_used
worn-IsValid = record {
  sized = refl;
  word = omega arith;
  within = omega arith;
  counted = refl;
  clean = free;
}
  where
    free : (i : ℕ) → 3 ≤ i → get_or worn.ptl i unused ≡ unused
    free zero h = absurd (omega arith)
    free (suc zero) h = refl
    free (suc (suc zero)) h = absurd (omega arith)
    free (suc (suc (suc zero))) h = refl
    free (suc (suc (suc (suc i)))) h = refl

worn-compacts : (compact_no_mapping_update 5 worn).0.ptl ≡ 7 ∷ 9 ∷ unused ∷ unused ∷ []
unfolding compact_no_mapping_update compact_loop fill_unused
worn-compacts = refl

compact_no_mapping_update-eq_example :
    compact_no_mapping_update 5 worn ≡ (compacted 5 worn, add64 5 1)
compact_no_mapping_update-eq_example = compact_no_mapping_update-eq 5 worn worn-IsValid

-- Three blocks of four pages, of which eight pages are addressed.
abbrev pub spare_fill : ℕ → ℕ
spare_fill n = n - 4

abbrev device : Ssd
device = fresh_ssd spare_fill 12 4 1

device-Fits : Fits spare_fill 12 4 1
device-Fits = omega arith

device-IsValid : SsdValid.IsValid device
device-IsValid = (fresh_ssd-IsValid spare_fill 12 4 1 device-Fits).0

write_page_without_caching-Writes_example :
    (s : Ssd) × (write_page_without_caching 5 0 minus_one device ≡ ok s) × Writes 5 0 device s
unfolding fresh_ssd new_blocks new_block
write_page_without_caching-Writes_example =
    write_page_without_caching-Writes 5 0 minus_one device device-IsValid (omega arith)
      (omega arith) (omega arith)

compact_block-Compacts_example : (s : Ssd) × (compact_block 1 device ≡ ok s) × Compacts 1 device s
unfolding fresh_ssd
compact_block-Compacts_example = compact_block-Compacts 1 device device-IsValid (omega arith)

move_valid_pages_to-Moved_example :
    (s : Ssd) × (move_valid_pages_to 0 1 device ≡ ok (s, not (all_invalid (nth_block s.blocks 0))))
    × Moved 0 1 device s
    × (all_invalid (nth_block s.blocks 0) ≡ false → head_of s 1 ≡ s.pages_per_block)
unfolding fresh_ssd
move_valid_pages_to-Moved_example =
    move_valid_pages_to-Moved 0 1 device (omega arith) device-IsValid (omega arith) (omega arith)

single_greedy-cases_example :
    ((m : ℕ) × (single_greedy device ≡ ok m) × IsLeast device device.block_count m)
    ⊎ ((single_greedy device ≡ err Fault.ensure_failed)
        × ((j : ℕ) → j < device.block_count → ¬ IsFull device j))
single_greedy-cases_example =
    single_greedy-cases device device-IsValid.all_blocks (valid_of-small device device-IsValid)

abbrev pub full_block : ℕ → List ℕ → ℕ → Block
full_block id ptl valid = record (new_block 1 id) {
  ptl = ptl;
  write_pos = 1;
  valid_cnt = valid;
  pages_per_block = 1;
  block_id = id;
}

-- Two blocks of one page: block 0 holds page 0, block 1 is written and holds nothing.
abbrev pub stuck_ssd : Ssd
stuck_ssd = record (fresh_ssd spare_fill 2 1 1) {
  block_count = 2;
  pages_per_block = 1;
  logical_pages = 1;
  write_buffer_size = 0;
  blocks = full_block 0 (0 ∷ []) 1 ∷ full_block 1 (unused ∷ []) 0 ∷ [];
  ltp_mapping = 0 ∷ [];
  phys_writes = 2;
}

full_block-IsPlaced :
    (id x v : ℕ) → v ≡ count_used (x ∷ []) → SsdValid.IsPlaced 1 id (full_block id (x ∷ []) v)
full_block-IsPlaced id x v e = record {
  valid = record {
    sized = refl;
    word = omega arith;
    within = omega arith;
    counted = e;
    clean = free;
  };
  same_size = refl;
  own_id = refl;
}
  where
    free : (i : ℕ) → 1 ≤ i → get_or (x ∷ []) i unused ≡ unused
    free zero h = absurd (omega arith)
    free (suc i) h = refl

pub stuck_ssd-IsValid : SsdValid.IsValid stuck_ssd
unfolding count_used
stuck_ssd-IsValid = record {
  paged = omega arith;
  all_blocks = refl;
  address_space = omega arith;
  all_logical = refl;
  logical_space = omega arith;
  each = placed;
  consistent = record { forward = forward; backward = backward };
  live = unfold SsdValid.sum_valid SsdValid.count_mapped in refl;
  word = omega arith;
}
  where
    placed : SsdValid.Each 1 stuck_ssd.blocks
    placed zero h = full_block-IsPlaced 0 0 1 refl
    placed (suc zero) h = full_block-IsPlaced 1 unused 0 refl
    placed (suc (suc b)) h = absurd (omega arith)

    forward :
        (l : ℕ)
        → is_address (mapped stuck_ssd.ltp_mapping l) ≡ true
        → page_at stuck_ssd.blocks
            (mapped stuck_ssd.ltp_mapping l / 1)
            (mapped stuck_ssd.ltp_mapping l % 1)
          ≡ l
    forward zero h = refl
    forward (suc l) h = cc

    backward :
        (b p : ℕ)
        → page_at stuck_ssd.blocks b p ≢ unused
        → mapped stuck_ssd.ltp_mapping (page_at stuck_ssd.blocks b p) ≡ b * 1 + p
    backward zero zero u = refl
    backward zero (suc p) u = absurd (u refl)
    backward (suc zero) zero u = absurd (u refl)
    backward (suc zero) (suc p) u = absurd (u refl)
    backward (suc (suc b)) p u = absurd (u refl)

stuck_full : AllFull stuck_ssd
stuck_full zero h = refl
stuck_full (suc zero) h = refl
stuck_full (suc (suc b)) h = absurd (omega arith)

-- Fourteen writes to eight pages: the third block is used up, and two collections take place.
abbrev workload : List ℕ
workload = 0 ∷ 1 ∷ 2 ∷ 3 ∷ 4 ∷ 5 ∷ 6 ∷ 7 ∷ 0 ∷ 1 ∷ 2 ∷ 4 ∷ 5 ∷ 0 ∷ []

simulate_example :
    (g : Greedy) × ((new_ssd spare_fill 12 4 1 >>= λ ssd.
    new_greedy ssd 0 false (λ i. i) >>= write_pages 0 workload)
      ≡ ok g)
    × Simulates workload g
simulate_example =
    simulate spare_fill 12 4 1 0 (λ i. i) workload device-Fits (omega arith) (omega arith)

-- The collector at its start, for the page 5.
starts : (g : Greedy) × (new_greedy device 0 false (λ i. i) ≡ ok g) × (g.ssd ≡ device) × IsGreedy g
unfolding fresh_ssd
starts =
    new_greedy-IsGreedy device device-IsValid refl (fresh_ssd-empty spare_fill 12 4 1) (omega arith)
      (λ i. i)

gc_write_page-Stores_example :
    (g : Greedy) × (gc_write_page 0 5 starts.0 ≡ ok g) × Stores 5 starts.0 g
unfolding fresh_ssd
gc_write_page-Stores_example =
    gc_write_page-Stores 0 5 starts.0 starts.3 (rw starts.2 (omega arith))

victim-room_example :
    (m : ℕ) × (single_greedy stuck_ssd ≡ ok m)
    × (m < stuck_ssd.block_count)
    × (valid_of stuck_ssd m < stuck_ssd.pages_per_block)
victim-room_example = victim-room stuck_ssd stuck_ssd-IsValid stuck_full (omega arith)

-- The k-greedy collector samples the block that is full of valid pages.
abbrev stuck : Greedy
stuck = record {
  ssd = stuck_ssd;
  current_block = 1;
  current_gc_block = minus_one;
  k = 1;
  simple_two_r = false;
  rnd = λ i. 0;
  free_blocks = [];
}

stuck-IsValid : GreedyValid.IsValid stuck
stuck-IsValid = record {
  ssd = stuck_ssd-IsValid;
  unbuffered = refl;
  current = omega arith;
  free_inside = tt;
  free_room = tt;
  distinct = ((λ h. h), tt);
  rest_full = λ b h out. stuck_full b h;
}

sampled-stuck_example : gc_write_page 0 0 stuck ≡ err Fault.ensure_failed
sampled-stuck_example =
    sampled-stuck 0 0 0 stuck stuck-IsValid refl refl refl refl (λ i h. (omega arith, refl))
