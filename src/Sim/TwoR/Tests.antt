-- ===== src/Sim/TwoR/Tests.antt =====
-- Small runs of the two-region collector of sim/TwoR.hpp, and its theorems at concrete inputs.
use ssdiq.Prelude.{
  some, none, ℕ, ◌≤◌, ◌≡◌, refl, ◌⊎◌, inl, inr, false, ◌==◌, ==→ne, In, [], ◌∷◌, arith, ok,
}
use ssdiq.Sim.Ssd.{Ssd}
use ssdiq.Sim.Collect.{compact_victims}
use ssdiq.Sim.Collect.Chain.{held}
use ssdiq.Sim.Collect.Reclaim.{Reclaims, compact_victims-Reclaims}
use ssdiq.Sim.Tests.{stuck_ssd, stuck_ssd-IsValid}
use ssdiq.Sim.TwoR.{
  TwoR, GcAlgorithm, Selection, select_loop, greedy_region, start_selection,
  garbage_collect_two_r_greedy,
}
use ssdiq.Sim.TwoR.Region.{spare, IsLeastOf, greedy_region-IsLeastOf}
use ssdiq.Sim.TwoR.Select.{Selects, start-Selects, select_loop-Selects}
use ssdiq.Sim.TwoR.Choose.{Regions}
use ssdiq.Sim.TwoR.Fifo.{settle_fifo}
use ssdiq.Sim.TwoR.Fifo.Nodes.{AtEnd, AreDistinct, has_node}
use ssdiq.Sim.TwoR.Fifo.Queue.{Settles, settle_fifo-Settles}
use ssdiq.Sim.TwoR.Collects.{Collects, garbage_collect_two_r_greedy-Collects}

apart : (a b : ℕ) → (a == b) ≡ false → ¬ In a (b ∷ [])
apart a b h k = elim k [ inl e ↦ ==→ne a b h e | inr n ↦ n ]

compact_victims-Reclaims_example :
    (s : Ssd) × (compact_victims (1 ∷ 0 ∷ []) stuck_ssd ≡ ok (s, 1))
    × Reclaims 1 (1 ∷ 0 ∷ []) stuck_ssd s
unfolding held
compact_victims-Reclaims_example =
    compact_victims-Reclaims 1 (0 ∷ []) stuck_ssd stuck_ssd-IsValid (omega arith)
      (apart 1 0 refl, ((λ h. h), tt)) (omega arith)

greedy_region-IsLeastOf_example :
    (m : ℕ) × (greedy_region stuck_ssd (0 ∷ 1 ∷ []) ≡ ok m) × IsLeastOf stuck_ssd (0 ∷ 1 ∷ []) m
greedy_region-IsLeastOf_example =
    greedy_region-IsLeastOf stuck_ssd 0 (1 ∷ []) stuck_ssd-IsValid (omega arith)

-- Both blocks are normal, and block 1 has no valid page.
abbrev two_regions : TwoR
two_regions = record {
  ssd = stuck_ssd;
  current_block = 1;
  free_blocks = [];
  normal_blocks = 0 ∷ 1 ∷ [];
  cold_blocks = [];
  gc_algorithm = GcAlgorithm.two_r_greedy;
  blk_util = record { reset = false; raises = 0 };
  fifo_list = [];
  next_node = 0;
  cur_scan = none;
  cur_cold_blk_ptr = none;
  steps_since_reset = 0;
}

two_regions-Regions : Regions two_regions
two_regions-Regions = record {
  ssd = stuck_ssd-IsValid;
  normal_inside = omega arith;
  normal_distinct = (apart 0 1 refl, ((λ h. h), tt));
  cold_inside = tt;
  cold_distinct = tt;
}

select_loop-Selects_example :
    (y : Selection) × (select_loop 3 stuck_ssd (start_selection (0 ∷ 1 ∷ [])) ≡ ok y)
    × Selects stuck_ssd (0 ∷ 1 ∷ []) y
    × ((stuck_ssd.pages_per_block ≤ y.total_invalid) ⊎ (y.region ≡ []))
unfolding spare
select_loop-Selects_example =
    select_loop-Selects stuck_ssd stuck_ssd-IsValid (0 ∷ 1 ∷ []) (omega arith) 3
      (start_selection (0 ∷ 1 ∷ []))
      (start-Selects stuck_ssd (0 ∷ 1 ∷ []) two_regions-Regions.normal_inside
        two_regions-Regions.normal_distinct)
      (omega arith)

garbage_collect_two_r_greedy-Collects_example :
    (t : TwoR) × (garbage_collect_two_r_greedy 3 two_regions ≡ ok t) × Collects two_regions t
unfolding spare
garbage_collect_two_r_greedy-Collects_example =
    garbage_collect_two_r_greedy-Collects 3 two_regions two_regions-Regions refl (inr (omega arith))
      (omega arith)

-- Both victims are queued; block 1 is full, and so is block 0.
abbrev queue_of_two : TwoR
queue_of_two = record two_regions {
  fifo_list = record { node = 0; block = 0 } ∷ record { node = 1; block = 1 } ∷ [];
  next_node = 2;
  cur_scan = some 1;
}

queue_of_two-AtEnd : AtEnd queue_of_two
unfolding AreDistinct has_node
queue_of_two-AtEnd = record {
  numbered = omega arith;
  distinct = (refl, (refl, tt));
  scan = refl;
  cold_end = refl;
}

settle_fifo-Settles_example :
    (t : TwoR) × (settle_fifo (1 ∷ 0 ∷ []) queue_of_two ≡ ok t)
    × Settles (1 ∷ 0 ∷ []) queue_of_two t
settle_fifo-Settles_example =
    settle_fifo-Settles (1 ∷ 0 ∷ []) queue_of_two stuck_ssd-IsValid (omega arith) queue_of_two-AtEnd
