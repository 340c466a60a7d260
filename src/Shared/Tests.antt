-- ===== src/Shared/Tests.antt =====
-- Small runs of the histograms of shared/Hist.hpp, and their theorems at concrete inputs.
use ssdiq.Prelude.{
  add64, ◌<◌, ◌^◌, ℕ, ◌+◌, ◌*◌, ◌/◌, ◌<◌, ◌≤◌, ◌≡◌, refl, [], ◌∷◌, arith, ok, err, Fault, pos,
  negsuc, get_or, if◌then◌else◌,
}
use ssdiq.Shared.Hist.{
  Hist, add_slot, increase_slot, sum_slots, get_percentile, merge, reset_data, zeros,
}
use ssdiq.Shared.Hist.Slots.{IsHist, same_shape, merge-cases}
use ssdiq.Shared.Hist.Percentile.{total_slots, prefix, get_percentile-least}

-- Exact fractions in place of floating point.
abbrev scaled : ℕ → ℕ → ℕ → ℕ
scaled x n size = x * size / n

-- Four slots for the values below 8, two each.
abbrev four : Hist
four = record {
  size = 4;
  from = 0;
  to = 8;
  min = 1;
  max = pos 7;
  cnt = 5;
  total = 16;
  hist_data = 2 ∷ 1 ∷ 0 ∷ 2 ∷ [];
}

four-IsHist : IsHist four
four-IsHist = record { sized = refl; range = omega arith }

-- A value below the range goes to the first slot, one above it to the last.
low :
    increase_slot scaled (negsuc 2) four
    ≡ ok (0, record four { hist_data = 3 ∷ 1 ∷ 0 ∷ 2 ∷ []; min = 0; cnt = 6 })
unfolding increase_slot
low = refl

high :
    increase_slot scaled (pos 100) four
    ≡ ok (3, record four { hist_data = 2 ∷ 1 ∷ 0 ∷ 3 ∷ []; cnt = 6; total = 23 })
unfolding increase_slot
high = refl

emptied : (reset_data 2147483647 (negsuc 2147483647) four).hist_data ≡ 0 ∷ 0 ∷ 0 ∷ 0 ∷ []
unfolding reset_data zeros
emptied = refl

abbrev half : ℕ → ℕ
half sum = sum / 2

share : half (total_slots four.hist_data) ≤ total_slots four.hist_data
unfolding total_slots
share = omega arith

few : total_slots four.hist_data < 2 ^ 31
unfolding total_slots
few = omega arith

get_percentile-least_example :
    (i : ℕ) × (get_percentile half scaled four ≡ 0 + scaled i 8 4)
    × (i ≤ 4)
    × (half (total_slots four.hist_data) ≤ prefix i four.hist_data)
    × ((j : ℕ) → j < i → prefix j four.hist_data < half (total_slots four.hist_data))
get_percentile-least_example = get_percentile-least half scaled four few share

-- The right one has a smaller minimum, which is lost.
abbrev other : Hist
other = record four { min = 0; total = 15 }

merge-cases_example :
    if same_shape four other
    then ((next : Hist) × (merge four other ≡ ok next)
        × ((i : ℕ)
            → get_or next.hist_data i 0
              ≡ add_slot (get_or four.hist_data i 0) (get_or other.hist_data i 0))
        × (sum_slots next.hist_data
            ≡ add_slot (sum_slots four.hist_data) (sum_slots other.hist_data))
        × (next.cnt ≡ add64 four.cnt other.cnt)
        × (next.total ≡ four.total + other.total)
        × (next.min ≡ four.min)
        × (next.max ≡ four.max)
        × IsHist next)
    else (merge four other ≡ err Fault.logic_error)
merge-cases_example =
    merge-cases four other four-IsHist (record { sized = refl; range = omega arith })
