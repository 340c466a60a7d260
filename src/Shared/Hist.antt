-- ===== src/Shared/Hist.antt =====
-- The histograms of shared/Hist.hpp: class Hist. All of its instances have bounds from 0 on, so that
-- `from` and `to` are natural numbers; a value can be negative.
pub mod Slots
pub mod Percentile
use ssdiq.Prelude.{
  ℕ, zero, suc, ◌+◌, ◌-◌, ◌%◌, ◌^◌, add64, ◌==◌, ◌&&◌, Bool, true, false, not, List, [], ◌∷◌,
  Result, ok, err, Fault, ◌>>=◌, ◌>>◌, fetch, if◌then◌else◌, ltb, ℤ, pos, negsuc, length, set,
  replicate,
}

-- The slots of all instances are of type `int`, and `cnt` is an `int64_t`: they are given by their 32 and
-- 64 bits. `max` is below all values after `resetData`, so that it is an integer. The sum `total` is a double,
-- which is exact for whole numbers below 2^53.
pub record Hist : Type 0 where
  pub size : ℕ
  pub from : ℕ
  pub to : ℕ
  pub min : ℕ
  pub max : ℤ
  pub cnt : ℕ
  pub total : ℕ
  pub hist_data : List ℕ

-- The sum of two slots.
abbrev pub add_slot : ℕ → ℕ → ℕ
add_slot a b = (a + b) % 2 ^ 32

-- An `int` as a `long`, and the test `a < b` of two of these, all given by their bits.
abbrev pub to_long : ℕ → ℕ
to_long x = if ltb x (2 ^ 31) then x else x + (2 ^ 64 - 2 ^ 32)

abbrev pub less_long : ℕ → ℕ → Bool
less_long a b = ltb ((a + 2 ^ 63) % 2 ^ 64) ((b + 2 ^ 63) % 2 ^ 64)

-- The constructor leaves `cnt` and `total` as they are in the memory that it is given.
unfoldable pub new_hist : ℕ → ℕ → ℕ → ℕ → ℕ → Hist
new_hist old_cnt old_total size from to = record {
  size = size;
  from = from;
  to = to;
  min = to;
  max = pos from;
  cnt = old_cnt;
  total = old_total;
  hist_data = replicate size 0;
}

-- `std::max(value, from)`, then `std::min(value, to - 1)`; `to` is positive.
abbrev pub not_below : ℕ → ℤ → ℕ
not_below from (pos n) = if ltb n from then from else n
not_below from (negsuc n) = from

abbrev pub clamp : ℕ → ℕ → ℤ → ℕ
clamp from to value =
    let raised = not_below from value in if ltb (to - 1) raised then to - 1 else raised

abbrev pub above : ℕ → ℤ → Bool
above value (pos n) = ltb n value
above value (negsuc n) = true

-- `scaled x n size` is `x / (double)n * size` as an integer.
unfoldable pub increase_slot : (ℕ → ℕ → ℕ → ℕ) → ℤ → Hist → Result (ℕ × Hist)
increase_slot scaled value h = do
  let v = clamp h.from h.to value
  let normalized = scaled (v - h.from) (h.to - h.from) h.size
  old ← fetch Fault.out_of_range h.hist_data normalized
  ok (
    normalized,
    record h {
      hist_data = set h.hist_data normalized (add_slot old 1);
      min = if ltb v h.min then v else h.min;
      max = if above v h.max then pos v else h.max;
      total = h.total + v;
      cnt = add64 h.cnt 1;
    },
  )

-- `std::accumulate` with an initial value of type `int`.
unfoldable pub sum_slots : List ℕ → ℕ
sum_slots [] = 0
sum_slots (x ∷ xs) = add_slot x (sum_slots xs)

-- `for (; sumUntilPercentile < percentile && i < histData.size(); i++)`, over the slots from `i` on.
unfoldable pub percentile_loop : ℕ → ℕ → ℕ → List ℕ → ℕ
percentile_loop percentile sum i [] = i
percentile_loop percentile sum i (x ∷ xs) =
    let rest = percentile_loop percentile (add64 sum (to_long x)) (i + 1) xs in
    if less_long sum percentile then rest else i

-- `part sum` is `sum * (iThPercentile / 100.0)` as a `long`, `back i n size` is `i / (float)size * n`, as integers.
unfoldable pub get_percentile : (ℕ → ℕ) → (ℕ → ℕ → ℕ → ℕ) → Hist → ℕ
get_percentile part back h =
    h.from
    + back (percentile_loop (part (to_long (sum_slots h.hist_data))) 0 0 h.hist_data)
        (h.to - h.from) h.size

-- `quotient` is the division of doubles.
unfoldable pub get_average : (ℕ → ℕ → ℕ) → Hist → ℕ
get_average quotient h = if h.cnt == 0 then 0 else quotient h.total h.cnt

-- `for (int i = 0; i < size; i++) histData[i] += rhs.histData[i]`; an index outside has no meaning.
unfoldable pub add_slots : ℕ → List ℕ → List ℕ → Result (List ℕ)
add_slots zero xs ys = ok xs
add_slots (suc n) [] ys = err Fault.undefined_access
add_slots (suc n) (x ∷ xs) [] = err Fault.undefined_access
add_slots (suc n) (x ∷ xs) (y ∷ ys) = do rest ← add_slots n xs ys; ok (add_slot x y ∷ rest)

-- `operator+=`.
unfoldable pub merge : Hist → Hist → Result Hist
merge h rhs =
    let go_on = (do
      added ← add_slots h.size h.hist_data rhs.hist_data
      ok (record h {
        hist_data = added;
        total = h.total + rhs.total;
        cnt = add64 h.cnt rhs.cnt;
      })) in
    if (h.size == rhs.size) && ((h.from == rhs.from) && (h.to == rhs.to))
    then go_on
    else err Fault.logic_error

unfoldable pub zeros : List ℕ → List ℕ
zeros [] = []
zeros (x ∷ xs) = 0 ∷ zeros xs

-- `highest` and `lowest` are the limits of the type of the values.
unfoldable pub reset_data : ℕ → ℤ → Hist → Hist
reset_data highest lowest h = record h {
  hist_data = zeros h.hist_data;
  min = highest;
  max = lowest;
  cnt = 0;
  total = 0;
}
