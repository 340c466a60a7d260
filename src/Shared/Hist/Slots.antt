-- ===== src/Shared/Hist/Slots.antt =====
-- What the operations of shared/Hist.hpp that change a histogram do to its slots.
use ssdiq.Prelude.{
  ℕ, zero, suc, ◌+◌, add64, ◌-◌, ◌<◌, ◌≤◌, ◌≡◌, ◌≢◌, refl, ◌∙◌, ap, inl, inr, true, Bool, List, [],
  ◌∷◌, arith, ok, err, Result, Fault, ℤ, pos, negsuc, length, length-set, set, get_or,
  get_or-set_self, get_or-set_ne, fetch-in, length-replicate, ltb, Bool-cases, if◌then◌else◌, ◌==◌,
  ◌&&◌, sym,
}
use ssdiq.Shared.Hist.{
  Hist, add_slot, new_hist, clamp, above, increase_slot, sum_slots, add_slots, merge,
}

-- A slot for each index, and a range that is not empty.
pub record IsHist (h : Hist) : Type 0 where
  pub sized : length h.hist_data ≡ h.size
  pub range : h.from < h.to

pub new_hist-IsHist :
    (old_cnt old_total size from to : ℕ)
    → from < to
    → IsHist (new_hist old_cnt old_total size from to)
unfolding new_hist
new_hist-IsHist old_cnt old_total size from to h = record {
  sized = length-replicate size 0;
  range = h;
}

clamp-in :
    (from to : ℕ) (value : ℤ)
    → from < to
    → (from ≤ clamp from to value) × (clamp from to value < to)
clamp-in from to (pos n) h = ground arith
clamp-in from to (negsuc n) h = ground arith

sum_slots-set :
    (xs : List ℕ) (i v : ℕ)
    → i < length xs
    → sum_slots (set xs i (add_slot (get_or xs i 0) v)) ≡ add_slot (sum_slots xs) v
unfolding sum_slots
sum_slots-set [] i v h = absurd (omega (arith, h))
sum_slots-set (x ∷ xs) zero v h = omega arith
sum_slots-set (x ∷ xs) (suc i) v h = omega (arith, sum_slots-set xs i v (omega (arith, h)))

-- A value counted in one slot; the sum of the slots is the one that getPercentile takes.
pub record Records (value : ℤ) (h : Hist) (m : Result (ℕ × Hist)) : Type 0 where
  pub slot : ℕ
  pub next : Hist
  pub runs : m ≡ ok (slot, next)
  pub inside : slot < h.size
  pub counted : get_or next.hist_data slot 0 ≡ add_slot (get_or h.hist_data slot 0) 1
  pub others : (i : ℕ) → i ≢ slot → get_or next.hist_data i 0 ≡ get_or h.hist_data i 0
  pub sum : sum_slots next.hist_data ≡ add_slot (sum_slots h.hist_data) 1
  pub cnt : next.cnt ≡ add64 h.cnt 1
  pub total : next.total ≡ h.total + clamp h.from h.to value
  pub clamped : (h.from ≤ clamp h.from h.to value) × (clamp h.from h.to value < h.to)
  pub valid : IsHist next
  pub shape : (next.size ≡ h.size) × (next.from ≡ h.from) × (next.to ≡ h.to)

pub increase_slot-Records :
    (scaled : ℕ → ℕ → ℕ → ℕ) (value : ℤ) (h : Hist)
    → IsHist h
    → ((x : ℕ) → x < h.to - h.from → scaled x (h.to - h.from) h.size < h.size)
    → Records value h (increase_slot scaled value h)
unfolding increase_slot
increase_slot-Records scaled value h v law =
    let c = clamp-in h.from h.to value v.range in
    let x = clamp h.from h.to value in
    let slot = scaled (x - h.from) (h.to - h.from) h.size in
    let inside : slot < h.size = law (x - h.from) (omega (arith, c.0, c.1)) in
    let listed : slot < length h.hist_data = omega (arith, inside, v.sized) in
    let old = get_or h.hist_data slot 0 in
    let next : Hist = record h {
      hist_data = set h.hist_data slot (add_slot old 1);
      min = if ltb x h.min then x else h.min;
      max = if above x h.max then pos x else h.max;
      total = h.total + x;
      cnt = add64 h.cnt 1;
    } in
    record {
      slot = slot;
      next = next;
      runs = rw (fetch-in Fault.out_of_range h.hist_data slot 0 listed) refl;
      inside = inside;
      counted = get_or-set_self h.hist_data slot (add_slot old 1) 0 listed;
      others = λ i n. get_or-set_ne h.hist_data slot i (add_slot old 1) 0 (λ e. n (sym e));
      sum = sum_slots-set h.hist_data slot 1 listed;
      cnt = refl;
      total = refl;
      clamped = c;
      valid = record {
        sized = length-set h.hist_data slot (add_slot old 1) ∙ v.sized;
        range = v.range;
      };
      shape = (refl, refl, refl);
    }

add_slots-ok :
    (n : ℕ) (xs ys : List ℕ)
    → length xs ≡ n
    → length ys ≡ n
    → (zs : List ℕ) × (add_slots n xs ys ≡ ok zs)
      × (length zs ≡ n)
      × ((i : ℕ) → get_or zs i 0 ≡ add_slot (get_or xs i 0) (get_or ys i 0))
      × (sum_slots zs ≡ add_slot (sum_slots xs) (sum_slots ys))
unfolding add_slots sum_slots
add_slots-ok zero [] [] e f = ([], refl, refl, λ i. omega arith, omega arith)
add_slots-ok zero [] (y ∷ ys) e f = absurd (omega (arith, f))
add_slots-ok zero (x ∷ xs) ys e f = absurd (omega (arith, e))
add_slots-ok (suc n) [] ys e f = absurd (omega (arith, e))
add_slots-ok (suc n) (x ∷ xs) [] e f = absurd (omega (arith, f))
add_slots-ok (suc n) (x ∷ xs) (y ∷ ys) e f =
    let r = add_slots-ok n xs ys (omega (arith, e)) (omega (arith, f)) in
    (add_slot x y ∷ r.0, rw r.1 refl, ap suc r.2, at r.0 r.3, omega (arith, r.4))
  where
    at :
        (zs : List ℕ)
        → ((i : ℕ) → get_or zs i 0 ≡ add_slot (get_or xs i 0) (get_or ys i 0))
        → (i : ℕ)
        → get_or (add_slot x y ∷ zs) i 0 ≡ add_slot (get_or (x ∷ xs) i 0) (get_or (y ∷ ys) i 0)
    at zs h zero = refl
    at zs h (suc i) = h i

abbrev pub same_shape : Hist → Hist → Bool
same_shape h rhs = (h.size == rhs.size) && ((h.from == rhs.from) && (h.to == rhs.to))

-- Merging two histograms throws std::logic_error if they differ in the number of slots or in the
-- bounds. Otherwise it adds each 32-bit slot, the 64-bit counts and the totals, and keeps the minimum and the maximum
-- of the left one, whatever those of the right one are.
pub merge-cases :
    (h rhs : Hist)
    → IsHist h
    → IsHist rhs
    → (if same_shape h rhs
        then ((next : Hist) × (merge h rhs ≡ ok next)
            × ((i : ℕ)
                → get_or next.hist_data i 0
                  ≡ add_slot (get_or h.hist_data i 0) (get_or rhs.hist_data i 0))
            × (sum_slots next.hist_data
                ≡ add_slot (sum_slots h.hist_data) (sum_slots rhs.hist_data))
            × (next.cnt ≡ add64 h.cnt rhs.cnt)
            × (next.total ≡ h.total + rhs.total)
            × (next.min ≡ h.min)
            × (next.max ≡ h.max)
            × IsHist next)
        else (merge h rhs ≡ err Fault.logic_error))
unfolding merge
merge-cases h rhs v w = elim (Bool-cases (same_shape h rhs)) [
  | inl e ↦
      let r = add_slots-ok h.size h.hist_data rhs.hist_data v.sized (w.sized ∙ sym (same_size e)) in
      rw e (
        record h { hist_data = r.0; total = h.total + rhs.total; cnt = add64 h.cnt rhs.cnt },
        rw r.1 refl,
        r.3,
        r.4,
        refl,
        refl,
        refl,
        refl,
        record { sized = r.2; range = v.range },
      )
  | inr e ↦ rw e refl
]
  where
    same_size : same_shape h rhs ≡ true → h.size ≡ rhs.size
    same_size e = ground (arith, e)
