-- ===== src/Shared/Hist/Percentile.antt =====
-- getPercentile of shared/Hist.hpp stops at the first slot that reaches the percentile.
use ssdiq.Prelude.{
  ℕ, zero, suc, ◌+◌, ◌%◌, ◌^◌, add64, lt→ltb, ge→ltb, ◌-◌, ◌<◌, ◌≤◌, ◌≡◌, refl, ◌∙◌, inl, inr, List,
  [], ◌∷◌, arith, length, take, ltb, ltb→lt, ltb→ge, Bool-cases,
}
use ssdiq.Shared.Hist.{Hist, sum_slots, to_long, less_long, percentile_loop, get_percentile}

-- The sum of the slots without wrap-around, and that of the first `k` slots.
unfoldable pub total_slots : List ℕ → ℕ
total_slots [] = 0
total_slots (x ∷ xs) = x + total_slots xs

sum_slots-total : (xs : List ℕ) → total_slots xs < 2 ^ 31 → sum_slots xs ≡ total_slots xs
unfolding sum_slots total_slots
sum_slots-total [] h = refl
sum_slots-total (x ∷ xs) h = omega (arith, h, sum_slots-total xs (omega (arith, h)))

to_long-small : (x : ℕ) → x < 2 ^ 31 → to_long x ≡ x
to_long-small x h = rw (lt→ltb x (2 ^ 31) h) refl

less_long-small : (a b : ℕ) → a < 2 ^ 63 → b < 2 ^ 63 → less_long a b ≡ ltb a b
less_long-small a b h k = elim (Bool-cases (ltb a b)) [
  | inl e ↦
      rw e
        (lt→ltb ((a + 2 ^ 63) % 2 ^ 64) ((b + 2 ^ 63) % 2 ^ 64) (omega (arith, h, k, ltb→lt a b e)))
  | inr e ↦
      rw e
        (ge→ltb ((a + 2 ^ 63) % 2 ^ 64) ((b + 2 ^ 63) % 2 ^ 64) (omega (arith, h, k, ltb→ge a b e)))
]

abbrev pub prefix : ℕ → List ℕ → ℕ
prefix k xs = total_slots (take k xs)

loop-eq :
    (p sum i : ℕ) (xs : List ℕ)
    → p < 2 ^ 63
    → sum + total_slots xs < 2 ^ 31
    → (k : ℕ) × (percentile_loop p sum i xs ≡ i + k)
      × (k ≤ length xs)
      × (p ≤ sum + total_slots xs → p ≤ sum + prefix k xs)
      × ((j : ℕ) → j < k → sum + prefix j xs < p)
unfolding percentile_loop total_slots
loop-eq p sum i [] small bound =
    (0, omega arith, omega arith, λ h. h, λ j h. absurd (omega (arith, h)))
loop-eq p sum i (x ∷ xs) small bound = elim (Bool-cases (ltb sum p)) [
  | inl e ↦
      let rest = loop-eq p (sum + x) (i + 1) xs small (omega (arith, bound)) in
      let long : add64 sum (to_long x) ≡ sum + x =
        omega (arith, to_long-small x (omega (arith, bound)), bound) in
      (
        suc rest.0,
        rw (same, e, long) (rest.1 ∙ omega arith),
        omega (arith, rest.2),
        λ h. omega (arith, rest.3 (omega (arith, h))),
        λ j h. below rest.0 rest.4 (ltb→lt sum p e) j h,
      )
  | inr e ↦ (
    0,
    rw (same, e) (omega arith),
    omega arith,
    λ h. omega (arith, ltb→ge sum p e),
    λ j h. absurd (omega (arith, h)),
  )
]
  where
    same : less_long sum p ≡ ltb sum p
    same = less_long-small sum p (omega (arith, bound)) small

    below :
        (k : ℕ)
        → ((j : ℕ) → j < k → sum + x + prefix j xs < p)
        → sum < p
        → (j : ℕ) → j < suc k
        → sum + prefix j (x ∷ xs) < p
    below k h low zero less = unfold total_slots in omega (arith, low)
    below k h low (suc j) less = unfold total_slots in omega (arith, h j (omega (arith, less)))

-- For slots that add up to less than 2^31 and a share of no more than their sum, getPercentile returns the
-- value of a slot `i` such that the slots before `i` hold the share, and no smaller number of slots does.
pub get_percentile-least :
    (part : ℕ → ℕ) (back : ℕ → ℕ → ℕ → ℕ) (h : Hist)
    → total_slots h.hist_data < 2 ^ 31
    → part (total_slots h.hist_data) ≤ total_slots h.hist_data
    → (i : ℕ) × (get_percentile part back h ≡ h.from + back i (h.to - h.from) h.size)
      × (i ≤ length h.hist_data)
      × (part (total_slots h.hist_data) ≤ prefix i h.hist_data)
      × ((j : ℕ) → j < i → prefix j h.hist_data < part (total_slots h.hist_data))
unfolding get_percentile
get_percentile-least part back h small share =
    let p = part (total_slots h.hist_data) in
    let l = loop-eq p 0 0 h.hist_data (omega (arith, small, share)) (omega (arith, small)) in
    let e : percentile_loop p 0 0 h.hist_data ≡ l.0 = omega (arith, l.1) in
    (
      l.0,
      rw (sum_slots-total h.hist_data small, to_long-small (total_slots h.hist_data) small, e) refl,
      l.2,
      omega (arith, l.3 (omega (arith, share))),
      λ j k. omega (arith, l.4 j k),
    )
