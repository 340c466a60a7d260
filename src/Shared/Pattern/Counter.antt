-- ===== src/Shared/Pattern/Counter.antt =====
-- An instance of the numbers and distributions of shared/PatternGen.hpp, for small runs.
use native.Mathlib.Nat.{mod-lt}
use ssdiq.Prelude.{
  ℕ, ◌+◌, ◌-◌, ◌*◌, ◌/◌, ◌%◌, ◌<◌, ◌≤◌, List, [], ◌∷◌, arith, ok, err, Result, Fault, ltb, leb,
  ◌==◌, ge→ltb, if◌then◌else◌,
}
use ssdiq.Shared.Pattern.{Numerics}
use ssdiq.Shared.Pattern.Access.{beta_distribution}
use ssdiq.Shared.Pattern.Access.Own.{IsLawful}

-- A digit as a number.
abbrev pub digit : List ℕ → Result ℕ
digit [] = err Fault.invalid_argument
digit (c ∷ s) = ok (c - 48)

-- Natural numbers in place of `double`, and a counter in place of a random number generator.
abbrev pub counter : Numerics ℕ ℕ
counter = record {
  none_yet = 0;
  zero_real = 0;
  one = 1;
  plus = λ a b. a + b;
  less = ltb;
  share = λ size sum pages. if sum == 0 then 0 else size * pages / sum;
  scale = λ b n. if leb b n then b else n;
  quotient = λ a b. a;
  zone_power = λ zones i. i + 1;
  stod = digit;
  stoi = digit;
  uniform_int = λ lo hi r. (lo + r % (hi - lo + 1), r + 1);
  uniform_real = λ hi r. (r % (hi + 1), r + 1);
  gamma = λ a r. (r, r + 1);
  zipf_sample = λ n skew r. (1 + r % n, r + 1);
  shuffling = λ n xs. xs;
}

remainder-lt : (r n : ℕ) → 0 < n → r % n < n
remainder-lt r n h = mod-lt r h

pub counter-IsLawful : IsLawful counter
unfolding beta_distribution
counter-IsLawful = record {
  integer = λ lo hi r h.
      let m = remainder-lt r (hi - lo + 1) (omega arith) in (omega arith, omega (arith, m, h));
  real = λ hi r h.
      let m = remainder-lt r (hi + 1) (omega arith) in ge→ltb hi (r % (hi + 1)) (omega (arith, m));
  rank = λ n skew r h. let m = remainder-lt r (n) h in (omega arith, omega (arith, m));
  unit = λ a b n r h k m. least r n;
  zero_plus = λ x. omega arith;
}
  where
    least : (b n : ℕ) → (if leb b n then b else n) ≤ n
    least b n = ground arith
