-- ===== src/Sim/Ssd/Relocate.antt =====
-- The second loop of SSD::compactBlock of sim/SSD.hpp: the mapping follows the pages of a block.
use ssdiq.Prelude.{
  ℕ, zero, suc, ◌+◌, ◌*◌, ◌%◌, ◌^◌, ◌≤◌, ◌<◌, ◌≡◌, refl, sym, ap, ◌∙◌, inl, inr, true, List, [],
  ◌∷◌, arith, length, get_or, set, length-set, get_or-set_self, get_or-set_ne, ℕ_discrete, ok,
  Fault, fetch-in, ne→==, add64, mul64, In, Distinct, All,
}
use ssdiq.Sim.Block.{unused, incache}
use ssdiq.Sim.Ssd.{Ssd, is_address, bump, relocate}
use ssdiq.Sim.Ssd.Pages.{address-lt}
use ssdiq.Sim.Ssd.Consistent.{mapped, is_address-small}
use ssdiq.Sim.Ssd.Valid.{count_mapped, count_mapped-set, mapped_bit}
use ssdiq.Sim.Ssd.Write.{SameShape, SameShape-refl, SameShape-trans, mapped_bit-address}

module _ (n b : ℕ) where
  -- The mapping that the loop leaves.
  pub relocated : List ℕ → ℕ → List ℕ → List ℕ
  relocated [] p ltp = ltp
  relocated (x ∷ xs) p ltp = relocated xs (p + 1) (set ltp x (b * n + p))

  pub length-relocated :
      (xs : List ℕ) (p : ℕ) (ltp : List ℕ) → length (relocated xs p ltp) ≡ length ltp
  unfolding relocated
  length-relocated [] p ltp = refl
  length-relocated (x ∷ xs) p ltp = length-relocated xs (p + 1) _ ∙ length-set ltp x _

  -- A page that is not listed keeps its address.
  pub relocated-out :
      (k : ℕ) (xs : List ℕ) (p : ℕ) (ltp : List ℕ)
      → ¬ In k xs
      → mapped (relocated xs p ltp) k ≡ mapped ltp k
  unfolding relocated
  relocated-out k [] p ltp h = refl
  relocated-out k (x ∷ xs) p ltp h =
      relocated-out k xs (p + 1) _ (λ m. h (inr m))
      ∙ get_or-set_ne ltp x k _ unused (λ e. h (inl (sym e)))

  -- A listed page gets the address of its position.
  pub relocated-in :
      (i : ℕ) (xs : List ℕ) (p : ℕ) (ltp : List ℕ)
      → Distinct xs
      → All (λ x. x < length ltp) xs
      → i < length xs
      → mapped (relocated xs p ltp) (get_or xs i unused) ≡ b * n + (p + i)
  unfolding relocated
  relocated-in i [] p ltp d a h = absurd (omega arith)
  relocated-in zero (x ∷ xs) p ltp d a h =
      relocated-out x xs (p + 1) _ d.0
      ∙ get_or-set_self ltp x _ unused a.0
      ∙ ap (λ t. b * n + t) (omega arith)
  relocated-in (suc i) (x ∷ xs) p ltp d a h =
      relocated-in i xs (p + 1) _ d.1 (still xs a.1) (omega arith)
      ∙ ap (λ t. b * n + t) (omega arith)
    where
      still :
          (ys : List ℕ)
          → All (λ y. y < length ltp) ys
          → All (λ y. y < length (set ltp x (b * n + p))) ys
      still [] t = tt
      still (y ∷ ys) t = (omega (arith, t.0, length-set ltp x (b * n + p)), still ys t.1)

  -- The pages were mapped before and are mapped after.
  pub count_mapped-relocated :
      (xs : List ℕ) (p : ℕ) (ltp : List ℕ)
      → All (λ x. x < length ltp) xs
      → All (λ x. is_address (mapped ltp x) ≡ true) xs
      → b * n + (p + length xs) ≤ incache
      → count_mapped (relocated xs p ltp) ≡ count_mapped ltp
  unfolding relocated
  count_mapped-relocated [] p ltp a m h = refl
  count_mapped-relocated (x ∷ xs) p ltp a m h =
      count_mapped-relocated xs (p + 1) _ (still xs a.1) (mapped_still xs m.1) (omega arith)
      ∙ omega (
        arith,
        count_mapped-set ltp x (b * n + p) a.0,
        mapped_bit-address (b * n + p) small,
        mapped_bit-true (mapped ltp x) m.0,
      )
    where
      small : b * n + p < incache
      small = omega arith

      mapped_bit-true : (t : ℕ) → is_address t ≡ true → mapped_bit t ≡ 1
      mapped_bit-true t e = rw e

      still :
          (ys : List ℕ)
          → All (λ y. y < length ltp) ys
          → All (λ y. y < length (set ltp x (b * n + p))) ys
      still [] t = tt
      still (y ∷ ys) t = (omega (arith, t.0, length-set ltp x (b * n + p)), still ys t.1)

      at_set :
          (y : ℕ)
          → is_address (mapped ltp y) ≡ true
          → is_address (mapped (set ltp x (b * n + p)) y) ≡ true
      at_set y t = elim (ℕ_discrete x y) [
        | yes e ↦
            rw (← e, get_or-set_self ltp x (b * n + p) unused a.0)
              (is_address-small (b * n + p) small)
        | no ne ↦ rw (get_or-set_ne ltp x y (b * n + p) unused ne) t
      ]

      mapped_still :
          (ys : List ℕ)
          → All (λ y. is_address (mapped ltp y) ≡ true) ys
          → All (λ y. is_address (mapped (set ltp x (b * n + p)) y) ≡ true) ys
      mapped_still [] t = tt
      mapped_still (y ∷ ys) t = (at_set y t.0, mapped_still ys t.1)

-- What the loop leaves of an SSD.
pub record Relocates (b : ℕ) (xs : List ℕ) (p : ℕ) (s s' : Ssd) : Type 0 where
  pub shape : SameShape s s'
  pub blocks : s'.blocks ≡ s.blocks
  pub mapping : s'.ltp_mapping ≡ relocated s.pages_per_block b xs p s.ltp_mapping
  pub writes : s'.phys_writes ≡ (s.phys_writes + length xs) % 2 ^ 64
  pub cold : s'.gced_cold_block ≡ s.gced_cold_block
  pub normal : s'.gced_normal_block ≡ s.gced_normal_block
  pub age : s'.erase_age_counter ≡ s.erase_age_counter

pub relocate-Relocates :
    (b c : ℕ) (xs : List ℕ) (p : ℕ) (s : Ssd)
    → b < c
    → c * s.pages_per_block ≤ incache
    → p + length xs ≤ s.pages_per_block
    → length s.ltp_mapping ≤ incache
    → s.phys_writes < 2 ^ 64
    → All (λ x. x < length s.ltp_mapping) xs
    → (s' : Ssd) × (relocate b xs p s ≡ ok s') × Relocates b xs p s s'
unfolding relocate relocated
relocate-Relocates b c [] p s hb hc hp hl hw a = (
  s,
  refl,
  record {
    shape = SameShape-refl s;
    blocks = refl;
    mapping = refl;
    writes = omega arith;
    cold = refl;
    normal = refl;
    age = refl;
  },
)
relocate-Relocates b c (x ∷ xs) p s hb hc hp hl hw a =
    let r =
      relocate-Relocates b c xs (p + 1) next hb hc (omega arith)
        (omega (arith, length-set s.ltp_mapping x address)) (omega arith) (still xs a.1) in
    (
      r.0,
      step ∙ r.1,
      record {
        shape = SameShape-trans s next r.0 same r.2.shape;
        blocks = r.2.blocks;
        mapping = r.2.mapping;
        writes = omega (arith, r.2.writes);
        cold = r.2.cold;
        normal = r.2.normal;
        age = r.2.age;
      },
    )
  where
    address : ℕ
    address = b * s.pages_per_block + p

    next : Ssd
    next = record s {
      ltp_mapping = set s.ltp_mapping x address;
      mapping_updated_gc = bump x s.mapping_updated_gc;
      phys_writes = add64 s.phys_writes 1;
    }

    same : SameShape s next
    same = record {
      pages_per_block = refl;
      block_count = refl;
      logical_pages = refl;
      write_buffer_size = refl;
    }

    exact : add64 (mul64 b s.pages_per_block) p ≡ address
    exact = omega (arith, address-lt s.pages_per_block c b p hb (omega arith))

    step : relocate b (x ∷ xs) p s ≡ relocate b xs (p + 1) next
    step = rw (
      ne→== x unused (omega (arith, a.0)),
      fetch-in Fault.undefined_access s.ltp_mapping x unused a.0,
      exact,
    )

    still :
        (ys : List ℕ)
        → All (λ y. y < length s.ltp_mapping) ys
        → All (λ y. y < length (set s.ltp_mapping x address)) ys
    still [] t = tt
    still (y ∷ ys) t = (omega (arith, t.0, length-set s.ltp_mapping x address), still ys t.1)
