-- ===== src/Sim/Greedy/Fresh.antt =====
-- A run of the simulator from its start: the constructor of GreedyGC of sim/Greedy.hpp and the
-- sequential fill of runBench in sim/sim.cpp.
use ssdiq.Prelude.{
  ℕ, zero, suc, ◌+◌, ◌*◌, ◌/◌, ◌≤◌, ◌<◌, ◌≡◌, refl, sym, ap, ◌∙◌, ◌⊎◌, inl, inr, true, false, List,
  arith, In, Distinct, All, ok, ◌>>=◌, dec_lt, minus_one, subst,
}
use ssdiq.Sim.Ssd.{new_ssd, Ssd, is_address, fresh_ssd}
use ssdiq.Sim.Ssd.Consistent.{mapped}
use ssdiq.Sim.Ssd.Valid as SsdValid
use ssdiq.Sim.Ssd.Fresh.{Fits, fresh_ssd-IsValid, fresh_ssd-empty, new_ssd-ok}
use ssdiq.Sim.Ssd.Write.{head_of}
use ssdiq.Sim.Greedy.{Greedy, count_up, pop_front, new_greedy, write_pages}
use ssdiq.Sim.Greedy.Valid.{IsValid, IsGreedy}
use ssdiq.Sim.Greedy.Run.{write_pages-Runs}

In-count_up : (r z k : ℕ) → In k (count_up r z) → (z ≤ k) × (k < z + r)
unfolding count_up
In-count_up zero z k h = absurd h
In-count_up (suc r) z k (inl e) = omega arith
In-count_up (suc r) z k (inr h) = let i = In-count_up r (z + 1) k h in omega arith

count_up-In : (r z k : ℕ) → z ≤ k → k < z + r → In k (count_up r z)
unfolding count_up
count_up-In zero z k h l = absurd (omega arith)
count_up-In (suc r) z k h l = elim (dec_lt z k) [
  | yes lt ↦ inr (count_up-In r (z + 1) k (omega arith) (omega arith))
  | no ge ↦ inl (omega arith)
]

count_up-Distinct : (r z : ℕ) → Distinct (count_up r z)
unfolding count_up
count_up-Distinct zero z = tt
count_up-Distinct (suc r) z =
    ((λ h. let i = In-count_up r (z + 1) z h in absurd (omega arith)), count_up-Distinct r (z + 1))

count_up-All :
    (P : ℕ → Type 0) (r z : ℕ) → ((k : ℕ) → z ≤ k → k < z + r → P k) → All P (count_up r z)
unfolding count_up
count_up-All P zero z h = tt
count_up-All P (suc r) z h = (
  h z (omega arith) (omega arith),
  count_up-All P r (z + 1) (λ k a b. h k (omega arith) (omega arith)),
)

-- The collector on an SSD in which every block is empty.
module _ (s : Ssd) (v : SsdValid.IsValid s) (unbuffered : s.write_buffer_size ≡ 0)
    (empty : (b : ℕ) → b < s.block_count → head_of s b ≡ 0)
    (spare : s.logical_pages < s.block_count * s.pages_per_block) (rnd : ℕ → ℕ) where
  started : ℕ → Greedy
  started rest = record {
    ssd = s;
    current_block = 0;
    current_gc_block = minus_one;
    k = 0;
    simple_two_r = false;
    rnd = rnd;
    free_blocks = count_up rest 1;
  }

  new_greedy-started :
      (n rest : ℕ) → n ≡ suc rest → s.block_count ≡ n → new_greedy s 0 false rnd ≡ ok (started rest)
  unfolding new_greedy pop_front count_up started
  new_greedy-started n rest e h = rw (h, e)

  started-IsValid : (rest : ℕ) → s.block_count ≡ suc rest → IsValid (started rest)
  unfolding started
  started-IsValid rest h = record {
    ssd = v;
    unbuffered = unbuffered;
    current = omega arith;
    free_inside = count_up-All _ rest 1 (λ k a b. omega arith);
    free_room = count_up-All _ rest 1 (λ k a b. omega (arith, empty k (omega arith), v.paged));
    distinct =
        ((λ m. let i = In-count_up rest 1 0 m in absurd (omega arith)), count_up-Distinct rest 1);
    rest_full = λ b hb out. absurd (out (listed b hb));
  }
    where
      listed : (b : ℕ) → b < s.block_count → (b ≡ 0) ⊎ In b (count_up rest 1)
      listed zero hb = inl refl
      listed (suc b) hb = inr (count_up-In rest 1 (suc b) (omega arith) (omega arith))

  pub new_greedy-IsGreedy :
      (g : Greedy) × (new_greedy s 0 false rnd ≡ ok g) × (g.ssd ≡ s) × IsGreedy g
  new_greedy-IsGreedy = from s.block_count refl
    where
      from :
          (n : ℕ)
          → s.block_count ≡ n
          → (g : Greedy) × (new_greedy s 0 false rnd ≡ ok g) × (g.ssd ≡ s) × IsGreedy g
      from zero e = absurd (none (rw e at spare))
        where
          none : s.logical_pages < 0 * s.pages_per_block → ⊥
          none h = omega arith
      from (suc rest) e = (
        started rest,
        new_greedy-started (suc rest) rest refl e,
        unfold started in refl,
        record {
          valid = started-IsValid rest e;
          plain = unfold started in refl;
          all_blocks = unfold started in refl;
          spare = unfold started in spare;
        },
      )

-- What a whole simulation leaves.
pub record Simulates (pages : List ℕ) (g : Greedy) : Type 0 where
  pub greedy : IsGreedy g
  pub present : (k : ℕ) → In k pages → is_address (mapped g.ssd.ltp_mapping k) ≡ true
  pub absent : (k : ℕ) → ¬ In k pages → is_address (mapped g.ssd.ltp_mapping k) ≡ false

-- On a new device whose physical pages outnumber its logical pages, whose blocks hold a page at least and
-- are fewer than 2^32, and whose addresses stay below the two sentinels, a simulation with the plain greedy collector accepts
-- every sequence of logical pages, and the pages that are present at its end are those of the sequence.
pub simulate :
    (fill : ℕ → ℕ) (capacity_bytes block_size_bytes page_size_bytes fuel : ℕ) (rnd : ℕ → ℕ)
    (pages : List ℕ)
    → Fits fill capacity_bytes block_size_bytes page_size_bytes
    → fill (capacity_bytes / page_size_bytes)
      < (capacity_bytes / block_size_bytes) * (block_size_bytes / page_size_bytes)
    → All (λ p. p < fill (capacity_bytes / page_size_bytes)) pages
    → (g : Greedy) × ((new_ssd fill capacity_bytes block_size_bytes page_size_bytes >>= λ ssd.
          new_greedy ssd 0 false rnd >>= write_pages fuel pages)
        ≡ ok g)
      × Simulates pages g
simulate fill c s p fuel rnd pages f spare logical =
    let device = fresh_ssd fill c s p in
    let v = fresh_ssd-IsValid fill c s p f in
    let start =
      new_greedy-IsGreedy device v.0 (unfold fresh_ssd in refl) (fresh_ssd-empty fill c s p)
        (unfold fresh_ssd in spare) rnd in
    let within : All (λ q. q < start.0.ssd.logical_pages) pages =
      subst (λ t. All (λ q. q < t.logical_pages) pages) (sym start.2)
        (unfold fresh_ssd in logical) in
    let r = write_pages-Runs fuel pages start.0 start.3 within in
    (
      r.0,
      rw (new_ssd-ok fill c s p f, start.1) r.1,
      record {
        greedy = r.2.greedy;
        present = r.2.written;
        absent =
            λ k h. r.2.others k h ∙ ap (λ t. is_address (mapped t.ltp_mapping k)) start.2 ∙ v.1 k;
      },
    )
