-- ===== src/Sim/TwoR/Collects.antt =====
-- The garbage collection of TwoR of sim/TwoR.hpp with the greedy policy: garbageCollect2RGreedy.
use ssdiq.Prelude.{
  ℕ, ◌+◌, ◌*◌, ◌<◌, ◌≤◌, ◌≡◌, refl, sym, ap, ◌⊎◌, inl, inr, Bool, true, false, List, [], ◌∷◌, ◌++◌,
  arith, length, ok, Bool-cases, subst, In, Distinct, All-In, In-before, In-after, lt→ltb,
}
use ssdiq.Sim.Block.{can_write}
use ssdiq.Sim.Ssd.{Ssd}
use ssdiq.Sim.Ssd.Pages.{nth_block}
use ssdiq.Sim.Ssd.Valid.{IsValid}
use ssdiq.Sim.Ssd.Write.{head_of}
use ssdiq.Sim.Ssd.Erase.{Keeps}
use ssdiq.Sim.Collect.{compact_victims}
use ssdiq.Sim.Collect.Chain.{held}
use ssdiq.Sim.Collect.Reclaim.{Reclaims, compact_victims-Reclaims}
use ssdiq.Sim.TwoR.{
  TwoR, is_empty, Selection, select_loop, start_selection, select_victim_blocks_greedy,
  garbage_collect_two_r_greedy, garbage_collect_cold_region,
}
use ssdiq.Sim.TwoR.Region.{Inside, spare, held-spare}
use ssdiq.Sim.TwoR.Select.{Selects, start-Selects, select_loop-Selects}
use ssdiq.Sim.TwoR.Choose.{
  Regions, Enough, chosen, without, pigeon, spare-fits, select_from-ok, chosen-Inside,
  chosen-Distinct, garbage_collect_cold_region-Enough,
}
use ssdiq.Sim.TwoR.Settle.{with_room, without_room, settle-eq, In-with_room, In-sides}

is_empty-In : (xs : List ℕ) (c : ℕ) → In c xs → is_empty xs ≡ false
is_empty-In [] c h = absurd h
is_empty-In (x ∷ xs) c h = refl

-- What a collection leaves: a block is free, every free block has room, every page is kept, and no
-- block is lost.
pub record Collects (t t' : TwoR) : Type 0 where
  pub keeps : Keeps t.ssd t'.ssd
  pub current : t'.current_block ≡ t.current_block
  pub some_free : (b : ℕ) × In b t'.free_blocks × (head_of t'.ssd b ≡ 0)
  pub free_room : (b : ℕ) → In b t'.free_blocks → can_write (nth_block t'.ssd.blocks b) ≡ true
  pub none_lost :
      (b : ℕ)
      → In b t.normal_blocks ⊎ In b t.cold_blocks
      → In b t'.normal_blocks ⊎ In b t'.cold_blocks ⊎ In b t'.free_blocks

both : (b : Bool) → b ≡ true → ¬ (b ≡ false)
both b h k = cc

module _ (t : TwoR) (g : Regions t) (unfree : t.free_blocks ≡ []) (cold : Bool) (y : Selection)
    (p : Selects t.ssd (chosen cold t) y) where
  abbrev settled : Ssd → TwoR
  settled s = record (without t g cold y) {
    ssd = s;
    cold_blocks = (without t g cold y).cold_blocks ++ without_room s y.victim_ids;
    free_blocks = t.free_blocks ++ with_room s y.victim_ids;
  }

  not_lost :
      (s : Ssd) (b : ℕ)
      → In b t.normal_blocks ⊎ In b t.cold_blocks
      → In b (settled s).normal_blocks ⊎ In b (settled s).cold_blocks ⊎ In b (settled s).free_blocks
  not_lost s b = elim (Bool-cases cold) [
    | inl e ↦ λ h. elim h [
      | inl k ↦ inl (rw e k)
      | inr k ↦ elim (p.split b (rw e k)) [
        | inl m ↦ moved m
        | inr m ↦ inr (
            inl
              (In-before b (without t g cold y).cold_blocks (without_room s y.victim_ids) (rw e m)))
      ]
    ]
    | inr e ↦ λ h. elim h [
      | inr k ↦ inr (
          inl (In-before b (without t g cold y).cold_blocks (without_room s y.victim_ids) (rw e k)))
      | inl k ↦ elim (p.split b (rw e k)) [ inl m ↦ moved m | inr m ↦ inl (rw e m) ]
    ]
  ]
    where
      moved :
          In b y.victim_ids
          → In b (settled s).normal_blocks
            ⊎ In b (settled s).cold_blocks
            ⊎ In b (settled s).free_blocks
      moved m = elim (In-sides s y.victim_ids b m) [
        | inl r ↦ inr (inr (In-after b t.free_blocks (with_room s y.victim_ids) r.1))
        | inr r ↦
            inr
              (inl (In-after b (without t g cold y).cold_blocks (without_room s y.victim_ids) r.1))
      ]

  module _ (first : ℕ) (member : In first y.victim_ids) (s : Ssd)
      (r : Reclaims first y.victim_ids t.ssd s) where
    inside : Inside s y.victim_ids
    inside = rw r.keeps.shape.block_count p.victims_inside

    first_room : can_write (nth_block s.blocks first) ≡ true
    first_room =
        let low : first < s.block_count =
          All-In (λ b. b < s.block_count) y.victim_ids first inside member in
        let own = r.keeps.valid.each first (omega (arith, low, r.keeps.valid.all_blocks)) in
        lt→ltb (head_of s first) (nth_block s.blocks first).pages_per_block
          (omega (arith, r.erased, own.same_size, r.keeps.valid.paged))

    first_free : In first (settled s).free_blocks
    first_free = elim (In-sides s y.victim_ids first member) [
      | inl k ↦ In-after first t.free_blocks (with_room s y.victim_ids) k.1
      | inr k ↦ absurd (both (can_write (nth_block s.blocks first)) first_room k.0)
    ]

    rooms : (b : ℕ) → In b (settled s).free_blocks → can_write (nth_block s.blocks b) ≡ true
    rooms b h =
        (In-with_room s y.victim_ids b
          (subst (λ f. In b (f ++ with_room s y.victim_ids)) unfree h)).0

    settled-Collects : Collects t (settled s)
    settled-Collects = record {
      keeps = r.keeps;
      current = refl;
      some_free = (first, first_free, r.erased);
      free_room = rooms;
      none_lost = not_lost s;
    }

    steps :
        (fuel : ℕ)
        → garbage_collect_cold_region t ≡ ok cold
        → select_loop fuel t.ssd (start_selection (chosen cold t)) ≡ ok y
        → t.ssd.pages_per_block ≤ y.total_invalid
        → compact_victims y.victim_ids t.ssd ≡ ok (s, first)
        → garbage_collect_two_r_greedy fuel t ≡ ok (settled s)
    unfolding garbage_collect_two_r_greedy select_victim_blocks_greedy
    steps fuel ec el et er =
        rw
          (
            ec,
            select_from-ok t g fuel cold y el et,
            er,
            settle-eq y.victim_ids (record (without t g cold y) { ssd = s }) r.keeps.valid inside,
            is_empty-In (settled s).free_blocks first first_free,
          )
          refl

-- Victims with the invalid pages of a block lack a block of valid pages.
victims-lack :
    (s : Ssd) (vs : List ℕ)
    → IsValid s
    → Inside s vs
    → s.pages_per_block ≤ spare s vs
    → held s vs + s.pages_per_block ≤ length vs * s.pages_per_block
victims-lack s vs v i h = omega (arith, held-spare s vs v i)

-- The collection of the greedy two-region collector, which runs when no block is free, never throws and
-- ends if one of the regions has the invalid pages of a block, given a round for each block and one
-- more. A block is erased and free then, all free blocks have room, every logical page is kept, and each
-- block of a region is in a region or free.
pub garbage_collect_two_r_greedy-Collects :
    (fuel : ℕ) (t : TwoR)
    → Regions t
    → t.free_blocks ≡ []
    → Enough t
    → t.ssd.block_count < fuel
    → (t' : TwoR) × (garbage_collect_two_r_greedy fuel t ≡ ok t') × Collects t t'
unfolding spare
garbage_collect_two_r_greedy-Collects fuel t g unfree e rounds =
    let c = garbage_collect_cold_region-Enough t g e in
    let region = chosen c.0 t in
    let i = chosen-Inside t g c.0 in
    let d = chosen-Distinct t g c.0 in
    let x =
      select_loop-Selects t.ssd g.ssd region (spare-fits t.ssd region g.ssd i d) fuel
        (start_selection region) (start-Selects t.ssd region i d)
        (omega (arith, rounds, pigeon t.ssd t.ssd.block_count region i d)) in
    let plenty : t.ssd.pages_per_block ≤ spare t.ssd x.0.victim_ids = elim x.3 [
      | inl k ↦ omega (arith, k, x.2.counted)
      | inr k ↦ omega (arith, x.2.shares, ap (spare t.ssd) k, c.2)
    ] in
    finish c.0 c.1 x.0 x.1 x.2 x.0.victim_ids refl plenty
  where
    finish :
        (cold : Bool)
        → garbage_collect_cold_region t ≡ ok cold
        → (y : Selection) → select_loop fuel t.ssd (start_selection (chosen cold t)) ≡ ok y
        → Selects t.ssd (chosen cold t) y
        → (vs : List ℕ) → y.victim_ids ≡ vs
        → t.ssd.pages_per_block ≤ spare t.ssd y.victim_ids
        → (t' : TwoR) × (garbage_collect_two_r_greedy fuel t ≡ ok t') × Collects t t'
    finish cold ec y el p [] ev plenty =
        absurd (omega (arith, g.ssd.paged, plenty, ap (spare t.ssd) ev))
    finish cold ec y el p (first ∷ others) ev plenty =
        let r =
          compact_victims-Reclaims first others t.ssd g.ssd
            (subst (Inside t.ssd) ev p.victims_inside) (subst Distinct ev p.victims_distinct)
            (subst (λ vs. held t.ssd vs + t.ssd.pages_per_block ≤ length vs * t.ssd.pages_per_block)
              ev (victims-lack t.ssd y.victim_ids g.ssd p.victims_inside plenty)) in
        let member = subst (In first) (sym ev) (inl refl) in
        let reclaims = subst (λ vs. Reclaims first vs t.ssd r.0) (sym ev) r.2 in
        (
          settled t g unfree cold y p r.0,
          steps t g unfree cold y p first member r.0 reclaims fuel ec el
              (omega (arith, plenty, p.counted))
              (subst (λ vs. compact_victims vs t.ssd ≡ ok (r.0, first)) (sym ev) r.1),
          settled-Collects t g unfree cold y p first member r.0 reclaims,
        )
