-- ===== src/Sim/TwoR/Select.antt =====
-- The selection of victims from one region: TwoR::selectVictimBlocksGreedy of sim/TwoR.hpp.
use ssdiq.Prelude.{
  ℕ, zero, suc, ◌+◌, ◌-◌, ◌^◌, ◌<◌, ◌≤◌, ◌≡◌, ◌≢◌, refl, sym, ap, ◌∙◌, ◌⊎◌, inl, inr, true, false,
  not, ◌&&◌, List, [], ◌∷◌, ◌++◌, arith, length, ok, ==-refl, ne→==, ltb, lt→ltb, ge→ltb,
  Bool-cases, add64, sub64, subst, In, Distinct, All-In, ℕ_discrete, In-append, In-append_left,
  In-append_last, All-append, Distinct-append, dec_lt,
}
use ssdiq.Sim.Ssd.{Ssd, contains}
use ssdiq.Sim.Ssd.Valid.{IsValid}
use ssdiq.Sim.Ssd.Write.{valid_of}
use ssdiq.Sim.TwoR.{
  greedy_region, remove_all, Selection, pick_victim, select_one, select_loop, start_selection,
  is_empty,
}
use ssdiq.Sim.TwoR.Region.{Inside, spare, block_at-ok, greedy_region-IsLeastOf, invalid-small}

-- What is left of a region once a block is taken out.
remove_all-same : (v b : ℕ) (bs : List ℕ) → b ≡ v → remove_all v (b ∷ bs) ≡ remove_all v bs
unfolding remove_all
remove_all-same v b bs e = rw (e, ==-refl v) refl

remove_all-other : (v b : ℕ) (bs : List ℕ) → b ≢ v → remove_all v (b ∷ bs) ≡ b ∷ remove_all v bs
unfolding remove_all
remove_all-other v b bs n = rw (ne→== b v n) refl

remove_all-absent : (v : ℕ) (bs : List ℕ) → ¬ In v bs → remove_all v bs ≡ bs
remove_all-absent v [] n = unfold remove_all in refl
remove_all-absent v (b ∷ bs) n =
    remove_all-other v b bs (λ e. n (inl (sym e)))
    ∙ ap (λ t. b ∷ t) (remove_all-absent v bs (λ h. n (inr h)))

pub In-remove_all : (c v : ℕ) (bs : List ℕ) → In c (remove_all v bs) → In c bs × (c ≢ v)
unfolding remove_all
In-remove_all c v [] h = absurd h
In-remove_all c v (b ∷ bs) h = elim (ℕ_discrete b v) [
  | yes e ↦
      let r = In-remove_all c v bs (subst (In c) (remove_all-same v b bs e) h) in (inr r.0, r.1)
  | no n ↦ elim (subst (In c) (remove_all-other v b bs n) h) [
    | inl e ↦ (inl e, λ k. n (sym e ∙ k))
    | inr k ↦ let r = In-remove_all c v bs k in (inr r.0, r.1)
  ]
]

In-kept : (c v : ℕ) (bs : List ℕ) → In c bs → (c ≡ v) ⊎ In c (remove_all v bs)
In-kept c v [] h = absurd h
In-kept c v (b ∷ bs) h = elim (ℕ_discrete b v) [
  | yes e ↦ elim h [
    | inl k ↦ inl (k ∙ e)
    | inr k ↦ elim (In-kept c v bs k) [
      | inl m ↦ inl m
      | inr m ↦ inr (subst (In c) (sym (remove_all-same v b bs e)) m)
    ]
  ]
  | no n ↦ elim h [
    | inl k ↦ inr (subst (In c) (sym (remove_all-other v b bs n)) (inl k))
    | inr k ↦ elim (In-kept c v bs k) [
      | inl m ↦ inl m
      | inr m ↦ inr (subst (In c) (sym (remove_all-other v b bs n)) (inr m))
    ]
  ]
]

spare-cons :
    (s : Ssd) (b : ℕ) (bs : List ℕ)
    → spare s (b ∷ bs) ≡ (s.pages_per_block - valid_of s b) + spare s bs
unfolding spare
spare-cons s b bs = refl

-- A list of distinct blocks loses exactly the block that is taken out.
pub record Without (s : Ssd) (v : ℕ) (bs : List ℕ) : Type 0 where
  pub inside : Inside s (remove_all v bs)
  pub distinct : Distinct (remove_all v bs)
  pub shorter : length (remove_all v bs) + 1 ≡ length bs
  pub share : spare s (remove_all v bs) + (s.pages_per_block - valid_of s v) ≡ spare s bs

pub remove_all-Without :
    (s : Ssd) (v : ℕ) (bs : List ℕ) → Inside s bs → Distinct bs → In v bs → Without s v bs
remove_all-Without s v [] i d h = absurd h
remove_all-Without s v (b ∷ bs) i d h = elim (ℕ_discrete b v) [
  | yes e ↦
      let gone : remove_all v (b ∷ bs) ≡ bs =
        remove_all-same v b bs e
        ∙ remove_all-absent v bs (λ k. d.0 (subst (λ x. In x bs) (sym e) k)) in
      record {
        inside = subst (Inside s) (sym gone) i.1;
        distinct = subst Distinct (sym gone) d.1;
        shorter = rw gone (omega arith);
        share = rw gone (omega (arith, spare-cons s b bs, ap (valid_of s) e));
      }
  | no n ↦
      let w =
        remove_all-Without s v bs i.1 d.1 (elim h [ inl e ↦ absurd (n (sym e)) | inr k ↦ k ]) in
      let kept = remove_all-other v b bs n in
      record {
        inside = subst (Inside s) (sym kept) (i.0, w.inside);
        distinct = subst Distinct (sym kept) ((λ k. d.0 (In-remove_all b v bs k).0), w.distinct);
        shorter = rw kept (omega (arith, w.shorter));
        share =
            rw kept (omega (arith, spare-cons s b bs, spare-cons s b (remove_all v bs), w.share));
      }
]

spare-append :
    (s : Ssd) (bs : List ℕ) (v : ℕ)
    → spare s (bs ++ (v ∷ [])) ≡ spare s bs + (s.pages_per_block - valid_of s v)
unfolding spare
spare-append s [] v = omega arith
spare-append s (b ∷ bs) v = omega (arith, spare-append s bs v)

contains-cons :
    (c v : ℕ) (xs : List ℕ) → c ≢ v → contains c xs ≡ false → contains c (v ∷ xs) ≡ false
unfolding contains
contains-cons c v xs n h = rw (ne→== c v n, h) refl

-- How far the selection from a region has come.
pub record Selects (s : Ssd) (whole : List ℕ) (x : Selection) : Type 0 where
  pub inside : Inside s x.region
  pub distinct : Distinct x.region
  pub victims_inside : Inside s x.victim_ids
  pub victims_distinct : Distinct x.victim_ids
  pub apart : (c : ℕ) → In c x.victim_ids → ¬ In c x.region
  pub split : (c : ℕ) → In c whole → In c x.victim_ids ⊎ In c x.region
  pub victims_from : (c : ℕ) → In c x.victim_ids → In c whole
  pub region_from : (c : ℕ) → In c x.region → In c whole
  pub fresh : (c : ℕ) → In c x.region → contains c x.selected_victims ≡ false
  pub counted : x.total_invalid ≡ spare s x.victim_ids
  pub shares : spare s x.victim_ids + spare s x.region ≡ spare s whole

pub start-Selects :
    (s : Ssd) (region : List ℕ)
    → Inside s region
    → Distinct region
    → Selects s region (start_selection region)
unfolding spare contains
start-Selects s region i d = record {
  inside = i;
  distinct = d;
  victims_inside = tt;
  victims_distinct = tt;
  apart = λ c h. absurd h;
  split = λ c h. inr h;
  victims_from = λ c h. absurd h;
  region_from = λ c h. h;
  fresh = λ c h. refl;
  counted = refl;
  shares = omega arith;
}

module _ (s : Ssd) (v : IsValid s) (whole : List ℕ) (fits : spare s whole < 2 ^ 64) where
  abbrev taken : ℕ → Selection → Selection
  taken m x = record {
    victim_ids = x.victim_ids ++ (m ∷ []);
    selected_victims = m ∷ x.selected_victims;
    total_invalid = x.total_invalid + (s.pages_per_block - valid_of s m);
    region = remove_all m x.region;
  }

  -- The first try of the inner loop succeeds, since a selected block is no longer in the region.
  pick_victim-ok :
      (fuel : ℕ) (x : Selection) (m : ℕ)
      → greedy_region s x.region ≡ ok m
      → contains m x.selected_victims ≡ false
      → pick_victim (suc fuel) s x.selected_victims x.region ≡ ok m
  unfolding pick_victim
  pick_victim-ok fuel x m e f = rw (e, f) refl

  select_one-ok :
      (fuel : ℕ) (x : Selection) (m : ℕ)
      → Selects s whole x
      → greedy_region s x.region ≡ ok m
      → In m x.region
      → select_one (suc fuel) s x ≡ ok (taken m x)
  unfolding select_one
  select_one-ok fuel x m g e h =
      let low : m < s.block_count = All-In (λ b. b < s.block_count) x.region m g.inside h in
      let w = remove_all-Without s m x.region g.inside g.distinct h in
      let sum : add64 x.total_invalid (sub64 s.pages_per_block (valid_of s m))
          ≡ x.total_invalid + (s.pages_per_block - valid_of s m) =
        omega (arith, invalid-small s m v low, g.counted, g.shares, w.share, fits) in
      rw (pick_victim-ok fuel x m e (g.fresh m h), block_at-ok s m v low, sum) refl

  taken-Selects :
      (x : Selection) (m : ℕ) → Selects s whole x → In m x.region → Selects s whole (taken m x)
  taken-Selects x m g h =
      let low : m < s.block_count = All-In (λ b. b < s.block_count) x.region m g.inside h in
      let w = remove_all-Without s m x.region g.inside g.distinct h in
      record {
        inside = w.inside;
        distinct = w.distinct;
        victims_inside = All-append (λ b. b < s.block_count) x.victim_ids m g.victims_inside low;
        victims_distinct = Distinct-append x.victim_ids m g.victims_distinct (λ k. g.apart m k h);
        apart = λ c k l.
            let r = In-remove_all c m x.region l in
            elim (In-append c m x.victim_ids k) [ inl j ↦ g.apart c j r.0 | inr e ↦ r.1 e ];
        split = λ c k. elim (g.split c k) [
          | inl j ↦ inl (In-append_left c m x.victim_ids j)
          | inr j ↦ elim (In-kept c m x.region j) [
            | inl e ↦ inl (
                subst (λ t. In t (x.victim_ids ++ (m ∷ []))) (sym e)
                  (In-append_last m x.victim_ids))
            | inr l ↦ inr l
          ]
        ];
        victims_from = λ c k. elim (In-append c m x.victim_ids k) [
          | inl j ↦ g.victims_from c j
          | inr e ↦ subst (λ t. In t whole) (sym e) (g.region_from m h)
        ];
        region_from = λ c k. g.region_from c (In-remove_all c m x.region k).0;
        fresh = λ c k.
            let r = In-remove_all c m x.region k in
            contains-cons c m x.selected_victims r.1 (g.fresh c r.0);
        counted = omega (arith, spare-append s x.victim_ids m, g.counted);
        shares = omega (arith, spare-append s x.victim_ids m, w.share, g.shares);
      }

  select_loop-stop :
      (fuel : ℕ) (x : Selection)
      → (ltb x.total_invalid s.pages_per_block && not (is_empty x.region)) ≡ false
      → select_loop (suc fuel) s x ≡ ok x
  unfolding select_loop
  select_loop-stop fuel x h = rw h refl

  select_loop-go :
      (fuel : ℕ) (x x' : Selection)
      → (ltb x.total_invalid s.pages_per_block && not (is_empty x.region)) ≡ true
      → select_one (suc fuel) s x ≡ ok x'
      → select_loop (suc fuel) s x ≡ select_loop fuel s x'
  unfolding select_loop
  select_loop-go fuel x x' h e = rw (h, e) refl

  -- On a valid SSD whose region has fewer than 2^64 invalid pages, and with more fuel than the region has
  -- blocks left, the loop that selects victims ends: the victims are distinct blocks of the region, they
  -- are no longer in it, their invalid pages are counted, and they have those of a block or are all of
  -- the region.
  pub select_loop-Selects :
      (fuel : ℕ) (x : Selection)
      → Selects s whole x
      → length x.region < fuel
      → (y : Selection) × (select_loop fuel s x ≡ ok y)
        × Selects s whole y
        × ((s.pages_per_block ≤ y.total_invalid) ⊎ (y.region ≡ []))
  select_loop-Selects zero x g h = absurd (omega arith)
  select_loop-Selects (suc fuel) x g h = elim (dec_lt x.total_invalid s.pages_per_block) [
    | no enough ↦ (
      x,
      select_loop-stop fuel x (rw (ge→ltb x.total_invalid s.pages_per_block (omega arith)) refl),
      g,
      inl (omega arith),
    )
    | yes low ↦ elim (Bool-cases (is_empty x.region)) [
      | inl e ↦ (
        x,
        select_loop-stop fuel x (rw (lt→ltb x.total_invalid s.pages_per_block low, e) refl),
        g,
        inr (emptied x.region e),
      )
      | inr n ↦
          let m = least_in x.region n g.inside in
          let w = remove_all-Without s m.0 x.region g.inside g.distinct m.2 in
          let r =
            select_loop-Selects fuel (taken m.0 x) (taken-Selects x m.0 g m.2)
              (omega (arith, w.shorter, h)) in
          (
            r.0,
            select_loop-go fuel x (taken m.0 x)
                  (rw (lt→ltb x.total_invalid s.pages_per_block low, n) refl)
                  (select_one-ok fuel x m.0 g m.1 m.2)
                ∙ r.1,
            r.2,
            r.3,
          )
    ]
  ]
    where
      emptied : (bs : List ℕ) → is_empty bs ≡ true → bs ≡ []
      emptied [] e = refl
      emptied (b ∷ bs) e = cc

      least_in :
          (bs : List ℕ)
          → is_empty bs ≡ false
          → Inside s bs
          → (m : ℕ) × (greedy_region s bs ≡ ok m) × In m bs
      least_in [] e i = cc
      least_in (b ∷ bs) e i = let r = greedy_region-IsLeastOf s b bs v i in (r.0, r.1, r.2.member)
