-- ===== src/Shared/Pattern/Access/Zns.antt =====
-- The zones that accessZNS of shared/PatternGen.hpp writes one after the other.
use ssdiq.Prelude.{
  ℕ, zero, suc, ◌+◌, ◌*◌, ◌^◌, ◌<◌, ◌≤◌, ◌≡◌, ◌≢◌, refl, ◌⊎◌, inl, inr, true, false, List, [], ◌∷◌,
  arith, ok, Result, length, get_or, ◌==◌, ◌||◌, Bool-cases, sub64, subst,
}
use ssdiq.Shared.Pattern.{Numerics, PatternGen}
use ssdiq.Shared.Pattern.Access.{among, draw_zone}
use ssdiq.Shared.Pattern.Access.Own.{IsLawful}
use ssdiq.Shared.Pattern.Access.Valid.{IsWeighted}

-- What is not found is at no place.
pub among-false :
    (x : ℕ) (xs : List ℕ) (i : ℕ) → among x xs ≡ false → i < length xs → get_or xs i 0 ≢ x
unfolding among
among-false x [] i h k = absurd (omega (arith, k))
among-false x (y ∷ ys) zero h k = λ e. ground (arith, h, e)
among-false x (y ∷ ys) (suc i) h k = elim (Bool-cases (y == x)) [
  | inl e ↦ absurd (from (subst (λ b. (b || among x ys) ≡ false) e h))
  | inr e ↦ among-false x ys i (subst (λ b. (b || among x ys) ≡ false) e h) (omega (arith, k))
]
  where
    from : ¬ (true ≡ false)
    from e = cc

module _ {D R : Type 0} (num : Numerics D R) (lawful : IsLawful num) where
  -- The k-th zone that is drawn from the state `r` on.
  unfoldable pub drawn_at : ℕ → ℕ → R → ℕ
  drawn_at zns_zones zero r = (num.uniform_int 0 (sub64 zns_zones 1) r).0
  drawn_at zns_zones (suc k) r = drawn_at zns_zones k (num.uniform_int 0 (sub64 zns_zones 1) r).1

  pub draw_zone-finds :
      (fuel k n : ℕ) (ids : List ℕ) (r : R)
      → 0 < n
      → n < 2 ^ 64
      → k < fuel
      → among (drawn_at n k r) ids ≡ false
      → (d : ℕ × R) × (draw_zone num fuel n ids r ≡ ok d) × (among d.0 ids ≡ false) × (d.0 < n)
  unfolding draw_zone drawn_at
  draw_zone-finds zero k n ids r some small h free = absurd (omega (arith, h))
  draw_zone-finds (suc fuel) zero n ids r some small h free =
      let law = lawful.integer 0 (sub64 n 1) r (omega arith) in
      (num.uniform_int 0 (sub64 n 1) r, rw free refl, free, omega (arith, law.1, some, small))
  draw_zone-finds (suc fuel) (suc k) n ids r some small h free =
      let d = num.uniform_int 0 (sub64 n 1) r in
      let law = lawful.integer 0 (sub64 n 1) r (omega arith) in
      elim (Bool-cases (among d.0 ids)) [
        | inl e ↦
            let rest = draw_zone-finds fuel k n ids d.1 some small (omega (arith, h)) free in
            (rest.0, rw e rest.1, rest.2, rest.3)
        | inr e ↦ (d, rw e refl, e, omega (arith, law.1, some, small))
      ]

  -- A place is in a zone of the disk, or will take one with its next page; no zone is at two places.
  pub record IsZns (g : PatternGen D) : Type 0 where
    pub weighted : IsWeighted num lawful g
    pub some_page : 0 < g.options.zns_pages_per_zone
    pub some_zone : 0 < g.zns_zones
    pub word : g.own.logical_pages < 2 ^ 64
    pub covers : g.zns_zones * g.options.zns_pages_per_zone ≤ g.own.logical_pages
    pub ids : length g.zns_active_zone_ids ≡ length g.access_zones
    pub offsets : length g.zns_active_zone_offset ≡ length g.access_zones
    pub within :
        (i : ℕ)
        → i < length g.access_zones
        → (get_or g.zns_active_zone_offset i 0 ≡ g.options.zns_pages_per_zone)
          ⊎ ((get_or g.zns_active_zone_offset i 0 < g.options.zns_pages_per_zone)
              × (get_or g.zns_active_zone_ids i 0 < g.zns_zones))
    pub apart :
        (i j : ℕ)
        → i < length g.access_zones
        → j < length g.access_zones
        → get_or g.zns_active_zone_ids i 0 < g.zns_zones
        → get_or g.zns_active_zone_ids i 0 ≡ get_or g.zns_active_zone_ids j 0
        → i ≡ j

  -- The next page of the zone at `i`, or the first one of a zone that no place has.
  pub record Proceeds (g : PatternGen D) (m : Result (ℕ × PatternGen D × R)) : Type 0 where
    pub place : ℕ
    pub listed : place < length g.access_zones
    pub page : ℕ
    pub next : PatternGen D
    pub rest : R
    pub runs : m ≡ ok (page, next, rest)
    pub inside : page < g.own.logical_pages
    pub ready : IsZns next
    pub sequential :
        let offset = get_or g.zns_active_zone_offset place 0 in
        let next_id = get_or next.zns_active_zone_ids place 0 in
        let next_offset = get_or next.zns_active_zone_offset place 0 in
        (page + 1 ≡ next_id * g.options.zns_pages_per_zone + next_offset)
        × (((offset < g.options.zns_pages_per_zone)
              × (next.zns_active_zone_ids ≡ g.zns_active_zone_ids)
              × (next_offset ≡ offset + 1))
            ⊎ ((offset ≡ g.options.zns_pages_per_zone)
                × (among next_id g.zns_active_zone_ids ≡ false)
                × (next_offset ≡ 1)))
