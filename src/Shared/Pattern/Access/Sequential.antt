-- ===== src/Shared/Pattern/Access/Sequential.antt =====
-- One access of accessZNS of shared/PatternGen.hpp.
use ssdiq.Prelude.{
  ℕ, ◌*◌, ◌^◌, ◌<◌, ◌≤◌, ◌≡◌, inl, inr, false, arith, Fault, fetch-in, get_or, leb, le→leb,
}
use ssdiq.Shared.Pattern.{Numerics, PatternGen}
use ssdiq.Shared.Pattern.Access.{among, access_zns}
use ssdiq.Shared.Pattern.Access.Own.{IsLawful}
use ssdiq.Shared.Pattern.Access.Valid.{pick_zone-in}
use ssdiq.Shared.Pattern.Access.Zns.{drawn_at, draw_zone-finds, IsZns, Proceeds}
use ssdiq.Shared.Pattern.Access.Places.{go_on-Proceeds, open-Proceeds}

module _ {D R : Type 0} (num : Numerics D R) (lawful : IsLawful num) where
  -- For lawful distributions and a generator whose active zones are well formed, with weights of a
  -- positive sum: if, after the number that picks a place, one of the next `fuel` zones that are drawn is not active, accessZNS returns a
  -- logical page. It is the next page of the zone at the place that was picked, or, when that zone is
  -- full, the first page of a zone that is at no place, and the active zones stay well formed: no zone
  -- is at two places.
  pub access_zns-Proceeds :
      (fuel k : ℕ) (g : PatternGen D) (r : R)
      → IsZns num lawful g
      → k < fuel
      → among
          (drawn_at num lawful g.zns_zones k (num.uniform_real g.sum_freq r).1)
          g.zns_active_zone_ids
        ≡ false
      → Proceeds num lawful g (access_zns num fuel g r)
  unfolding access_zns
  access_zns-Proceeds fuel k g r z enough free =
      let picked = pick_zone-in num lawful g r z.weighted in
      let i = picked.0 in
      let p = g.options.zns_pages_per_zone in
      let r1 = (num.uniform_real g.sum_freq r).1 in
      let off = get_or g.zns_active_zone_offset i 0 in
      let read =
        fetch-in Fault.undefined_access g.zns_active_zone_offset i 0
          (omega (arith, picked.2, z.offsets)) in
      elim (z.within i picked.2) [
        | inl full ↦
            let zone_word : g.zns_zones < 2 ^ 64 =
              omega (arith, z.covers, z.word, at_most_zones g.zns_zones p z.some_page) in
            let d =
              draw_zone-finds num lawful fuel k g.zns_zones g.zns_active_zone_ids r1 z.some_zone
                zone_word enough free in
            rw (picked.1, read, le→leb p off (omega (arith, full)))
              (open-Proceeds num lawful g z i picked.2 r1 d.0.0 d.3 d.2 fuel d.0.1 full d.1)
        | inr inner ↦
            rw (picked.1, read, gt→leb p off inner.0)
              (go_on-Proceeds num lawful g z i picked.2 r1 inner.0 inner.1)
      ]
    where
      at_most_zones : (n p : ℕ) → 0 < p → n ≤ n * p
      at_most_zones n p h = grind arith

      gt→leb : (a b : ℕ) → b < a → leb a b ≡ false
      gt→leb a b h = ground arith
