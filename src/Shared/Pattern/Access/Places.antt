-- ===== src/Shared/Pattern/Access/Places.antt =====
-- What accessZNS of shared/PatternGen.hpp makes of the place that it has picked: it goes on in the zone,
-- or opens a new one.
use ssdiq.Prelude.{
  ℕ, ◌+◌, ◌*◌, ◌^◌, ◌<◌, ◌≤◌, ◌≡◌, ◌≢◌, refl, sym, ap, ◌∙◌, ◌⊎◌, inl, inr, false, arith, ok, Fault,
  fetch-in, store-in, set, length, length-set, get_or, get_or-set_self, get_or-set_ne, add64, mul64,
  dec_lt, ℕ_discrete, subst,
}
use ssdiq.Shared.Pattern.{Numerics, PatternGen}
use ssdiq.Shared.Pattern.Access.{among, draw_zone, open_zone, go_on_in_zone}
use ssdiq.Shared.Pattern.Access.Own.{IsLawful}
use ssdiq.Shared.Pattern.Access.Zns.{among-false, IsZns, Proceeds}

module _ {D R : Type 0} (num : Numerics D R) (lawful : IsLawful num) where
  in_zone : (id n p off : ℕ) → id < n → off < p → id * p + off < n * p
  in_zone id n p off h k = omega (arith, more id n p h, k)
    where
      more : (a b c : ℕ) → a < b → a * c + c ≤ b * c
      more a b c h = grind arith

  module _ (g : PatternGen D) (z : IsZns num lawful g) (i : ℕ) (h : i < length g.access_zones)
      (r : R) where
    abbrev pub offset : ℕ
    offset = get_or g.zns_active_zone_offset i 0

    abbrev pub advanced : PatternGen D
    advanced = record g { zns_active_zone_offset = set g.zns_active_zone_offset i (add64 offset 1) }

    abbrev pub opened : ℕ → PatternGen D
    opened d = record g {
      zns_active_zone_ids = set g.zns_active_zone_ids i d;
      zns_active_zone_offset = set (set g.zns_active_zone_offset i (add64 offset 1)) i 1;
    }

    at_most : (n p : ℕ) → 0 < n → p ≤ n * p
    at_most n p h = omega (arith, more 0 n p h)
      where
        more : (a b c : ℕ) → a < b → a * c + c ≤ b * c
        more a b c h = grind arith

    page_word : g.options.zns_pages_per_zone < 2 ^ 64
    page_word =
        omega
          (arith, z.word, z.covers, at_most g.zns_zones g.options.zns_pages_per_zone z.some_zone)

    offset_listed : i < length g.zns_active_zone_offset
    offset_listed = omega (arith, h, z.offsets)

    id_listed : i < length g.zns_active_zone_ids
    id_listed = omega (arith, h, z.ids)

    module _ (off : offset < g.options.zns_pages_per_zone)
        (own : get_or g.zns_active_zone_ids i 0 < g.zns_zones) where
      advanced_offset : get_or advanced.zns_active_zone_offset i 0 ≡ offset + 1
      advanced_offset =
          get_or-set_self g.zns_active_zone_offset i (add64 offset 1) 0 offset_listed
          ∙ omega (arith, off, page_word)

      advanced-IsZns : IsZns num lawful advanced
      advanced-IsZns = record {
        weighted = record {
          some_zone = z.weighted.some_zone;
          sum = z.weighted.sum;
          positive = z.weighted.positive;
        };
        some_page = z.some_page;
        some_zone = z.some_zone;
        word = z.word;
        covers = z.covers;
        ids = z.ids;
        offsets = length-set g.zns_active_zone_offset i (add64 offset 1) ∙ z.offsets;
        within = moved;
        apart = z.apart;
      }
        where
          moved :
              (j : ℕ)
              → j < length g.access_zones
              → (get_or advanced.zns_active_zone_offset j 0 ≡ g.options.zns_pages_per_zone)
                ⊎ ((get_or advanced.zns_active_zone_offset j 0 < g.options.zns_pages_per_zone)
                    × (get_or g.zns_active_zone_ids j 0 < g.zns_zones))
          moved j k = elim (ℕ_discrete j i) [
            | yes e ↦
                let here : get_or advanced.zns_active_zone_offset j 0 ≡ offset + 1 =
                  ap (λ x. get_or advanced.zns_active_zone_offset x 0) e ∙ advanced_offset in
                elim (dec_lt (offset + 1) g.options.zns_pages_per_zone) [
                  | yes more ↦ inr (
                    omega (arith, here, more),
                    subst (λ x. get_or g.zns_active_zone_ids x 0 < g.zns_zones) (sym e) own,
                  )
                  | no last ↦ inl (omega (arith, here, last, off))
                ]
            | no apart ↦
                rw
                  (get_or-set_ne g.zns_active_zone_offset i j (add64 offset 1) 0
                    (λ e. apart (sym e)))
                  (z.within j k)
          ]

      pub go_on-Proceeds : Proceeds num lawful g (go_on_in_zone num i offset advanced r)
      unfolding go_on_in_zone
      go_on-Proceeds =
          let id = get_or g.zns_active_zone_ids i 0 in
          let p = g.options.zns_pages_per_zone in
          let low = in_zone id g.zns_zones p offset own off in
          let e : add64 (mul64 id p) offset ≡ id * p + offset =
            omega (arith, low, z.covers, z.word) in
          record {
            place = i;
            listed = h;
            page = id * p + offset;
            next = advanced;
            rest = r;
            runs = rw (fetch-in Fault.undefined_access g.zns_active_zone_ids i 0 id_listed, e) refl;
            inside = omega (arith, low, z.covers);
            ready = advanced-IsZns;
            sequential = (omega (arith, advanced_offset), inl (off, refl, advanced_offset));
          }

    module _ (d : ℕ) (fits : d < g.zns_zones) (free : among d g.zns_active_zone_ids ≡ false) where
      opened_id : get_or (opened d).zns_active_zone_ids i 0 ≡ d
      opened_id = get_or-set_self g.zns_active_zone_ids i d 0 id_listed

      other_id :
          (j : ℕ)
          → j ≢ i
          → get_or (opened d).zns_active_zone_ids j 0 ≡ get_or g.zns_active_zone_ids j 0
      other_id j apart = get_or-set_ne g.zns_active_zone_ids i j d 0 (λ e. apart (sym e))

      advanced_listed : i < length advanced.zns_active_zone_offset
      advanced_listed =
          omega (arith, offset_listed, length-set g.zns_active_zone_offset i (add64 offset 1))

      opened_offset : get_or (opened d).zns_active_zone_offset i 0 ≡ 1
      opened_offset = get_or-set_self advanced.zns_active_zone_offset i 1 0 advanced_listed

      opened-within :
          (j : ℕ)
          → j < length g.access_zones
          → (get_or (opened d).zns_active_zone_offset j 0 ≡ g.options.zns_pages_per_zone)
            ⊎ ((get_or (opened d).zns_active_zone_offset j 0 < g.options.zns_pages_per_zone)
                × (get_or (opened d).zns_active_zone_ids j 0 < g.zns_zones))
      opened-within j k = elim (ℕ_discrete j i) [
        | yes e ↦
            subst
              (λ x.
                (get_or (opened d).zns_active_zone_offset x 0 ≡ g.options.zns_pages_per_zone)
                ⊎ ((get_or (opened d).zns_active_zone_offset x 0 < g.options.zns_pages_per_zone)
                    × (get_or (opened d).zns_active_zone_ids x 0 < g.zns_zones)))
              (sym e)
              (elim (dec_lt 1 g.options.zns_pages_per_zone) [
                | yes more ↦
                    inr (omega (arith, opened_offset, more), omega (arith, opened_id, fits))
                | no last ↦ inl (omega (arith, opened_offset, last, z.some_page))
              ])
        | no apart ↦
            rw
              (
                get_or-set_ne advanced.zns_active_zone_offset i j 1 0 (λ e. apart (sym e)),
                get_or-set_ne g.zns_active_zone_offset i j (add64 offset 1) 0 (λ e. apart (sym e)),
                other_id j apart,
              )
              (z.within j k)
      ]

      opened-apart :
          (j k : ℕ)
          → j < length g.access_zones
          → k < length g.access_zones
          → get_or (opened d).zns_active_zone_ids j 0 < g.zns_zones
          → get_or (opened d).zns_active_zone_ids j 0 ≡ get_or (opened d).zns_active_zone_ids k 0
          → j ≡ k
      opened-apart j k hj hk used same = elim (ℕ_discrete j i) [
        | yes e ↦ elim (ℕ_discrete k i) [
          | yes f ↦ e ∙ sym f
          | no apart ↦ absurd (
              among-false d g.zns_active_zone_ids k free (omega (arith, hk, z.ids)) (
                sym (other_id k apart)
                ∙ sym same
                ∙ ap (λ x. get_or (opened d).zns_active_zone_ids x 0) e
                ∙ opened_id))
        ]
        | no apart ↦ elim (ℕ_discrete k i) [
          | yes f ↦ absurd (
              among-false d g.zns_active_zone_ids j free (omega (arith, hj, z.ids)) (
                sym (other_id j apart)
                ∙ same
                ∙ ap (λ x. get_or (opened d).zns_active_zone_ids x 0) f
                ∙ opened_id))
          | no away ↦
              z.apart j k hj hk (subst (λ x. x < g.zns_zones) (other_id j apart) used)
                (sym (other_id j apart) ∙ same ∙ other_id k away)
        ]
      ]

      opened-IsZns : IsZns num lawful (opened d)
      opened-IsZns = record {
        weighted = record {
          some_zone = z.weighted.some_zone;
          sum = z.weighted.sum;
          positive = z.weighted.positive;
        };
        some_page = z.some_page;
        some_zone = z.some_zone;
        word = z.word;
        covers = z.covers;
        ids = length-set g.zns_active_zone_ids i d ∙ z.ids;
        offsets =
            length-set advanced.zns_active_zone_offset i 1
            ∙ length-set g.zns_active_zone_offset i (add64 offset 1)
            ∙ z.offsets;
        within = opened-within;
        apart = opened-apart;
      }

      pub open-Proceeds :
          (fuel : ℕ) (rest : R)
          → offset ≡ g.options.zns_pages_per_zone
          → draw_zone num fuel g.zns_zones g.zns_active_zone_ids r ≡ ok (d, rest)
          → Proceeds num lawful g (open_zone num fuel i advanced r)
      unfolding open_zone
      open-Proceeds fuel rest full draws =
          let p = g.options.zns_pages_per_zone in
          let low = in_zone d g.zns_zones p 0 fits z.some_page in
          let e : add64 (mul64 d p) 0 ≡ d * p = omega (arith, low, z.covers, z.word) in
          record {
            place = i;
            listed = h;
            page = d * p;
            next = opened d;
            rest = rest;
            runs =
                rw
                  (
                    draws,
                    store-in Fault.undefined_access g.zns_active_zone_ids i d id_listed,
                    store-in Fault.undefined_access advanced.zns_active_zone_offset i 1
                        advanced_listed,
                    e,
                  )
                  refl;
            inside = omega (arith, low, z.covers);
            ready = opened-IsZns;
            sequential =
                (rw (opened_id, opened_offset) refl, inr (full, rw opened_id free, opened_offset));
          }
