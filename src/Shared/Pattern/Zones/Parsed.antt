-- ===== src/Shared/Pattern/Zones/Parsed.antt =====
-- parseZoneSizes of shared/PatternGen.hpp: the patterns of the zones that it reads.
use ssdiq.Prelude.{
  ℕ, zero, suc, ◌+◌, inl, inr, ◌≡◌, true, false, Bool, List, [], ◌∷◌, ◌++◌, ok, err, Result, Fault,
  bind-ok, ◌>>=◌, if◌then◌else◌, Bool-cases, subst, take, ◌&&◌, not,
}
use ssdiq.Shared.Text.{codes, starts_with, text_eq, drop_text, words_of}
use ssdiq.Shared.Pattern.{Pattern, Numerics, AccessZone}
use ssdiq.Shared.Pattern.Zones.{
  ZoneWords, new_zone, no_words, add_zone, zone_word, zone_words, parse_zone_sizes, zone_loop,
}

-- The patterns that a word of a zone string can name.
unfoldable pub IsZonePattern : Pattern → Type 0
IsZonePattern Pattern.sequential = Unit
IsZonePattern Pattern.uniform = Unit
IsZonePattern Pattern.zipf = Unit
IsZonePattern _ = ⊥

unfoldable pub AreZonePatterns : {D : Type 0} → List (AccessZone D) → Type 0
AreZonePatterns [] = Unit
AreZonePatterns (z ∷ zs) = IsZonePattern z.pattern × AreZonePatterns zs

AreZonePatterns-append :
    {D : Type 0} (zs : List (AccessZone D)) (z : AccessZone D)
    → AreZonePatterns zs
    → IsZonePattern z.pattern
    → AreZonePatterns (zs ++ (z ∷ []))
unfolding AreZonePatterns
AreZonePatterns-append [] z h k = (k, tt)
AreZonePatterns-append (x ∷ xs) z h k = (h.0, AreZonePatterns-append xs z h.1 k)

module _ {D R : Type 0} (num : Numerics D R) where
  abbrev Named : ZoneWords D → Type 0
  Named w = IsZonePattern w.pattern × AreZonePatterns w.zones

  abbrev Names : Result (ZoneWords D) → Type 0
  Names m = (next : ZoneWords D) → m ≡ ok next → Named next

  either : (b : Bool) {x y : Result (ZoneWords D)} → Names x → Names y → Names (if b then x else y)
  either true h k = h
  either false h k = k

  Names-ok : (w : ZoneWords D) → Named w → Names (ok w)
  Names-ok w h next e = subst Named (ok_injective w next e) h
    where
      ok_injective : (a b : ZoneWords D) → ok a ≡ ok b → a ≡ b
      ok_injective a b e = cc

  fails : (fault : Fault) → Names (err fault)
  fails fault next e = absurd (from e)
    where
      from : ¬ (err fault ≡ ok next)
      from e = cc

  after :
      (m : Result D) (f : D → ZoneWords D) → ((x : D) → Named (f x)) → Names (m >>= λ x. ok (f x))
  after (err fault) f h next e = fails fault next e
  after (ok x) f h next e = Names-ok (f x) (h x) next e

  add_zone-Named : (w : ZoneWords D) → Named w → Named (add_zone num w)
  unfolding add_zone no_words new_zone IsZonePattern
  add_zone-Named w h = elim (Bool-cases (num.less num.zero_real w.size)) [
    | inl e ↦ rw e (
      tt,
      AreZonePatterns-append w.zones (new_zone num w.size w.freq w.pattern w.skew_factor w.shuffle)
          h.1 h.0,
    )
    | inr e ↦ rw e h
  ]

  zone_word-Names : (value : List ℕ) (w : ZoneWords D) → Named w → Names (zone_word num value w)
  unfolding zone_word IsZonePattern
  zone_word-Names value w h =
      either
        (starts_with (codes "s") value
          && (not (text_eq value (codes "shuffle")) && not (text_eq value (codes "sequential"))))
        (after (num.stod (drop_text 1 value)) (λ x. record (add_zone num w) { size = x })
          (λ x. add_zone-Named w h))
        (either (starts_with (codes "f") value)
          (after (num.stod (drop_text 1 value)) (λ x. record w { freq = x }) (λ x. h))
          (either (text_eq value (codes "uniform"))
            (Names-ok (record w { pattern = Pattern.uniform }) (tt, h.1))
            (either (text_eq (take 4 value) (codes "zipf"))
              (after (num.stod (drop_text 4 value))
                (λ x. record w { pattern = Pattern.zipf; skew_factor = x }) (λ x. (tt, h.1)))
              (either (text_eq value (codes "sequential"))
                (Names-ok (record w { pattern = Pattern.sequential }) (tt, h.1))
                (either (text_eq value (codes "shuffle")) (Names-ok (record w { shuffle = true }) h)
                  (either (text_eq value (codes "noshuffle"))
                    (Names-ok (record w { shuffle = false }) h) (fails Fault.ensure_failed)))))))

  zone_words-Names :
      (words : List (List ℕ)) (w : ZoneWords D) → Named w → Names (zone_words num words w)
  unfolding zone_words
  zone_words-Names [] w h next e = Names-ok w h next e
  zone_words-Names (value ∷ rest) w h next e =
      let first = bind-ok (zone_word num value w) (zone_words num rest) e in
      zone_words-Names rest first.0 (zone_word-Names value w h first.0 first.1) next first.2

  pub parse_zone_sizes-AreZonePatterns :
      (s : List ℕ) (zones : List (AccessZone D))
      → parse_zone_sizes num s ≡ ok zones
      → AreZonePatterns zones
  unfolding parse_zone_sizes no_words IsZonePattern AreZonePatterns
  parse_zone_sizes-AreZonePatterns s zones e =
      let read =
        bind-ok (zone_words num (words_of s) (no_words num)) (λ w. ok (add_zone num w).zones) e in
      let named = zone_words-Names (words_of s) (no_words num) (tt, tt) read.0 read.1 in
      subst AreZonePatterns (same (add_zone num read.0).zones zones read.2)
        (add_zone-Named read.0 named).1
    where
      same : (xs ys : List (AccessZone D)) → ok xs ≡ ok ys → xs ≡ ys
      same xs ys e = cc

  pub zone_loop-AreZonePatterns :
      (rounds zones i : ℕ) → AreZonePatterns (zone_loop num rounds zones i)
  unfolding zone_loop new_zone IsZonePattern AreZonePatterns
  zone_loop-AreZonePatterns zero zones i = tt
  zone_loop-AreZonePatterns (suc rounds) zones i =
      (tt, zone_loop-AreZonePatterns rounds zones (i + 1))
