-- ===== src/Iob/Raid/Striping.antt =====
-- The addresses of the devices of iob/io/Raid.hpp and those of the array correspond one to one.
use native.Mathlib.Nat.{
  mul-add-div_right, mod-eq_of_lt, mul-add-mod_self_right, div-eq_of_lt, div-add-mod, mod-lt,
}
use ssdiq.Prelude.{
  ℕ, ◌+◌, ◌*◌, ◌/◌, ◌%◌, ◌^◌, ◌<◌, ◌≤◌, ◌≡◌, refl, ◌∙◌, arith, ok, ne→==, add64, mul64,
}
use ssdiq.Iob.Raid.{Raid0, calc}

-- The address of the array that a device's offset stands for.
abbrev pub joined : Raid0 → ℕ → ℕ → ℕ
joined raid device offset =
    ((offset / raid.chunk_size) * raid.device_cnt + device) * raid.chunk_size
    + offset % raid.chunk_size

abbrev pub IsRaid : Raid0 → Type 0
IsRaid raid = (0 < raid.device_cnt) × (0 < raid.chunk_size)

abbrev pub device_of : Raid0 → ℕ → ℕ
device_of raid offset = (offset / raid.chunk_size) % raid.device_cnt

abbrev pub offset_of : Raid0 → ℕ → ℕ
offset_of raid offset =
    ((offset / raid.chunk_size) / raid.device_cnt) * raid.chunk_size + offset % raid.chunk_size

-- The offset on a device is no larger than the address, so that no product wraps.
parts-le : (c d x q r y z : ℕ) → c * q + r ≡ x → d * y + z ≡ q → 0 < d → y * c + r ≤ x
parts-le c d x q r y z e f h = fewer (more d y z h)
  where
    more : (d y z : ℕ) → 0 < d → y ≤ d * y + z
    more d y z h = grind arith

    times : (a b c : ℕ) → a ≤ b → a * c ≤ c * b
    times a b c h = grind arith

    fewer : y ≤ d * y + z → y * c + r ≤ x
    fewer k = omega (arith, times y q c (omega (arith, k, f)), e)

quotient : (c q r : ℕ) → r < c → (q * c + r) / c ≡ q
quotient c q r h = mul-add-div_right (omega arith) q r ∙ omega (arith, div-eq_of_lt h)

remainder : (c q r : ℕ) → r < c → (q * c + r) % c ≡ r
remainder c q r h = mul-add-mod_self_right q c r ∙ mod-eq_of_lt h

module _ (raid : Raid0) (p : IsRaid raid) where
  calc-eq :
      (x : ℕ) → offset_of raid x < 2 ^ 64 → calc raid x ≡ ok (device_of raid x, offset_of raid x)
  unfolding calc
  calc-eq x small =
      let e : add64 (mul64 ((x / raid.chunk_size) / raid.device_cnt) raid.chunk_size)
            (x % raid.chunk_size)
          ≡ offset_of raid x =
        omega (arith, small) in
      rw
        (
          ne→== raid.chunk_size 0 (omega (arith, p.1)),
          ne→== raid.device_cnt 0 (omega (arith, p.0)),
          e,
        )
        refl

  -- `calc` maps an address to a device of the array and to an offset on it that is no larger, and the
  -- address can be had back from them: no two addresses share a place.
  pub calc-joined :
      (x : ℕ)
      → x < 2 ^ 64
      → (calc raid x ≡ ok (device_of raid x, offset_of raid x))
        × (device_of raid x < raid.device_cnt)
        × (offset_of raid x ≤ x)
        × (joined raid (device_of raid x) (offset_of raid x) ≡ x)
  calc-joined x h =
      let q = x / raid.chunk_size in
      let r = x % raid.chunk_size in
      let y = q / raid.device_cnt in
      let small = mod-lt x p.1 in
      let whole = div-add-mod x raid.chunk_size in
      let parts = div-add-mod q raid.device_cnt in
      let le =
        parts-le raid.chunk_size raid.device_cnt x q r y (q % raid.device_cnt) whole parts p.0 in
      (
        calc-eq x (omega (arith, le, h)),
        mod-lt q p.0,
        le,
        rw (quotient raid.chunk_size y r small, remainder raid.chunk_size y r small)
            (again raid.device_cnt raid.chunk_size y (q % raid.device_cnt) q r x parts whole),
      )
    where
      again : (d c y z q r x : ℕ) → d * y + z ≡ q → c * q + r ≡ x → (y * d + z) * c + r ≡ x
      again d c y z q r x e f = grind arith

  -- Each offset on a device is the place of the address that it stands for, if that is a 64-bit number:
  -- no place is left out.
  pub joined-calc :
      (device offset : ℕ)
      → device < raid.device_cnt
      → joined raid device offset < 2 ^ 64
      → calc raid (joined raid device offset) ≡ ok (device, offset)
  joined-calc device o h small =
      let q = o / raid.chunk_size in
      let r = o % raid.chunk_size in
      let chunk = q * raid.device_cnt + device in
      let low = mod-lt o p.1 in
      let back : offset_of raid (joined raid device o) ≡ o =
        rw
          (
            quotient raid.chunk_size chunk r low,
            remainder raid.chunk_size chunk r low,
            quotient raid.device_cnt q device h,
          )
          (swap raid.chunk_size q r o (div-add-mod o raid.chunk_size)) in
      let same : device_of raid (joined raid device o) ≡ device =
        rw (quotient raid.chunk_size chunk r low) (remainder raid.device_cnt q device h) in
      let forth = calc-joined (joined raid device o) small in forth.0 ∙ rw (same, back) refl
    where
      swap : (c q r x : ℕ) → c * q + r ≡ x → q * c + r ≡ x
      swap c q r x e = grind arith
