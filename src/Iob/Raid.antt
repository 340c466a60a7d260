-- ===== src/Iob/Raid.antt =====
-- The striping of addresses over devices: class Raid0 of iob/io/Raid.hpp.
pub mod Striping
use ssdiq.Prelude.{
  ℕ, ◌+◌, ◌/◌, ◌%◌, ◌||◌, Result, ok, err, Fault, if◌then◌else◌, ◌==◌, add64, mul64,
}

-- Both members are positive `int`s.
pub record Raid0 : Type 0 where
  pub device_cnt : ℕ
  pub chunk_size : ℕ

-- The device and the offset on it. A division by zero has no meaning in C++.
unfoldable pub calc : Raid0 → ℕ → Result (ℕ × ℕ)
calc raid offset =
    let chunk = offset / raid.chunk_size in
    let offset_in_chunk = offset % raid.chunk_size in
    if raid.chunk_size == 0 || raid.device_cnt == 0
    then err Fault.undefined_access
    else ok (
      chunk % raid.device_cnt,
      add64 (mul64 (chunk / raid.device_cnt) raid.chunk_size) offset_in_chunk,
    )
