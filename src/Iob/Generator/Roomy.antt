-- ===== src/Iob/Generator/Roomy.antt =====
-- The channels that the loops of iob/RequestGenerator.hpp push to: they have room for some requests, as
-- Raid0Channel of iob/io/Raid0Channel.hpp has for its free ones.
use ssdiq.Prelude.{ℕ, ◌+◌, ◌<◌, ◌≡◌, ◌&&◌, true, false, List, ok, Result}
use ssdiq.Iob.Request.{IoBaseRequest}
use ssdiq.Iob.Generator.Run.{Channel, Completion}
use ssdiq.Iob.Channel.{Raid0Channel, raid_push, is_write}
use ssdiq.Iob.Channel.Push.{IsChannel, Fits, raid_push-Pushes}

-- A channel that is `Open` with room left takes every request that is not written back, stays open, and
-- has room for one request less.
pub record IsRoomy {C : Type 0} (channel : Channel C) (Open : C → Type 0) (room : C → ℕ)
    : Type 0 where
  pub take :
      (c : C) (req : IoBaseRequest)
      → Open c
      → 0 < room c
      → req.write_back ≡ false
      → (d : C) × (channel.push req c ≡ ok d) × Open d × (room d + 1 ≡ room c)

-- A Raid0Channel as the generator sees it, with any way to submit and to poll.
abbrev pub raid_channel :
    (Raid0Channel → Result Raid0Channel)
    → (Raid0Channel → Result (List Completion × Raid0Channel))
    → Channel Raid0Channel
raid_channel submit poll = record { push = raid_push; submit = submit; poll = poll }

abbrev pub free_requests : Raid0Channel → ℕ
free_requests ch = ch.request_stack.free

pub raid_channel-IsRoomy :
    (submit : Raid0Channel → Result Raid0Channel)
    (poll : Raid0Channel → Result (List Completion × Raid0Channel))
    → IsRoomy (raid_channel submit poll) IsChannel free_requests
raid_channel-IsRoomy submit poll = record {
  take = λ ch req v left plain.
      let p = raid_push-Pushes req ch v (fits ch req plain) left in
      (p.next, p.runs, p.valid, p.one_less);
}
  where
    fits : (ch : Raid0Channel) (req : IoBaseRequest) → req.write_back ≡ false → Fits ch req
    fits ch req plain e = absurd (never (is_write req.type) (rw plain at e))
      where
        never : (b : _) → (b && false) ≡ true → ⊥
        never true e = cc
        never false e = cc
