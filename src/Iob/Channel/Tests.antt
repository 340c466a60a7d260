-- ===== src/Iob/Channel/Tests.antt =====
-- Small runs of the channel, and its theorems at concrete inputs.
use ssdiq.Prelude.{
  ℕ, zero, suc, ◌≡◌, ◌⊎◌, true, ◌*◌, ◌+◌, ◌<◌, refl, arith, [], ◌∷◌, none, err, Fault,
}
use ssdiq.Shared.Hist.{new_hist}
use ssdiq.Iob.Request.{IoBaseRequest, IoRequestType, new_request, copy_fields}
use ssdiq.Iob.Channel.{Raid0Channel, chunk_size, new_channel, raid_push}
use ssdiq.Iob.Channel.Counters.{IoChannelCounters, new_counters}
use ssdiq.Iob.Channel.Push.{
  IsChannel, Pushes, raid_push-cases, raid_push-Pushes, new_channel-IsChannel, nth_request,
}
use ssdiq.Iob.Channel.Submit.{Submits, raid_submit-Submits}
use ssdiq.Iob.Channel.Handed.{IsSendable, CanSend, nth_pushed}
use ssdiq.Iob.Channel.{Lower, raid_poll}
use ssdiq.Iob.Channel.Counted.{IsChannelHist, IsCounters, ScalesIn}
use ssdiq.Iob.Channel.Poll.{AllOutstanding, Polls, raid_poll-Polls}
use ssdiq.Shared.Hist.Slots.{new_hist-IsHist}
use ssdiq.Prelude.{ok, some, false, get_or, ltb, if◌then◌else◌, ◌-◌}
use ssdiq.Iob.RequestStack.{holds}
use ssdiq.Iob.RequestStack.Count.{count, occurs}
use ssdiq.Iob.RequestStack.Ownership.{IsRequest}
use ssdiq.Iob.RequestStack.{new_request_stack}

abbrev no_counters : IoChannelCounters
no_counters = new_counters 0 0

-- Two requests over three devices.
abbrev at_start : Raid0Channel
at_start = new_channel (λ i. none) 3 2 4096 no_counters

at_start-IsChannel : IsChannel at_start
at_start-IsChannel = new_channel-IsChannel (λ i. none) 3 2 4096 no_counters

-- A page in the fifth chunk.
abbrev a_write : IoBaseRequest
a_write = record new_request {
  type = IoRequestType.write;
  addr = 4 * chunk_size + 8192;
  len = 4096;
  write_back = true;
}

raid_push-cases_example :
    ((at_start.request_stack.free ≡ 0) × (raid_push a_write at_start ≡ err Fault.logic_error))
    ⊎ Pushes a_write at_start (raid_push a_write at_start)
unfolding new_channel
raid_push-cases_example = raid_push-cases a_write at_start at_start-IsChannel (λ e. omega arith)

a_write-Pushes : Pushes a_write at_start (raid_push a_write at_start)
unfolding new_channel new_request_stack
a_write-Pushes =
    raid_push-Pushes a_write at_start at_start-IsChannel (λ e. omega arith) (omega arith)

abbrev pushed_once : Raid0Channel
pushed_once = a_write-Pushes.next

pushed_once-IsSendable : IsSendable pushed_once
unfolding new_channel new_request_stack copy_fields
pushed_once-IsSendable = record {
  channel = a_write-Pushes.valid;
  raided = rw a_write-Pushes.same_raid (omega arith);
  sendable = sendable;
  counting = rw a_write-Pushes.same_outstanding (omega arith);
}
  where
    sendable :
        (i : ℕ)
        → i < pushed_once.request_stack.pushed
        → CanSend (nth_request pushed_once (nth_pushed pushed_once i))
    sendable zero h = rw (a_write-Pushes.on_top, a_write-Pushes.filled) (omega arith)
    sendable (suc i) h = absurd (omega (arith, h, a_write-Pushes.one_more))

raid_submit-Submits_example : Submits pushed_once
raid_submit-Submits_example = raid_submit-Submits pushed_once pushed_once-IsSendable

new_hist-IsChannelHist : (to : ℕ) → 0 < to → IsChannelHist (new_hist 0 0 1000 0 to)
new_hist-IsChannelHist to h = record {
  hist = new_hist-IsHist 0 0 1000 0 to h;
  slots = unfold new_hist in refl;
}

no_counters-IsCounters : IsCounters no_counters
no_counters-IsCounters = record {
  read = new_hist-IsChannelHist 10000 (omega arith);
  write = new_hist-IsChannelHist 10000 (omega arith);
  outstanding_read = new_hist-IsChannelHist 2000 (omega arith);
  outstanding_write = new_hist-IsChannelHist 2000 (omega arith);
}

-- The second request is outstanding.
abbrev one_out : Raid0Channel
one_out = record {
  requests = new_request ∷ a_write ∷ [];
  request_stack = record {
    free_stack = some 0 ∷ some 1 ∷ [];
    submit_stack = some 1 ∷ none ∷ [];
    outstanding_set = some 1 ∷ [];
    max_entries = 2;
    free = 1;
    pushed = 0;
  };
  outstanding = 1;
  pushed = 1;
  completed = 0;
  raid = record { device_cnt = 3; chunk_size = chunk_size };
  write_back_buffer_size = 4096;
  counters = no_counters;
}

one_out-IsChannel : IsChannel one_out
unfolding count occurs
one_out-IsChannel = record {
  owned = record {
    free_room = refl;
    submit_room = refl;
    total = refl;
    one = one;
    free_requests = free;
    pushed_requests = λ i h. absurd (omega (arith, h));
    user_requests = tt;
    outstanding_requests = ((1, refl, omega arith), tt);
  };
  sized = refl;
}
  where
    one :
        (r : ℕ)
        → r < 2
        → count r 1 one_out.request_stack.free_stack
            + count r 0 one_out.request_stack.submit_stack
            + occurs r []
            + occurs r one_out.request_stack.outstanding_set
          ≡ 1
    one zero h = refl
    one (suc zero) h = refl
    one (suc (suc r)) h = absurd (omega (arith, h))

    free : (i : ℕ) → i < 1 → IsRequest 2 (get_or one_out.request_stack.free_stack i none)
    free zero h = (0, refl, omega arith)
    free (suc i) h = absurd (omega (arith, h))

-- The channel below returns the second request; the user counts its calls.
abbrev returns_second : Lower ℕ
returns_second = record {
  push = λ i req low. ok low;
  submit = λ low. ok (0, low);
  poll = λ min low. ok (1 ∷ [], low + 1);
}

abbrev counts_calls : IoBaseRequest → ℕ → IoBaseRequest × ℕ
counts_calls req calls = (record req { reuse_request = false }, calls + 1)

-- A slot for each value, the last one for all others.
abbrev plain_scale : ℕ → ℕ → ℕ → ℕ
plain_scale x n size = if ltb x size then x else size - 1

plain_scale-ScalesIn : ScalesIn plain_scale
plain_scale-ScalesIn x n h = ground arith

second_out : AllOutstanding (1 ∷ []) one_out.request_stack.outstanding_set
unfolding AllOutstanding holds
second_out = (refl, tt)

raid_poll-Polls_example :
    Polls counts_calls
      (λ r u. refl)
      plain_scale
      plain_scale-ScalesIn
      (λ i. 7)
      (1 ∷ [])
      one_out
      1
      0
      (raid_poll (λ r u. ok (counts_calls r u)) plain_scale (λ i. 7) returns_second 0 one_out 0 0)
raid_poll-Polls_example =
    raid_poll-Polls counts_calls (λ r u. refl) plain_scale plain_scale-ScalesIn (λ i. 7)
      returns_second 0 (1 ∷ []) one_out 0 1 0 one_out-IsChannel no_counters-IsCounters refl
      second_out
