-- ===== src/Iob/Channel.antt =====
-- The channel that spreads requests over devices: Raid0Channel of iob/io/Raid0Channel.hpp, with IoChannel
-- of iob/io/IoChannel.hpp and iob/io/IoChannel.cpp. The requests are numbered by their place in the
-- stack; `user` numbers the callbacks, whose effects are on a state `U` of the user.
pub mod Counters
pub mod Push
pub mod Handed
pub mod Submit
pub mod Counted
pub mod Poll
mod Tests
use ssdiq.Prelude.{
  ℕ, zero, suc, ◌+◌, ◌-◌, ◌%◌, ◌^◌, ◌*◌, ◌&&◌, Bool, true, false, List, [], ◌∷◌, Option, none, some,
  Result, ok, err, Fault, ◌>>=◌, ◌>>◌, assert, fetch, store, if◌then◌else◌, leb, ltb, ◌==◌, not,
  add64, sub64, length, set, replicate,
}
use ssdiq.Iob.Request.{IoRequestType, IoBaseRequest, new_request, copy_fields}
use ssdiq.Iob.Raid.{Raid0, calc}
use ssdiq.Iob.RequestStack.{
  Pointer, RequestStack, pop_from_free_stack, push_to_submit_stack, pop_from_submit_stack,
  return_to_free_list, new_request_stack,
}
use ssdiq.Iob.Channel.Counters.{IoChannelCounters, handle_completed_req}

abbrev pub chunk_size : ℕ
chunk_size = 1024 * 1024

-- Sums and differences of an `int` in two's complement, by its 32 bits.
abbrev pub add_int : ℕ → ℕ → ℕ
add_int a b = (a + b) % 2 ^ 32

abbrev pub sub_int : ℕ → ℕ → ℕ
sub_int a b = (a + (2 ^ 32 - b % 2 ^ 32)) % 2 ^ 32

-- `outstanding` is an `int`, given by its 32 bits. `requests` are the base requests of the stack.
pub record Raid0Channel : Type 0 where
  pub requests : List IoBaseRequest
  pub request_stack : RequestStack
  pub outstanding : ℕ
  pub pushed : ℕ
  pub completed : ℕ
  pub raid : Raid0
  pub write_back_buffer_size : ℕ
  pub counters : IoChannelCounters

-- The channel to the devices below, with its state `L`: requests go down by their numbers, and a poll
-- returns those that are completed, in the order in which their callbacks are called.
pub record Lower (L : Type 0) : Type 0 where
  pub push : ℕ → IoBaseRequest → L → Result L
  pub submit : L → Result (ℕ × L)
  pub poll : ℕ → L → Result (List ℕ × L)

-- The requests of the stack with the buffers that the environment allocates for them, from `i` on.
unfoldable pub new_requests : (ℕ → Option ℕ) → ℕ → ℕ → List IoBaseRequest
new_requests alloc zero i = []
new_requests alloc (suc rounds) i =
    record new_request { write_back_buffer = alloc i } ∷ new_requests alloc rounds (i + 1)

-- The constructor: `iodepth` requests, the devices of the environment and chunks of `CHUNK_SIZE`.
unfoldable pub new_channel : (ℕ → Option ℕ) → ℕ → ℕ → ℕ → IoChannelCounters → Raid0Channel
new_channel alloc device_count iodepth buffer_size counters = record {
  requests = new_requests alloc iodepth 0;
  request_stack = new_request_stack iodepth;
  outstanding = 0;
  pushed = 0;
  completed = 0;
  raid = record { device_cnt = device_count; chunk_size = chunk_size };
  write_back_buffer_size = buffer_size;
  counters = counters;
}

unfoldable pub get_io_request : Raid0Channel → Result (Option Pointer × Raid0Channel)
get_io_request ch = do
  popped ← pop_from_free_stack ch.request_stack
  ok (popped.0, record ch { request_stack = popped.1 })

-- The request that a pointer points to.
abbrev pub request_of : Pointer → Raid0Channel → Result (ℕ × IoBaseRequest)
request_of none ch = err Fault.undefined_access
request_of (some i) ch = do req ← fetch Fault.undefined_access ch.requests i; ok (i, req)

abbrev pub is_write : IoRequestType → Bool
is_write IoRequestType.write = true
is_write _ = false

-- The data of a write-back request is copied to its own buffer, and fits.
abbrev pub fits_buffer : Raid0Channel → IoBaseRequest → Result (Unit {0})
fits_buffer ch req =
    if is_write req.type && req.write_back
    then assert (leb req.len ch.write_back_buffer_size)
    else ok tt

unfoldable pub push_io_request : Pointer → Raid0Channel → Result Raid0Channel
push_io_request p ch = do
  found ← request_of p ch
  fits_buffer ch found.1
  stack ← push_to_submit_stack p ch.request_stack
  ok (record ch {
    requests = set ch.requests found.0 (record (found.1) { out_of_place_addr = found.1.addr });
    pushed = add64 ch.pushed 1;
    request_stack = stack;
  })

-- The request `p` with the fields of `usr`.
unfoldable pub copy_request : IoBaseRequest → Pointer → Raid0Channel → Result Raid0Channel
copy_request usr p ch = do
  found ← request_of p ch
  ok (record ch { requests = set ch.requests found.0 (copy_fields usr found.1) })

-- `_push`, which is all that IoChannel::push does, since its counters are under `if (false)`.
unfoldable pub raid_push : IoBaseRequest → Raid0Channel → Result Raid0Channel
raid_push usr ch = do
  got ← get_io_request ch
  p ← elim got.0 [ none ↦ err Fault.logic_error | some q ↦ ok q ]
  copied ← copy_request usr p got.1
  push_io_request p copied

module _ {L : Type 0} (lower : Lower L) where
  -- The body of the loop of `_submit`: the address on a device, and the request goes down.
  unfoldable pub dispatch : Pointer → Raid0Channel → L → Result (Raid0Channel × L)
  dispatch p ch low = do
    found ← request_of p ch
    assert (leb (found.1.len) chunk_size)
    place ← calc ch.raid (found.1.addr)
    let sent : IoBaseRequest = record (found.1) { device = place.0; offset = place.1 }
    pushed ← lower.push found.0 sent low
    ok (
      record ch { requests = set ch.requests found.0 sent; outstanding = add_int ch.outstanding 1 },
      pushed,
    )

  -- `while (request_stack.popFromSubmitStack(req))`; a round more than there are requests is enough.
  unfoldable pub submit_loop : ℕ → Raid0Channel → L → Result (Raid0Channel × L)
  submit_loop zero ch low = err Fault.out_of_fuel
  submit_loop (suc fuel) ch low = do
    popped ← pop_from_submit_stack ch.request_stack
    let on : Raid0Channel = record ch { request_stack = popped.1 }
    elim popped.0 [
      | none ↦ ok (on, low)
      | some p ↦ dispatch p on low >>= λ sent. submit_loop fuel sent.0 sent.1
    ]

  unfoldable pub raid_submit : Raid0Channel → L → Result (ℕ × Raid0Channel × L)
  raid_submit ch low = do
    looped ← submit_loop (ch.request_stack.pushed + 1) ch low
    submitted ← lower.submit looped.1
    ok (submitted.0, looped.0, submitted.1)

-- A request that is not reused goes back to the free list.
unfoldable pub release : ℕ → Bool → RequestStack → Result RequestStack
release i reuse stack = if reuse then ok stack else return_to_free_list (some i) stack

-- The inner callback: the user's, then the counters, and the request is free again unless it is reused.
module _ {U : Type 0} (user_callback : IoBaseRequest → U → Result (IoBaseRequest × U))
    (scaled : ℕ → ℕ → ℕ → ℕ) (latency : ℕ → ℕ) where
  unfoldable pub inner_callback : ℕ → Raid0Channel → U → Result (Raid0Channel × U)
  inner_callback i ch u = do
    req ← fetch Fault.undefined_access ch.requests i
    called ← user_callback req u
    counted ← handle_completed_req scaled (called.0.type) (latency i) ch.counters
    let after : Raid0Channel = record ch {
      requests = set ch.requests i called.0;
      counters = counted;
    }
    stack ← release i called.0.reuse_request after.request_stack
    ok (record after { request_stack = stack }, called.1)

  unfoldable pub callback_loop : List ℕ → Raid0Channel → U → Result (Raid0Channel × U)
  callback_loop [] ch u = ok (ch, u)
  callback_loop (i ∷ is) ch u = do
    called ← inner_callback i ch u
    callback_loop is called.0 called.1

  unfoldable pub raid_poll :
      {L : Type 0} → Lower L → ℕ → Raid0Channel → L → U → Result (ℕ × Raid0Channel × L × U)
  raid_poll lower min ch low u = do
    polled ← lower.poll min low
    called ← callback_loop polled.0 ch u
    let ret = length polled.0
    ok (
      ret,
      record (called.0) {
        outstanding = sub_int called.0.outstanding ret;
        completed = add64 called.0.completed ret;
      },
      polled.1,
      called.1,
    )

abbrev pub has_free_io_requests : Raid0Channel → Bool
has_free_io_requests ch = not (ch.request_stack.free == 0)

abbrev pub submitable : Raid0Channel → ℕ
submitable ch = ch.request_stack.pushed

abbrev pub read_stack_full : Raid0Channel → Bool
read_stack_full ch = ch.request_stack.free == 0

-- `free < max_entries * 0.5`.
abbrev pub write_stack_full : Raid0Channel → Bool
write_stack_full ch = ltb (2 * ch.request_stack.free) ch.request_stack.max_entries
