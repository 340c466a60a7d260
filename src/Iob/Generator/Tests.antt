-- ===== src/Iob/Generator/Tests.antt =====
-- A small generator of iob/RequestGenerator.hpp, and the theorems on it.
use native.Mathlib.Nat.{mod-lt}
use ssdiq.Prelude.{
  ℕ, ◌≤◌, zero, suc, ◌+◌, ◌*◌, ◌/◌, ◌%◌, ◌^◌, ◌<◌, ◌≡◌, refl, inl, true, false, not, ◌&&◌, List, [],
  ◌∷◌, none, some, arith, ok, err, Result, Fault, ℤ, pos, minus_one, length, get_or,
}
use ssdiq.Shared.Pattern.{PatternGen}
use ssdiq.Shared.Hist.{new_hist}
use ssdiq.Shared.Hist.Slots.{new_hist-IsHist}
use ssdiq.Iob.Request.{IoRequestType, IoBaseRequest, new_request}
use ssdiq.Iob.PageState.{Page}
use ssdiq.Iob.PageState.RoundTrip.{IsBuffer}
use ssdiq.Iob.Generator.{JobOptions, Generator, all_ids, new_generator, prepare_request}
use ssdiq.Iob.Generator.Complete.{check_request, checks_data, complete_request}
use ssdiq.Iob.Generator.Run.{Channel, Round, start_request, fill_loop}
use ssdiq.Iob.Generator.Ids.{count_id, occurs_id}
use ssdiq.Iob.Generator.Prepare.{IsJob, IsGenerator, HasPage, Prepared, due}
use ssdiq.Iob.Generator.Requests.{IsSynced, prepare_request-Prepared, prepare_request-IsSynced}
use ssdiq.Iob.Generator.Flight.{IsHeld, all_ids-IsHeld}
use ssdiq.Iob.Generator.Started.{Starts, start_request-Starts, zns_fsync-fails}
use ssdiq.Iob.Generator.Times.{AreTimed, IsLatency, IsMade}
use ssdiq.Iob.Generator.Returned.{Completes, complete_request-Completes}
use ssdiq.Iob.Generator.Fill.{Supplies, Fills, fill_loop-Fills}
use ssdiq.Iob.Generator.Roomy.{raid_channel, free_requests, raid_channel-IsRoomy}
use ssdiq.Iob.Channel.{Raid0Channel, new_channel}
use ssdiq.Iob.Channel.Push.{IsChannel, new_channel-IsChannel}
use ssdiq.Iob.Channel.Counters.{new_counters}
use ssdiq.Iob.RequestStack.{new_request_stack}
use ssdiq.Shared.Pattern.{Pattern}

-- Two requests on nine blocks of one page behind an offset of one page, with an fsync after two writes.
abbrev job : JobOptions
job = record {
  filesize = 40960;
  offset = 4096;
  iodepth = 2;
  bs = 4096;
  io_size = minus_one;
  fdatasync = 2;
  disable_checks = true;
  track_pattern_access = true;
  enable_io_tracing = false;
  enable_lateny_tracking = true;
}

abbrev page : Page
page = record { id = pos 0; version = pos 0; words = 1 ∷ 2 ∷ []; end_id = pos 0; checksum = 0 }

abbrev at_start : Generator
at_start =
    new_generator 0 job (record { crc = true; random_data = true }) 0 8192 16384 (page ∷ []) 9

abbrev nine : ℕ → Result (ℕ × ℕ)
nine p = ok (p % 9, p + 1)

nine-lt : (p : ℕ) → p % 9 < 9
nine-lt p = mod-lt p (omega arith)

abbrev sum_up : ℤ → ℤ → List ℕ → ℤ → ℕ
sum_up id version words end_id = length words

job-IsJob : IsJob job
job-IsJob = record {
  some_byte = omega arith;
  starts = omega arith;
  word = omega arith;
  pages = refl;
  sectors = refl;
  sector = refl;
}

at_start-IsGenerator : IsGenerator at_start
unfolding new_generator
at_start-IsGenerator = record {
  job = job-IsJob;
  buffers = refl;
  aligned = aligned;
  tracked = inl refl;
}
  where
    aligned :
        (i : ℕ)
        → i < 2
        → IsBuffer (16384 + 4096 * i) 4096 (get_or ((page ∷ []) ∷ (page ∷ []) ∷ []) i [])
    aligned zero h = record { whole = refl; aligned = refl; holds = omega arith }
    aligned (suc zero) h = record { whole = refl; aligned = refl; holds = omega arith }
    aligned (suc (suc i)) h = absurd (omega (arith, h))

at_start-IsHeld : IsHeld [] at_start
unfolding new_generator
at_start-IsHeld = all_ids-IsHeld at_start refl refl

nine-Supplies : Supplies nine (λ p. Unit {0}) at_start.options at_start.logical_pages
unfolding new_generator
nine-Supplies = record { supply = λ p ready. (p % 9, p + 1, refl, nine-lt p, nine-lt p, tt) }

at_start-HasPage : (p : ℕ) → HasPage nine at_start p
unfolding new_generator
at_start-HasPage p = record {
  block = p % 9;
  rest = p + 1;
  drawn = refl;
  inside = nine-lt p;
  logical = nine-lt p;
}

at_start-IsSynced : IsSynced at_start
unfolding new_generator
at_start-IsSynced = record { not_ahead = omega arith; few = omega arith }

asked : 0 < at_start.options.fdatasync
unfolding new_generator
asked = omega arith

small : at_start.options.fdatasync < 2 ^ 63
unfolding new_generator
small = omega arith

few : at_start.prepared_writes + 1 < 2 ^ 64
unfolding new_generator
few = omega arith

abbrev second : IoBaseRequest
second = record new_request { id = 1 }

own : second.id < at_start.options.iodepth
unfolding new_generator
own = omega arith

prepare_request-Prepared_example :
    Prepared nine sum_up true second at_start 5
      (prepare_request nine sum_up true (λ i. i) second at_start 5)
prepare_request-Prepared_example =
    prepare_request-Prepared nine sum_up (λ i. i) second at_start 5 at_start-IsGenerator
      (at_start-HasPage 5) own true

prepare_request-IsSynced_example :
    IsSynced
      (prepare_request-Prepared nine sum_up
        (λ i. i)
        second
        at_start
        5
        at_start-IsGenerator
        (at_start-HasPage 5)
        own
        true).next
prepare_request-IsSynced_example =
    prepare_request-IsSynced nine sum_up (λ i. i) second at_start 5 at_start-IsGenerator
      (at_start-HasPage 5) own true asked small few at_start-IsSynced

-- A channel that keeps all requests.
abbrev keeper : Channel (List IoBaseRequest)
keeper = record { push = λ r c. ok (r ∷ c); submit = λ c. ok c; poll = λ c. ok ([], c) }

abbrev scaled : ℕ → ℕ → ℕ → ℕ
scaled x n size = x * size / n

left : 0 < at_start.available_req_stack_cnt
unfolding new_generator
left = omega arith

start_request-Starts_example :
    Starts nine keeper sum_up scaled [] at_start 5 []
      (start_request nine keeper sum_up scaled none true (λ i. i) at_start 5 [])
start_request-Starts_example =
    start_request-Starts nine keeper sum_up scaled [] none true (λ i. i) at_start 5 []
      at_start-IsGenerator tt (at_start-HasPage 5) at_start-IsHeld left (λ r plain. (r ∷ [], refl))

abbrev synced : Generator
synced = record at_start { prepared_writes = 2 }

synced-due : due synced ≡ true
unfolding new_generator
synced-due = refl

synced-IsHeld : IsHeld [] synced
unfolding new_generator
synced-IsHeld = all_ids-IsHeld synced refl refl

zns_fsync-fails_example :
    start_request nine keeper sum_up scaled (some 8) true (λ i. i) synced 5 []
    ≡ err Fault.ensure_failed
zns_fsync-fails_example =
    zns_fsync-fails nine keeper sum_up scaled [] 8 true (λ i. i) synced 5 [] synced-IsHeld left
      synced-due

abbrev open_round : Round
open_round = record {
  keep_running = true;
  no_break = true;
  lets = λ i. true;
  writes = λ i. true;
  rand = λ i j. i + j;
}

-- A channel with two requests over three devices.
abbrev two_free : Raid0Channel
two_free = new_channel (λ i. none) 3 2 4096 (new_counters 0 0)

two_free-IsChannel : IsChannel two_free
two_free-IsChannel = new_channel-IsChannel (λ i. none) 3 2 4096 (new_counters 0 0)

abbrev to_raid : Channel Raid0Channel
to_raid = raid_channel (λ ch. ok ch) (λ ch. ok ([], ch))

room_for_all : at_start.available_req_stack_cnt ≤ two_free.request_stack.free
unfolding new_generator new_channel new_request_stack
room_for_all = omega arith

fill_loop-Fills_example :
    Fills nine to_raid sum_up scaled
      (λ p. Unit {0})
      IsChannel
      free_requests
      open_round
      []
      at_start
      0
      (fill_loop nine to_raid sum_up scaled at_start.available_req_stack_cnt none open_round 0
        at_start 5 two_free)
fill_loop-Fills_example =
    fill_loop-Fills nine to_raid sum_up scaled (λ p. Unit {0}) IsChannel free_requests none
      open_round [] at_start 5 two_free at_start-IsGenerator tt at_start-IsHeld nine-Supplies tt
      (raid_channel-IsRoomy (λ ch. ok ch) (λ ch. ok ([], ch))) two_free-IsChannel room_for_all

-- Request 1 is in flight.
abbrev taken : Generator
taken = record at_start { available_req_stack_cnt = 1 }

taken-IsHeld : IsHeld (1 ∷ []) taken
unfolding new_generator all_ids count_id occurs_id
taken-IsHeld = record { room = refl; total = refl; one = one; ids = ids }
  where
    one : (r : ℕ) → r < 2 → count_id r 1 (0 ∷ 1 ∷ []) + occurs_id r (1 ∷ []) ≡ 1
    one zero h = refl
    one (suc zero) h = refl
    one (suc (suc r)) h = absurd (omega (arith, h))

    ids : (i : ℕ) → i < 1 → get_or (0 ∷ 1 ∷ []) i 0 < 2
    ids zero h = omega arith
    ids (suc i) h = absurd (omega (arith, h))

latency : IsLatency (new_hist 0 0 20000 0 19999)
unfolding new_hist
latency = record {
  valid = new_hist-IsHist 0 0 20000 0 19999 (omega arith);
  size = refl;
  from = refl;
  to = refl;
}

taken-AreTimed : AreTimed taken.stats
unfolding new_generator
taken-AreTimed = record {
  read = latency;
  write = latency;
  fdatasync = latency;
  read_second = latency;
  write_second = latency;
  fdatasync_second = latency;
}

abbrev done : IoBaseRequest
done = record new_request {
  id = 1;
  type = IoRequestType.write;
  addr = 4096;
  len = 4096;
  data_buffer = some 1;
}

complete_request-Completes_example :
    Completes (1 ∷ []) done taken (complete_request scaled sum_up done 120 taken)
complete_request-Completes_example =
    complete_request-Completes scaled within sum_up (1 ∷ []) done 120 taken taken-IsHeld
      taken-AreTimed made flies done_own no_trace no_checks
  where
    within : (x : ℕ) → x < 19999 → x * 20000 / 19999 < 20000
    within x h = omega (arith, h)

    made : IsMade IoRequestType.write
    made = unfold IsMade in tt

    flies : 0 < occurs_id 1 (1 ∷ [])
    flies = unfold occurs_id in omega arith

    done_own : 1 < taken.options.iodepth
    done_own = unfold new_generator in omega arith

    no_trace : taken.options.enable_io_tracing ≡ true → length taken.io_trace < taken.trace_room
    no_trace e = unfold new_generator in cc

    no_checks :
        checks_data done.type && not taken.options.disable_checks ≡ true
        → check_request sum_up done taken ≡ ok tt
    no_checks e = absurd (from (unfold checks_data new_generator in e))
      where
        from : ¬ (false ≡ true)
        from e = cc

-- No trace is replayed.
abbrev no_trace : PatternGen ℕ → ℕ → Result (ℕ × PatternGen ℕ × ℕ)
no_trace g r = err Fault.runtime_error

-- Pages one after the other.
abbrev in_sequence : PatternGen ℕ
in_sequence = record {
  own = record {
    pattern = Pattern.sequential;
    logical_pages = 9;
    skew_factor = 0;
    shuffle = false;
    shuffle_vector = [];
    seq = 0;
  };
  options = record {
    pattern_string = [];
    zones_string = [];
    logical_pages = 9;
    alpha = 1;
    beta = 1;
    skew_factor = 0;
    writes_in_disk_overwrites = 1;
    total_writes = 9;
    page_size = 4096;
    sector_size = 512;
    zns_active_zones = 2;
    zns_zone_size_str = [];
    zns_pages_per_zone = 8;
  };
  sum_freq = 0;
  access_zones = [];
  zns_zones = 0;
  zns_active_zone_ids = [];
  zns_active_zone_offset = [];
  trace_accessed_pages = false;
  accessed_pages = [];
}
