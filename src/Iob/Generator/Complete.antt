-- ===== src/Iob/Generator/Complete.antt =====
-- What RequestGenerator of iob/RequestGenerator.hpp does with a completed request: the callback of runIo,
-- and evaluateIocb.
use ssdiq.Prelude.{
  ℕ, ◌+◌, ◌-◌, ◌*◌, ◌%◌, ◌^◌, ◌&&◌, Bool, true, false, not, List, [], ◌∷◌, ◌++◌, none, some, Result,
  ok, err, Fault, ◌>>=◌, ◌>>◌, fetch, store, if◌then◌else◌, ltb, length, ℤ, pos, negsuc,
}
use ssdiq.Shared.Hist.{increase_slot}
use ssdiq.Iob.Request.{IoRequestType, IoBaseRequest}
use ssdiq.Iob.PageState.{Page, check_buffer}
use ssdiq.Iob.Generator.{JobStats, Generator}

-- The conversion of a `uint64_t` to the `int` of a histogram.
abbrev pub to_int32 : ℕ → ℤ
to_int32 n = let w = n % 2 ^ 32 in if ltb w (2 ^ 31) then pos w else negsuc (2 ^ 32 - 1 - w)

abbrev pub add_trace : IoBaseRequest → Generator → Generator
add_trace req g = record g {
  io_trace =
      g.io_trace
      ++ ((record {
        thread_id = g.gen_id;
        req_id = req.id;
        type = req.type;
        addr = req.addr;
        len = req.len;
      })
          ∷ []);
}

-- `ioTrace.at(evaluatedtIos)`.
unfoldable pub trace_request : IoBaseRequest → Generator → Result Generator
trace_request req g =
    if ltb (length g.io_trace) g.trace_room then ok (add_trace req g) else err Fault.out_of_range

-- The counters without the tracking of latencies; any other type raises SIGTRAP.
unfoldable pub count_request : IoRequestType → JobStats → Result JobStats
count_request IoRequestType.read s = ok (record s { reads = s.reads + 1 })
count_request IoRequestType.write s = ok (record s { writes = s.writes + 1 })
count_request IoRequestType.fsync s = ok (record s { fdatasyncs = s.fdatasyncs + 1 })
count_request _ s = err Fault.interrupted

-- The address and the pages that `req->data` points to.
abbrev pub data_of : IoRequestType → ℕ → Generator → ℕ × List (List Page)
data_of IoRequestType.read i g = (g.rd + g.options.bs * i, g.read_data)
data_of _ i g = (g.wd + g.options.bs * i, g.write_data)

unfoldable pub checks_data : IoRequestType → Bool
checks_data IoRequestType.write = true
checks_data IoRequestType.read = true
checks_data _ = false

unfoldable pub check_request :
    (ℤ → ℤ → List ℕ → ℤ → ℕ) → IoBaseRequest → Generator → Result (Unit {0})
check_request xxh32 req g = do
  i ← elim req.data_buffer [ none ↦ err Fault.undefined_access | some j ↦ ok j ]
  pages ← fetch Fault.undefined_access (data_of req.type i g).1 i
  check_buffer xxh32 g.file_state (data_of req.type i g).0 pages req.addr req.len

-- `availableReqStack[availableReqStackCnt++] = id`.
unfoldable pub put_id : ℕ → Generator → Result Generator
put_id id g = do
  stack ← store Fault.undefined_access g.available_req_stack g.available_req_stack_cnt id
  ok (record g {
    available_req_stack = stack;
    available_req_stack_cnt = g.available_req_stack_cnt + 1;
  })

-- `scaled` is the floating point scaling of the histograms.
module _ (scaled : ℕ → ℕ → ℕ → ℕ) where
  unfoldable pub time_fsync : ℕ → JobStats → Result JobStats
  time_fsync this_time s = do
    all ← increase_slot scaled (to_int32 this_time) s.fdatasync_hist
    second ← increase_slot scaled (to_int32 this_time) s.fdatasync_hist_every_second
    ok (record s {
      fdatasync_total_time = s.fdatasync_total_time + this_time;
      fdatasync_hist = all.1;
      fdatasync_hist_every_second = second.1;
      fdatasyncs = s.fdatasyncs + 1;
    })

  unfoldable pub time_read : ℕ → JobStats → Result JobStats
  time_read this_time s = do
    all ← increase_slot scaled (to_int32 this_time) s.read_hist
    second ← increase_slot scaled (to_int32 this_time) s.read_hist_every_second
    ok (record s {
      read_total_time = s.read_total_time + this_time;
      read_hist = all.1;
      reads = s.reads + 1;
      read_hist_every_second = second.1;
    })

  unfoldable pub time_write : ℕ → JobStats → Result JobStats
  time_write this_time s = do
    all ← increase_slot scaled (to_int32 this_time) s.write_hist
    second ← increase_slot scaled (to_int32 this_time) s.write_hist_every_second
    ok (record s {
      write_total_time = s.write_total_time + this_time;
      write_hist = all.1;
      write_hist_every_second = second.1;
      writes = s.writes + 1;
    })

  -- With the tracking of latencies every other type counts as a write.
  unfoldable pub time_request : IoRequestType → ℕ → JobStats → Result JobStats
  time_request IoRequestType.fsync this_time s = time_fsync this_time s
  time_request IoRequestType.read this_time s = time_read this_time s
  time_request _ this_time s = time_write this_time s

  -- `this_time` is the time since the request was pushed, in us. The sum of first words that is
  -- returned is not used.
  unfoldable pub evaluate_iocb : IoBaseRequest → ℕ → Generator → Result Generator
  evaluate_iocb req this_time g = do
    traced ← if g.options.enable_io_tracing then trace_request req g else ok g
    stats ←
        if g.options.enable_lateny_tracking
        then time_request req.type this_time traced.stats
        else count_request req.type traced.stats
    ok (record traced { stats = stats })

  -- The callback.
  unfoldable pub complete_request :
      (ℤ → ℤ → List ℕ → ℤ → ℕ) → IoBaseRequest → ℕ → Generator → Result Generator
  complete_request xxh32 req this_time g =
      (if checks_data req.type && not g.options.disable_checks
        then check_request xxh32 req g
        else ok tt)
      >> (do evaluated ← evaluate_iocb req this_time g; put_id req.id evaluated)
