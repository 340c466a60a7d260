-- ===== src/Iob/Generator/Returned.antt =====
-- A completed request of iob/RequestGenerator.hpp is counted once and becomes available again.
use ssdiq.Prelude.{
  ℕ, ◌+◌, ◌<◌, ◌≡◌, refl, Bool, true, false, not, ◌&&◌, List, inl, inr, ok, Result, ℤ, length,
  lt→ltb, Bool-cases, if◌then◌else◌,
}
use ssdiq.Iob.Request.{IoRequestType, IoBaseRequest}
use ssdiq.Iob.Generator.{JobStats, IoStat, Generator}
use ssdiq.Iob.Generator.Complete.{
  add_trace, trace_request, count_request, time_request, evaluate_iocb, check_request, checks_data,
  complete_request,
}
use ssdiq.Iob.Generator.Ids.{occurs_id, remove_id}
use ssdiq.Iob.Generator.Flight.{IsHeld, put_id-IsHeld}
use ssdiq.Iob.Generator.Times.{
  AreTimed, completed, Counts, IsMade, time_request-Counts, count_request-Counts,
}

-- A completed request, counted and given back.
pub record Completes (flight : List ℕ) (req : IoBaseRequest) (g : Generator) (m : Result Generator)
    : Type 0 where
  pub next : Generator
  pub runs : m ≡ ok next
  pub one_more : completed next.stats ≡ completed g.stats + 1
  pub timed : AreTimed next.stats
  pub same_options : next.options ≡ g.options
  pub held : IsHeld (remove_id req.id flight) next

module _ (scaled : ℕ → ℕ → ℕ → ℕ) (law : (x : ℕ) → x < 19999 → scaled x 19999 20000 < 20000) where
  stats-Counts :
      (b : Bool) (type : IoRequestType) (this_time : ℕ) (s : JobStats)
      → IsMade type
      → AreTimed s
      → Counts s (if b then time_request scaled type this_time s else count_request type s)
  stats-Counts true type this_time s m t = time_request-Counts scaled law type this_time s m t
  stats-Counts false type this_time s m t = count_request-Counts scaled law type s m t

  trace-ok :
      (req : IoBaseRequest) (g : Generator)
      → (g.options.enable_io_tracing ≡ true → length g.io_trace < g.trace_room)
      → (entries : List IoStat) × ((if g.options.enable_io_tracing
            then trace_request req g
            else ok g)
          ≡ ok (record g { io_trace = entries }))
  unfolding trace_request
  trace-ok req g room = elim (Bool-cases g.options.enable_io_tracing) [
    | inl e ↦
        ((add_trace req g).io_trace, rw (e, lt→ltb (length g.io_trace) g.trace_room (room e)) refl)
    | inr e ↦ (g.io_trace, rw e refl)
  ]

  evaluate_iocb-ok :
      (req : IoBaseRequest) (this_time : ℕ) (g : Generator)
      → AreTimed g.stats
      → IsMade req.type
      → (g.options.enable_io_tracing ≡ true → length g.io_trace < g.trace_room)
      → (entries : List IoStat) × (stats : JobStats) × (evaluate_iocb scaled req this_time g
          ≡ ok (record g { io_trace = entries; stats = stats }))
        × (completed stats ≡ completed g.stats + 1)
        × AreTimed stats
  unfolding evaluate_iocb
  evaluate_iocb-ok req this_time g t m room =
      let e = trace-ok req g room in
      let c = stats-Counts g.options.enable_lateny_tracking req.type this_time g.stats m t in
      (e.0, c.next, rw (e.1, c.runs) refl, c.one_more, c.timed)

  -- If the scaling keeps the latencies within the histograms, the request is a read, a write or an fsync
  -- in flight, every request is available or in flight, there is room in the trace if it is kept, and the
  -- data passes its checks if they are made, then the callback ends, counts one request and makes it
  -- available: it is no longer in flight, and every request is still available or in flight.
  pub complete_request-Completes :
      (xxh32 : ℤ → ℤ → List ℕ → ℤ → ℕ) (flight : List ℕ) (req : IoBaseRequest) (this_time : ℕ)
      (g : Generator)
      → IsHeld flight g
      → AreTimed g.stats
      → IsMade req.type
      → 0 < occurs_id req.id flight
      → req.id < g.options.iodepth
      → (g.options.enable_io_tracing ≡ true → length g.io_trace < g.trace_room)
      → (checks_data req.type && not g.options.disable_checks ≡ true
          → check_request xxh32 req g ≡ ok tt)
      → Completes flight req g (complete_request scaled xxh32 req this_time g)
  unfolding complete_request
  complete_request-Completes xxh32 flight req this_time g h t m flies small room passes =
      let e = evaluate_iocb-ok req this_time g t m room in
      let evaluated : Generator = record g { io_trace = e.0; stats = e.1 } in
      let held : IsHeld flight evaluated = record {
        room = h.room;
        total = h.total;
        one = h.one;
        ids = h.ids;
      } in
      let back = put_id-IsHeld flight evaluated held req.id flies small in
      record {
        next = record evaluated {
          available_req_stack = back.0;
          available_req_stack_cnt = g.available_req_stack_cnt + 1;
        };
        runs =
            rw
              (
                checked (checks_data req.type && not g.options.disable_checks)
                    (check_request xxh32 req g) passes,
                e.2,
                back.1,
              )
              refl;
        one_more = e.3;
        timed = e.4;
        same_options = refl;
        held = back.2;
      }
    where
      checked :
          (b : Bool) (x : Result (Unit {0}))
          → (b ≡ true → x ≡ ok tt)
          → (if b then x else ok tt) ≡ ok tt
      checked true x f = f refl
      checked false x f = refl
