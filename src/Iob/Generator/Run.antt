-- ===== src/Iob/Generator/Run.antt =====
-- The run of a generator: runIo of iob/RequestGenerator.hpp, over a channel.
use ssdiq.Prelude.{
  ℕ, zero, suc, ◌+◌, ◌-◌, ◌==◌, ◌&&◌, ◌||◌, Bool, not, List, [], ◌∷◌, Option, none, some, Result,
  ok, err, Fault, ◌>>=◌, ◌>>◌, ensure, fetch, if◌then◌else◌, ltb, leb, length, mul64, ℤ, set,
}
use ssdiq.Iob.Request.{IoBaseRequest, new_request}
use ssdiq.Iob.PageState.{Page}
use ssdiq.Iob.Generator.{Generator, io_operations, prepare_request}
use ssdiq.Iob.Generator.Complete.{complete_request}

-- `availableReqStackCnt--; reqCpy.id = availableReqStack[availableReqStackCnt]`.
unfoldable pub take_id : Generator → Result (ℕ × Generator)
take_id g = do
  id ← fetch Fault.undefined_access g.available_req_stack (g.available_req_stack_cnt - 1)
  ok (id, record g { available_req_stack_cnt = g.available_req_stack_cnt - 1 })

-- What a channel returns from a poll: a request, its latency, and the pages that a read has stored.
pub record Completion : Type 0 where
  pub request : IoBaseRequest
  pub this_time : ℕ
  pub stored : Option (List Page)

-- The channel that a generator is given, with its state `C`.
pub record Channel (C : Type 0) : Type 0 where
  pub push : IoBaseRequest → C → Result C
  pub submit : C → Result C
  pub poll : C → Result (List Completion × C)

-- What the loop meets from outside in one round: no break in the rate, how many requests the rate
-- limiter and `keep_running` let go, and the random draws of each of them.
pub record Round : Type 0 where
  pub keep_running : Bool
  pub no_break : Bool
  pub lets : ℕ → Bool
  pub writes : ℕ → Bool
  pub rand : ℕ → ℕ → ℕ

-- The pages that the device has stored in the buffer of a read.
abbrev pub store_pages : Completion → Generator → Generator
store_pages c g = elim c.stored [
  | none ↦ g
  | some pages ↦ record g { read_data = set g.read_data c.request.id pages }
]

module _ {P C : Type 0} (next_page : P → Result (ℕ × P)) (channel : Channel C)
    (xxh32 : ℤ → ℤ → List ℕ → ℤ → ℕ) (scaled : ℕ → ℕ → ℕ → ℕ) where
  -- For the pattern ZNS, whose zones have `zns_pages` pages, a discard is sent before the first page of
  -- a zone; its outcome is only printed.
  unfoldable pub check_zone : Option ℕ → IoBaseRequest → Result (Unit {0})
  check_zone none req = ok tt
  check_zone (some zns_pages) req = ensure (not (mul64 zns_pages req.len == 0))

  unfoldable pub start_request :
      Option ℕ → Bool → (ℕ → ℕ) → Generator → P → C → Result (Generator × P × C)
  start_request zns writes rand g p c = do
    taken ← take_id g
    prepared ←
        prepare_request next_page xxh32 writes rand
          (record new_request { id = taken.0; user = some 0 }) taken.1 p
    check_zone zns prepared.0
    pushed ← channel.push prepared.0 c
    ok (prepared.1, prepared.2, pushed)

  -- The inner loop, which makes no more requests than are available; `n` is the number of the next one,
  -- and the number of all of them is returned.
  unfoldable pub fill_loop :
      ℕ → Option ℕ → Round → ℕ → Generator → P → C → Result (ℕ × Generator × P × C)
  fill_loop zero zns round n g p c = ok (n, g, p, c)
  fill_loop (suc rounds) zns round n g p c =
      let go_on = (do
        started ← start_request zns (round.writes n) (round.rand n) g p c
        fill_loop rounds zns round (n + 1) started.0 started.1 started.2) in
      if round.keep_running && round.lets n then go_on else ok (n, g, p, c)

  unfoldable pub complete_all : List Completion → Generator → Result Generator
  complete_all [] g = ok g
  complete_all (c ∷ cs) g = do
    next ← complete_request scaled xxh32 c.request c.this_time (store_pages c g)
    complete_all cs next

  unfoldable pub do_poll : Generator → C → Result (ℕ × Generator × C)
  do_poll g c = do
    polled ← channel.poll c
    next ← complete_all polled.0 g
    ok (length polled.0, next, polled.1)

  -- The requests of a round, handed to the channel.
  unfoldable pub submit_round :
      Option ℕ → Round → Generator → P → C → Result (ℕ × Generator × P × C)
  submit_round zns round g p c = do
    filled ← fill_loop g.available_req_stack_cnt zns round 0 g p c
    sent ← channel.submit filled.3
    ok (filled.0, filled.1, filled.2, sent)

  -- One round of the outer loop: the numbers of requests submitted and polled.
  unfoldable pub run_round :
      Option ℕ → Round → Generator → P → C → Result (ℕ × ℕ × Generator × P × C)
  run_round zns round g p c = do
    filled ← if round.no_break then submit_round zns round g p c else ok (0, g, p, c)
    polled ← do_poll filled.1 filled.3
    ok (filled.0, polled.0, polled.1, filled.2, polled.2)

  -- `while ((ops <= 0 || completed < ops) && keep_running)`, over the rounds that are observed. It
  -- returns the numbers of requests submitted and completed.
  unfoldable pub run_loop :
      Option ℕ → List Round → ℕ → ℕ → Generator → P → C → Result (ℕ × ℕ × Generator × P × C)
  run_loop zns [] submitted completed g p c = err Fault.out_of_fuel
  run_loop zns (round ∷ rounds) submitted completed g p c =
      let ops = io_operations g.options in
      let go_on = (do
        r ← run_round zns round g p c
        run_loop zns rounds (submitted + r.0) (completed + r.1) r.2 r.3 r.4) in
      if (leb ops 0 || ltb completed ops) && round.keep_running
      then go_on
      else ok (submitted, completed, g, p, c)

  -- `while (polled < submitted)`.
  unfoldable pub drain_loop : ℕ → ℕ → ℕ → Generator → C → Result (Generator × C)
  drain_loop zero submitted polled g c = err Fault.out_of_fuel
  drain_loop (suc fuel) submitted polled g c =
      let go_on = (do
        sent ← channel.submit c
        r ← do_poll g sent
        drain_loop fuel submitted (polled + r.0) r.1 r.2) in
      if ltb polled submitted then go_on else ok (g, c)

  unfoldable pub run_io : ℕ → Option ℕ → List Round → Generator → P → C → Result (Generator × C)
  run_io fuel zns rounds g p c = do
    r ← run_loop zns rounds 0 0 g p c
    drain_loop fuel r.0 r.1 r.2 r.4
