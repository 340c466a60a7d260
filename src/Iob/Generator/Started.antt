-- ===== src/Iob/Generator/Started.antt =====
-- A request that runIo of iob/RequestGenerator.hpp takes, prepares and pushes.
use ssdiq.Prelude.{
  ℕ, ◌+◌, ◌-◌, ◌<◌, ◌≡◌, refl, ◌⊎◌, Bool, if◌then◌else◌, true, false, Option, ne→==, ◌≢◌, List, ◌∷◌,
  none, some, arith, ok, err, mul64, Result, Fault, ℤ,
}
use ssdiq.Iob.Request.{IoBaseRequest, new_request}
use ssdiq.Iob.Generator.{Generator, JobOptions, prepare_fsync, prepare_request}
use ssdiq.Iob.Generator.Run.{Channel, check_zone, start_request}
use ssdiq.Iob.Generator.Ids.{occurs_id}
use ssdiq.Iob.Generator.Prepare.{Prepared, IsGenerator, HasPage, due}
use ssdiq.Iob.Generator.Requests.{prepare_request-Prepared}
use ssdiq.Iob.Generator.Flight.{IsHeld, take_id-IsHeld}

-- For the pattern ZNS with zones of `z` pages: no fsync, and a product of `z` and the block size that is
-- not zero in 64 bits.
abbrev pub IsSized : Option ℕ → JobOptions → Type 0
IsSized none options = Unit
IsSized (some z) options = (options.fdatasync ≡ 0) × (mul64 z options.bs ≢ 0)

module _ {P C : Type 0} (next_page : P → Result (ℕ × P)) (channel : Channel C)
    (xxh32 : ℤ → ℤ → List ℕ → ℤ → ℕ) (scaled : ℕ → ℕ → ℕ → ℕ) where
  -- The channel takes every request that is not written back.
  abbrev pub Accepts : C → Type 0
  Accepts c = (req : IoBaseRequest) → req.write_back ≡ false → (d : C) × (channel.push req c ≡ ok d)

  -- A request that has been handed to the channel, and was not in flight before.
  pub record Starts (flight : List ℕ) (g : Generator) (p : P) (c : C)
      (m : Result (Generator × P × C)) : Type 0 where
    pub request : IoBaseRequest
    pub next : Generator
    pub pages : P
    pub sent : C
    pub runs : m ≡ ok (next, pages, sent)
    pub pushed : channel.push request c ≡ ok sent
    pub plain : request.write_back ≡ false
    pub fresh : occurs_id request.id flight ≡ 0
    pub own : request.id < g.options.iodepth
    pub same_options : next.options ≡ g.options
    pub same_pages : next.logical_pages ≡ g.logical_pages
    pub supplied : (pages ≡ p) ⊎ ((b : ℕ) × (next_page p ≡ ok (b, pages)))
    pub one_less : next.available_req_stack_cnt + 1 ≡ g.available_req_stack_cnt
    pub valid : IsGenerator next
    pub held : IsHeld (request.id ∷ flight) next

  -- A request for a block or, without a zone size, any request passes the check of its zone.
  passes :
      (zns : Option ℕ) (writes : Bool) (req : IoBaseRequest) (g : Generator) (p : P)
      {n : Result (IoBaseRequest × Generator × P)} (m : Prepared next_page xxh32 writes req g p n)
      → IsSized zns g.options
      → check_zone next_page channel xxh32 scaled zns m.made ≡ ok tt
  unfolding check_zone
  passes none writes req g p m sized = refl
  passes (some z) writes req g p m sized =
      let never : due g ≡ false = rw sized.0 refl in
      let len : m.made.len ≡ g.options.bs =
        either writes (rw never at m.outcome) (λ w. w.1.len) (λ r. r.1.len) in
      rw (len, ne→== (mul64 z g.options.bs) 0 sized.1) refl
    where
      either : {A B X : Type 0} (b : Bool) → (if b then A else B) → (A → X) → (B → X) → X
      either true h f k = f h
      either false h f k = k h

  -- If every request of a generator is available or in flight, one is available, the job and the buffers
  -- are well formed, the pattern has a page for it, and the channel takes it, then a request is made and
  -- pushed that was not in flight, and every request is still available or in flight, and only once. For
  -- the pattern ZNS it is asked that the job has no fsync, and that the product of the pages of a zone and
  -- the block size is not zero in 64 bits.
  pub start_request-Starts :
      (flight : List ℕ) (zns : Option ℕ) (writes : Bool) (rand : ℕ → ℕ) (g : Generator) (p : P)
      (c : C)
      → IsGenerator g
      → IsSized zns g.options
      → HasPage next_page g p
      → IsHeld flight g
      → 0 < g.available_req_stack_cnt
      → Accepts c
      → Starts flight g p c (start_request next_page channel xxh32 scaled zns writes rand g p c)
  unfolding start_request
  start_request-Starts flight zns writes rand g p c v sized page h left accepts =
      let t = take_id-IsHeld flight g h left in
      let taken : Generator = record g {
        available_req_stack_cnt = g.available_req_stack_cnt - 1;
      } in
      let req : IoBaseRequest = record new_request { id = t.0; user = some 0 } in
      let ready : IsGenerator taken = record {
        job = v.job;
        buffers = v.buffers;
        aligned = v.aligned;
        tracked = v.tracked;
      } in
      let has : HasPage next_page taken p = record {
        block = page.block;
        rest = page.rest;
        drawn = page.drawn;
        inside = page.inside;
        logical = page.logical;
      } in
      let m = prepare_request-Prepared next_page xxh32 rand req taken p ready has t.2 writes in
      let d = accepts m.made m.same_write_back in
      record {
        request = m.made;
        next = m.next;
        pages = m.rest;
        sent = d.0;
        runs = rw (t.1, m.runs, passes zns writes req taken p m sized, d.1) refl;
        pushed = d.1;
        plain = m.same_write_back;
        fresh = rw m.same_id t.3;
        own = rw m.same_id t.2;
        same_options = m.same_options;
        same_pages = m.same_pages;
        supplied = m.supplied;
        one_less = omega (arith, m.same_cnt, left);
        valid = m.valid;
        held = record {
          room = rw (m.same_stack, m.same_options) t.4.room;
          total = rw (m.same_cnt, m.same_options) t.4.total;
          one = rw (m.same_cnt, m.same_stack, m.same_options, m.same_id) t.4.one;
          ids = rw (m.same_cnt, m.same_stack, m.same_options) t.4.ids;
        };
      }

  -- If every request of a generator is available or in flight and one is available, and an fsync is due,
  -- then a generator for the pattern ZNS throws EnsureFailed, whatever the size of its zones: the length
  -- of an fsync is zero.
  pub zns_fsync-fails :
      (flight : List ℕ) (zns_pages : ℕ) (writes : Bool) (rand : ℕ → ℕ) (g : Generator) (p : P)
      (c : C)
      → IsHeld flight g
      → 0 < g.available_req_stack_cnt
      → due g ≡ true
      → start_request next_page channel xxh32 scaled (some zns_pages) writes rand g p c
        ≡ err Fault.ensure_failed
  unfolding start_request check_zone prepare_request prepare_fsync
  zns_fsync-fails flight zns_pages writes rand g p c h left e =
      let t = take_id-IsHeld flight g h left in
      let z : mul64 zns_pages 0 ≡ 0 = nothing zns_pages in rw (t.1, e, z) refl
    where
      nothing : (n : ℕ) → mul64 n 0 ≡ 0
      nothing n = omega arith
