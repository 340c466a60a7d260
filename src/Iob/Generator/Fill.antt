-- ===== src/Iob/Generator/Fill.antt =====
-- The inner loop of runIo of iob/RequestGenerator.hpp, over an access pattern of shared/PatternGen.hpp.
use ssdiq.Prelude.{
  ℕ, zero, suc, ◌+◌, ◌<◌, ◌≤◌, ◌≡◌, refl, sym, ◌∙◌, ◌⊎◌, inl, inr, true, false, Bool, Option, List,
  ◌∷◌, arith, ok, Result, ℤ, length, ◌&&◌, Bool-cases, subst, ◌>>=◌,
}
use ssdiq.Shared.Pattern.{Numerics, PatternGen}
use ssdiq.Shared.Pattern.Access.{access_pattern_generator}
use ssdiq.Shared.Pattern.Access.Own.{IsLawful}
use ssdiq.Shared.Pattern.Access.Bounds.{Supports, access_pattern_generator-Accesses}
use ssdiq.Iob.Generator.{JobOptions, Generator, total_minus_offset_blocks}
use ssdiq.Iob.Generator.Run.{Channel, Round, fill_loop}
use ssdiq.Iob.Generator.Prepare.{IsGenerator, HasPage}
use ssdiq.Iob.Generator.Flight.{IsHeld}
use ssdiq.Iob.Generator.Started.{IsSized, start_request-Starts}
use ssdiq.Iob.Generator.Roomy.{IsRoomy}
use ssdiq.Iob.Request.{IoBaseRequest}

-- A pattern whose states that are `Ready` stay so, and have pages for a job.
pub record Supplies {P : Type 0} (next_page : P → Result (ℕ × P)) (Ready : P → Type 0)
    (options : JobOptions) (logical_pages : ℕ) : Type 0 where
  pub supply :
      (p : P)
      → Ready p
      → (block : ℕ) × (rest : P) × (next_page p ≡ ok (block, rest))
        × (block < total_minus_offset_blocks options)
        × (block < logical_pages)
        × Ready rest

-- The access pattern as the generator calls it.
unfoldable pub pattern_pages :
    {D R : Type 0}
    → Numerics D R
    → (PatternGen D → R → Result (ℕ × PatternGen D × R))
    → ℕ
    → PatternGen D × R
    → Result (ℕ × (PatternGen D × R))
pattern_pages num traced fuel p = do
  drawn ← access_pattern_generator num traced fuel p.0 p.1
  ok (drawn.0, (drawn.1, drawn.2))

module _ {D R : Type 0} (num : Numerics D R) (lawful : IsLawful num)
    (traced : PatternGen D → R → Result (ℕ × PatternGen D × R)) (fuel : ℕ) where
  -- A pattern that is ready, over so many pages.
  abbrev pub IsReady : ℕ → PatternGen D × R → Type 0
  IsReady pages p = Supports num lawful p.0.own.pattern p.0 × (p.0.own.logical_pages ≡ pages)

  -- For lawful distributions, an access pattern that is ready, outside ZNS, mockdb and the traces, has
  -- pages for every job with at least as many blocks behind its offset as the pattern has pages.
  pub access_pattern-Supplies :
      (options : JobOptions) (pages : ℕ)
      → pages ≤ total_minus_offset_blocks options
      → Supplies (pattern_pages num traced fuel) (IsReady pages) options pages
  unfolding pattern_pages
  access_pattern-Supplies options pages fits = record {
    supply = λ p ready.
        let a = access_pattern_generator-Accesses num lawful traced fuel p.0 p.1 ready.0 in
        (
          a.page,
          (a.next, a.rest),
          rw a.runs refl,
          omega (arith, a.inside, ready.1, fits),
          omega (arith, a.inside, ready.1),
          (
            subst (λ q. Supports num lawful q a.next) (sym a.pattern) a.ready,
            a.logical_pages ∙ ready.1,
          ),
        );
  }

module _ {P C : Type 0} (next_page : P → Result (ℕ × P)) (channel : Channel C)
    (xxh32 : ℤ → ℤ → List ℕ → ℤ → ℕ) (scaled : ℕ → ℕ → ℕ → ℕ) (Ready : P → Type 0)
    (Open : C → Type 0) (room : C → ℕ) where
  pub record Fills (round : Round) (flight : List ℕ) (g : Generator) (n : ℕ)
      (m : Result (ℕ × Generator × P × C)) : Type 0 where
    pub made : ℕ
    pub next : Generator
    pub pages : P
    pub sent : C
    pub flying : List ℕ
    pub runs : m ≡ ok (made, next, pages, sent)
    pub valid : IsGenerator next
    pub held : IsHeld flying next
    pub ready : Ready pages
    pub opened : Open sent
    pub counted : made + length flight ≡ n + length flying
    pub all_go :
        round.keep_running ≡ true
        → ((i : ℕ) → round.lets i ≡ true)
        → next.available_req_stack_cnt ≡ 0

  has_page :
      (g : Generator) (p : P)
      → Supplies next_page Ready g.options g.logical_pages
      → Ready p
      → HasPage next_page g p
  has_page g p s ready =
      let x = s.supply p ready in
      record { block = x.0; rest = x.1; drawn = x.2; inside = x.3; logical = x.4 }

  stays-Ready :
      (options : JobOptions) (pages : ℕ) (p rest : P)
      → Supplies next_page Ready options pages
      → Ready p
      → (rest ≡ p) ⊎ ((b : ℕ) × (next_page p ≡ ok (b, rest)))
      → Ready rest
  stays-Ready options pages p rest s ready (inl e) = subst Ready (sym e) ready
  stays-Ready options pages p rest s ready (inr d) =
      let x = s.supply p ready in subst Ready (same d.0 x.0 rest x.1 (sym d.1 ∙ x.2)) x.5
    where
      same : (a b : ℕ) (x y : P) → ◌≡◌ {A = Result (ℕ × P)} (ok (a, x)) (ok (b, y)) → y ≡ x
      same a b x y e = cc

  -- What a channel with room is after a push.
  after_push :
      (c sent : C) (req : IoBaseRequest)
      → IsRoomy channel Open room
      → Open c
      → 0 < room c
      → req.write_back ≡ false
      → channel.push req c ≡ ok sent
      → Open sent × (room sent + 1 ≡ room c)
  after_push c sent req roomy opened left plain e =
      let d = roomy.take c req opened left plain in
      subst (λ x. Open x × (room x + 1 ≡ room c)) (same d.0 sent (sym d.1 ∙ e)) (d.2, d.3)
    where
      same : (a b : C) → ◌≡◌ {A = Result C} (ok a) (ok b) → a ≡ b
      same a b e = cc

  fill_loop-eq :
      (rounds : ℕ) (zns : Option ℕ) (round : Round) (flight : List ℕ) (n : ℕ) (g : Generator)
      (p : P) (c : C)
      → IsGenerator g
      → IsSized zns g.options
      → IsHeld flight g
      → Supplies next_page Ready g.options g.logical_pages
      → Ready p
      → IsRoomy channel Open room
      → Open c
      → g.available_req_stack_cnt ≤ room c
      → rounds ≡ g.available_req_stack_cnt
      → Fills round flight g n (fill_loop next_page channel xxh32 scaled rounds zns round n g p c)
  unfolding fill_loop
  fill_loop-eq zero zns round flight n g p c v sized h s ready roomy opened fits e = record {
    made = n;
    next = g;
    pages = p;
    sent = c;
    flying = flight;
    runs = refl;
    valid = v;
    held = h;
    ready = ready;
    opened = opened;
    counted = refl;
    all_go = λ k l. sym e;
  }
  fill_loop-eq (suc rounds) zns round flight n g p c v sized h s ready roomy opened fits e =
      elim (Bool-cases (round.keep_running && round.lets n)) [
        | inr stop ↦ record {
          made = n;
          next = g;
          pages = p;
          sent = c;
          flying = flight;
          runs = rw stop refl;
          valid = v;
          held = h;
          ready = ready;
          opened = opened;
          counted = refl;
          all_go = λ k l. absurd (stopped round.keep_running (round.lets n) k (l n) stop);
        }
        | inl go ↦
            let a =
              start_request-Starts next_page channel xxh32 scaled flight zns (round.writes n)
                (round.rand n) g p c v sized (has_page g p s ready) h (omega (arith, e))
                (λ req plain.
                  let d = roomy.take c req opened (omega (arith, e, fits)) plain in (d.0, d.1)) in
            let o =
              after_push c a.sent a.request roomy opened (omega (arith, e, fits)) a.plain
                a.pushed in
            let still_sized : IsSized zns a.next.options = rw a.same_options sized in
            let supplies : Supplies next_page Ready a.next.options a.next.logical_pages =
              rw (a.same_options, a.same_pages) s in
            let f =
              fill_loop-eq rounds zns round (a.request.id ∷ flight) (n + 1) a.next a.pages a.sent
                a.valid still_sized a.held supplies
                (stays-Ready g.options g.logical_pages p a.pages s ready a.supplied) roomy o.0
                (omega (arith, o.1, fits, a.one_less)) (omega (arith, e, a.one_less)) in
            record {
              made = f.made;
              next = f.next;
              pages = f.pages;
              sent = f.sent;
              flying = f.flying;
              runs = rw (go, a.runs) f.runs;
              valid = f.valid;
              held = f.held;
              ready = f.ready;
              opened = f.opened;
              counted = omega (arith, f.counted);
              all_go = f.all_go;
            }
      ]
    where
      stopped : (a b : Bool) → a ≡ true → b ≡ true → ¬ (a && b ≡ false)
      stopped a b h k e = cc

  -- For a job and buffers that are well formed, requests that are available or in flight, a pattern that
  -- stays ready and has pages for the job, and a channel that is open with room for as many requests as
  -- are available, one less with each request that it takes, and for the pattern ZNS no fsync and a
  -- product of the pages of a zone and the block size that is not zero in 64 bits: the inner loop of runIo ends without a fault, the requests stay available or in flight, as many more are in flight as
  -- it has made, and if neither the rate limiter nor `keep_running` stops it, then none is left.
  pub fill_loop-Fills :
      (zns : Option ℕ) (round : Round) (flight : List ℕ) (g : Generator) (p : P) (c : C)
      → IsGenerator g
      → IsSized zns g.options
      → IsHeld flight g
      → Supplies next_page Ready g.options g.logical_pages
      → Ready p
      → IsRoomy channel Open room
      → Open c
      → g.available_req_stack_cnt ≤ room c
      → Fills round flight g 0
          (fill_loop next_page channel xxh32 scaled g.available_req_stack_cnt zns round 0 g p c)
  fill_loop-Fills zns round flight g p c v sized h s ready roomy opened fits =
      fill_loop-eq g.available_req_stack_cnt zns round flight 0 g p c v sized h s ready roomy opened
        fits refl
