-- ===== src/Iob/Generator/Requests.antt =====
-- The cases of prepareRequest of iob/RequestGenerator.hpp, and how often it asks for an fsync.
use ssdiq.Prelude.{
  ℕ, ◌+◌, ◌*◌, ◌%◌, ◌^◌, ◌-◌, ◌<◌, ◌≤◌, ◌≡◌, ◌≢◌, refl, ap, inl, inr, Bool, true, false, List, [],
  some, arith, Result, Fault, ℤ, length, get_or, get_or-set_self, set, fetch-in, ltb, le→leb, ◌==◌,
  ◌&&◌, Bool-cases, add64, sub64,
}
use ssdiq.Iob.Request.{IoRequestType, IoBaseRequest}
use ssdiq.Iob.PageState.RoundTrip.{write-check_buffer}
use ssdiq.Iob.Generator.{Generator, prepare_fsync, prepare_write, prepare_read, prepare_request}
use ssdiq.Iob.Generator.Prepare.{
  IsGenerator, HasPage, block-aligned, pattern_generator-ok, due, Prepared, write-ok,
}

-- At most `fdatasync` writes since the last fsync.
pub record IsSynced (g : Generator) : Type 0 where
  pub not_ahead : g.last_fsync ≤ g.prepared_writes
  pub few : g.prepared_writes ≤ g.last_fsync + g.options.fdatasync

module _ {P : Type 0} (next_page : P → Result (ℕ × P)) (xxh32 : ℤ → ℤ → List ℕ → ℤ → ℕ)
    (rand : ℕ → ℕ) (req : IoBaseRequest) (g : Generator) (p : P) (v : IsGenerator g)
    (h : HasPage next_page g p) (own : req.id < g.options.iodepth) where
  abbrev OutcomeOf : Bool → Type 0
  OutcomeOf writes =
      Prepared next_page xxh32 writes req g p (prepare_request next_page xxh32 writes rand req g p)

  fsync-Prepared : (writes : Bool) → due g ≡ true → OutcomeOf writes
  unfolding prepare_request prepare_fsync
  fsync-Prepared writes e = record {
    made = (prepare_fsync next_page req g).0;
    next = (prepare_fsync next_page req g).1;
    rest = p;
    runs = rw e refl;
    same_id = refl;
    same_write_back = refl;
    valid = record { job = v.job; buffers = v.buffers; aligned = v.aligned; tracked = v.tracked };
    same_options = refl;
    same_pages = refl;
    supplied = inl refl;
    same_stack = refl;
    same_cnt = refl;
    outcome = rw e (refl, refl, refl, refl);
  }

  sector_ok : (h.block * g.options.bs + g.options.offset) % 512 ≡ 0
  sector_ok = block-aligned h.block g.options.bs g.options.offset v.job.sectors v.job.sector

  read-Prepared : due g ≡ false → OutcomeOf false
  unfolding prepare_request prepare_read
  read-Prepared e =
      let o = g.options in
      let d = pattern_generator-ok next_page g p v h in
      let addr = h.block * o.bs + o.offset in
      let end_word : add64 addr o.bs ≡ addr + o.bs = omega (arith, d.3, v.job.word) in
      let sector : (addr % 512 == 0) ≡ true = ap (λ n. n == 0) sector_ok in
      record {
        made = record req {
          len = o.bs;
          addr = addr;
          type = IoRequestType.read;
          data_buffer = some req.id;
        };
        next = record g { pattern_access = d.0; prepared_reads = add64 g.prepared_reads 1 };
        rest = h.rest;
        runs = rw (e, d.1, end_word, le→leb (addr + o.bs) o.filesize d.3, sector) refl;
        same_id = refl;
        same_write_back = refl;
        valid = record { job = v.job; buffers = v.buffers; aligned = v.aligned; tracked = d.2 };
        same_options = refl;
        same_pages = refl;
        supplied = inr (h.block, h.drawn);
        same_stack = refl;
        same_cnt = refl;
        outcome = rw e (
          refl,
          record {
            len = refl;
            after = omega arith;
            within = d.3;
            sector = sector_ok;
            own_buffer = refl;
          },
          refl,
          refl,
        );
      }

  write-Prepared : due g ≡ false → OutcomeOf true
  unfolding prepare_request prepare_write
  write-Prepared e =
      let o = g.options in
      let d = pattern_generator-ok next_page g p v h in
      let addr = h.block * o.bs + o.offset in
      let pages = get_or g.write_data req.id [] in
      let listed : req.id < length g.write_data = omega (arith, own, v.buffers) in
      let w =
        write-check_buffer xxh32 g.file_state g.file_state (λ same. same) (g.wd + o.bs * req.id)
          o.bs addr pages rand (v.aligned req.id own) in
      record {
        made = record req {
          len = o.bs;
          addr = addr;
          type = IoRequestType.write;
          data_buffer = some req.id;
        };
        next = record g {
          pattern_access = d.0;
          write_data = set g.write_data req.id w.0;
          prepared_writes = add64 g.prepared_writes 1;
        };
        rest = h.rest;
        runs = rw (e, d.1, fetch-in Fault.undefined_access g.write_data req.id [] listed, w.1) refl;
        same_id = refl;
        same_write_back = refl;
        valid = write-ok next_page xxh32 rand req g p v h own w.0 d.0 d.2 w.2;
        same_options = refl;
        same_pages = refl;
        supplied = inr (h.block, h.drawn);
        same_stack = refl;
        same_cnt = refl;
        outcome = rw e (
          refl,
          record {
            len = refl;
            after = omega arith;
            within = d.3;
            sector = sector_ok;
            own_buffer = refl;
          },
          rw (get_or-set_self g.write_data req.id w.0 [] listed) w.3,
          refl,
          refl,
        );
      }

  -- For a job within its file with blocks of whole pages, aligned buffers, a request of its own number
  -- and a pattern that has a page for it, prepareRequest fails no assertion and touches nothing out of
  -- range. When `fdatasync` writes have been prepared since the last fsync, it makes an fsync. Otherwise
  -- it makes a write or a read, as it was drawn, of a block that lies in the file behind the offset and
  -- at a multiple of 512, and the data of a write passes checkBuffer at the address it goes to.
  pub prepare_request-Prepared :
      (writes : Bool)
      → Prepared next_page xxh32 writes req g p
          (prepare_request next_page xxh32 writes rand req g p)
  prepare_request-Prepared writes = elim (Bool-cases (due g)) [
    | inl e ↦ fsync-Prepared writes e
    | inr e ↦ other writes e
  ]
    where
      other : (w : Bool) → due g ≡ false → OutcomeOf w
      other true e = write-Prepared e
      other false e = read-Prepared e

  -- Under the same conditions, with fdatasync positive and fewer than 2^64 - 1 writes prepared: if at
  -- most `fdatasync` writes have been prepared since the last fsync, then this also holds after
  -- prepareRequest.
  pub prepare_request-IsSynced :
      (writes : Bool)
      → 0 < g.options.fdatasync
      → g.options.fdatasync < 2 ^ 63
      → g.prepared_writes + 1 < 2 ^ 64
      → IsSynced g
      → IsSynced (prepare_request-Prepared writes).next
  prepare_request-IsSynced writes asked small word s = elim (Bool-cases (due g)) [
    | inl e ↦ at_due e
    | inr e ↦ between writes e
  ]
    where
      not_due : (a n : ℕ) → (ltb 0 n && (a == n)) ≡ false → 0 < n → a ≢ n
      not_due a n h k = ground (arith, h, k)

      at_due : due g ≡ true → IsSynced (prepare_request-Prepared writes).next
      at_due e =
          let m = prepare_request-Prepared writes in
          let o = rw e at m.outcome in
          let same = ap (λ x. x.fdatasync) m.same_options in
          record { not_ahead = omega (arith, o.2, o.3); few = omega (arith, o.2, o.3) }

      fewer : due g ≡ false → g.prepared_writes < g.last_fsync + g.options.fdatasync
      fewer e =
          let ne = not_due (sub64 g.prepared_writes g.last_fsync) g.options.fdatasync e asked in
          let d : sub64 g.prepared_writes g.last_fsync ≡ g.prepared_writes - g.last_fsync =
            omega (arith, s.not_ahead, word) in
          omega (arith, s.not_ahead, s.few, ne, d)

      between : (w : Bool) → due g ≡ false → IsSynced (prepare_request-Prepared w).next
      between true e =
          let m = prepare_request-Prepared true in
          let o = rw e at m.outcome in
          let same = ap (λ x. x.fdatasync) m.same_options in
          record {
            not_ahead = omega (arith, o.3, o.4, s.not_ahead, word);
            few = omega (arith, o.3, o.4, fewer e, same, word);
          }
      between false e =
          let m = prepare_request-Prepared false in
          let o = rw e at m.outcome in
          let same = ap (λ x. x.fdatasync) m.same_options in
          record {
            not_ahead = omega (arith, o.2, o.3, s.not_ahead);
            few = omega (arith, o.2, o.3, s.few, same);
          }
