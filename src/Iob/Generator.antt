-- ===== src/Iob/Generator.antt =====
-- The threads of the benchmark that make requests: JobOptions, JobStats and RequestGenerator of
-- iob/RequestGenerator.hpp. The buffers of a generator are lists of 4 KB pages, one for each request.
pub mod Prepare
pub mod Requests
pub mod Complete
pub mod Run
pub mod Ids
pub mod Flight
pub mod Times
pub mod Started
pub mod Returned
pub mod Roomy
pub mod Fill
pub mod Composed
mod Tests
use ssdiq.Prelude.{
  ℕ, zero, suc, ◌+◌, ◌-◌, ◌*◌, ◌/◌, ◌%◌, ◌^◌, ◌==◌, ◌&&◌, ◌||◌, Bool, true, false, not, List, [],
  ◌∷◌, Option, none, some, Result, ok, err, Fault, ◌>>=◌, ◌>>◌, ensure, assert, fetch, store,
  if◌then◌else◌, add64, sub64, mul64, ℤ, pos, negsuc, ltb, leb, length, replicate, set,
}
use ssdiq.Shared.Hist.{Hist, new_hist}
use ssdiq.Iob.Request.{IoRequestType, IoBaseRequest}
use ssdiq.Iob.PageState.{Page, FileState, write_buffer_checks}

-- The options that the code below reads; `filesize` and `bs` are positive.
pub record JobOptions : Type 0 where
  pub filesize : ℕ
  pub offset : ℕ
  pub iodepth : ℕ
  pub bs : ℕ
  pub io_size : ℤ
  pub fdatasync : ℕ
  pub disable_checks : Bool
  pub track_pattern_access : Bool
  pub enable_io_tracing : Bool
  pub enable_lateny_tracking : Bool

abbrev pub total_blocks : JobOptions → ℕ
total_blocks o = o.filesize / o.bs

abbrev pub offset_blocks : JobOptions → ℕ
offset_blocks o = o.offset / o.bs

abbrev pub total_minus_offset_blocks : JobOptions → ℕ
total_minus_offset_blocks o = sub64 o.filesize o.offset / o.bs

abbrev pub io_operations : JobOptions → ℕ
io_operations o = elim o.io_size [ pos n ↦ n / o.bs | negsuc n ↦ 0 ]

pub record JobStats : Type 0 where
  pub reads : ℕ
  pub writes : ℕ
  pub fdatasyncs : ℕ
  pub read_total_time : ℕ
  pub write_total_time : ℕ
  pub fdatasync_total_time : ℕ
  pub read_hist : Hist
  pub write_hist : Hist
  pub fdatasync_hist : Hist
  pub read_hist_every_second : Hist
  pub write_hist_every_second : Hist
  pub fdatasync_hist_every_second : Hist

-- An entry of the trace of requests, without its times.
pub record IoStat : Type 0 where
  pub thread_id : ℕ
  pub req_id : ℕ
  pub type : IoRequestType
  pub addr : ℕ
  pub len : ℕ

-- `io_trace` holds the entries that have been written, `trace_room` the size of the vector for them.
pub record Generator : Type 0 where
  pub gen_id : ℕ
  pub options : JobOptions
  pub file_state : FileState
  pub stats : JobStats
  pub io_trace : List IoStat
  pub trace_room : ℕ
  pub rd : ℕ
  pub wd : ℕ
  pub read_data : List (List Page)
  pub write_data : List (List Page)
  pub last_fsync : ℕ
  pub prepared_writes : ℕ
  pub prepared_reads : ℕ
  pub prepared_fsyncs : ℕ
  pub available_req_stack : List ℕ
  pub available_req_stack_cnt : ℕ
  pub pattern_access : List ℕ
  pub logical_pages : ℕ

-- `for (i = 0; i < iodepth; i++) availableReqStack[i] = i`, from `i` on.
unfoldable pub all_ids : ℕ → ℕ → List ℕ
all_ids zero i = []
all_ids (suc rounds) i = i ∷ all_ids rounds (i + 1)

-- The histograms of JobStats: 20000 slots for 0 to 19998 us. Their counts start as `junk` has them.
abbrev pub latency_hist : ℕ → Hist
latency_hist junk = new_hist junk junk 20000 0 19999

-- The constructor. `rd` and `wd` are the addresses of the memory for the buffers, and `filled` is a
-- buffer of `bs` bytes 'A' or 'B'.
unfoldable pub new_generator : ℕ → JobOptions → FileState → ℕ → ℕ → ℕ → List Page → ℕ → Generator
new_generator gen_id options file_state junk rd wd filled logical_pages = record {
  gen_id = gen_id;
  options = options;
  file_state = file_state;
  stats = record {
    reads = 0;
    writes = 0;
    fdatasyncs = 0;
    read_total_time = 0;
    write_total_time = 0;
    fdatasync_total_time = 0;
    read_hist = latency_hist junk;
    write_hist = latency_hist junk;
    fdatasync_hist = latency_hist junk;
    read_hist_every_second = latency_hist junk;
    write_hist_every_second = latency_hist junk;
    fdatasync_hist_every_second = latency_hist junk;
  };
  io_trace = [];
  trace_room = if options.enable_io_tracing then 10000000 else 0;
  rd = rd;
  wd = wd;
  read_data = replicate options.iodepth filled;
  write_data = replicate options.iodepth filled;
  last_fsync = 0;
  prepared_writes = 0;
  prepared_reads = 0;
  prepared_fsyncs = 0;
  available_req_stack = all_ids options.iodepth 0;
  available_req_stack_cnt = options.iodepth;
  pattern_access = [];
  logical_pages = logical_pages;
}

-- `patternAccess.at(block)++`, on a vector that is made at the first access.
unfoldable pub track_access : ℕ → Generator → Result Generator
track_access block g = do
  let sized = if length g.pattern_access == 0 then replicate g.logical_pages 0 else g.pattern_access
  old ← fetch Fault.out_of_range sized block
  ok (record g { pattern_access = set sized block (old + 1) })

-- `P` is the state of the access pattern with its random numbers, `next_page` its
-- accessPatternGenerator. NEXT_SIZE is 1, so that every call takes a new page.
module _ {P : Type 0} (next_page : P → Result (ℕ × P)) where
  unfoldable pub pattern_generator : Generator → P → Result (ℕ × Generator × P)
  pattern_generator g p = do
    drawn ← next_page p
    let block = drawn.0
    tracked ← if g.options.track_pattern_access then track_access block g else ok g
    ensure (ltb block (2 ^ 63) && ltb block (total_minus_offset_blocks g.options))
    ok (add64 (mul64 block g.options.bs) g.options.offset, tracked, drawn.1)

  -- The branch of prepareRequest for an fsync.
  unfoldable pub prepare_fsync : IoBaseRequest → Generator → IoBaseRequest × Generator
  prepare_fsync req g = (
    record req { type = IoRequestType.fsync; len = 0; addr = 0; data_buffer = none },
    record g { last_fsync = g.prepared_writes; prepared_fsyncs = add64 g.prepared_fsyncs 1 },
  )

  -- `rand` are the random numbers for the data, `xxh32` the checksum of the library xxHash.
  unfoldable pub prepare_write :
      (ℤ → ℤ → List ℕ → ℤ → ℕ)
      → (ℕ → ℕ)
      → IoBaseRequest
      → Generator
      → P
      → Result (IoBaseRequest × Generator × P)
  prepare_write xxh32 rand req g p = do
    drawn ← pattern_generator g p
    let h = drawn.1
    pages ← fetch Fault.undefined_access h.write_data req.id
    filled ←
        write_buffer_checks xxh32 h.file_state (h.wd + h.options.bs * req.id) pages drawn.0
          h.options.bs rand
    ok (
      record req {
        len = h.options.bs;
        addr = drawn.0;
        type = IoRequestType.write;
        data_buffer = some req.id;
      },
      record h {
        write_data = set h.write_data req.id filled;
        prepared_writes = add64 h.prepared_writes 1;
      },
      drawn.2,
    )

  unfoldable pub prepare_read :
      IoBaseRequest → Generator → P → Result (IoBaseRequest × Generator × P)
  prepare_read req g p = do
    drawn ← pattern_generator g p
    let h = drawn.1
    assert (leb (add64 drawn.0 h.options.bs) h.options.filesize)
    assert (drawn.0 % 512 == 0)
    ok (
      record req {
        len = h.options.bs;
        addr = drawn.0;
        type = IoRequestType.read;
        data_buffer = some req.id;
      },
      record h { prepared_reads = add64 h.prepared_reads 1 },
      drawn.2,
    )

  -- `writes` is the outcome of `writePercent > 0 && randrw <= writePercent`.
  unfoldable pub prepare_request :
      (ℤ → ℤ → List ℕ → ℤ → ℕ)
      → Bool
      → (ℕ → ℕ)
      → IoBaseRequest
      → Generator
      → P
      → Result (IoBaseRequest × Generator × P)
  prepare_request xxh32 writes rand req g p =
      let synced = prepare_fsync req g in
      if ltb 0 g.options.fdatasync && (sub64 g.prepared_writes g.last_fsync == g.options.fdatasync)
      then ok (synced.0, synced.1, p)
      else if writes
      then prepare_write xxh32 rand req g p
      else prepare_read req g p
