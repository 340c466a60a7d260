-- ===== src/Shared/Pattern/Trace.antt =====
-- The replay of a trace file in shared/PatternGen.hpp: fetchPagesFromFIOTrace and getPageFromFIOTrace.
-- The file is the list of the numbers in it, and a position in the file is the number of those before it.
pub mod Numbers
pub mod Replay
use ssdiq.Prelude.{
  ℕ, zero, suc, ◌+◌, ◌%◌, ◌==◌, Bool, true, false, List, [], ◌∷◌, Option, none, some, Result, ok,
  err, Fault, ◌>>=◌, ◌>>◌, fetch, if◌then◌else◌, add64, length, take, ltb, leb,
}

-- `last_pos` is none after a chunk that the end of the file has cut short: `tellg` then returns -1,
-- and a later `seekg` to it makes all reads fail.
pub record FioTrace : Type 0 where
  pub input_traces : List ℕ
  pub trace_index : ℕ
  pub last_pos : Option ℕ
  pub total_writes : ℕ
  pub chunk_size : ℕ

unfoldable pub new_fio_trace : ℕ → FioTrace
new_fio_trace total_writes = record {
  input_traces = [];
  trace_index = 0;
  last_pos = some 0;
  total_writes = total_writes;
  chunk_size = 100000;
}

unfoldable pub drop_numbers : ℕ → List ℕ → List ℕ
drop_numbers zero xs = xs
drop_numbers (suc n) [] = []
drop_numbers (suc n) (x ∷ xs) = drop_numbers n xs

-- `inFile.seekg(lastPos)` and the numbers that can be read from there.
abbrev pub readable : List ℕ → Option ℕ → List ℕ
readable file none = []
readable file (some pos) = drop_numbers pos file

abbrev pub next_pos : Option ℕ → ℕ → ℕ → Option ℕ
next_pos none read chunk = none
next_pos (some pos) read chunk = if read == chunk then some (pos + chunk) else none

-- The answer says whether a number was read. A file that cannot be opened is none.
unfoldable pub fetch_pages_from_fio_trace : Option (List ℕ) → FioTrace → Bool × FioTrace
fetch_pages_from_fio_trace none t = (false, t)
fetch_pages_from_fio_trace (some file) t =
    let traces = take t.chunk_size (readable file t.last_pos) in
    (
      leb 1 (length traces),
      record t {
        input_traces = traces;
        last_pos = next_pos t.last_pos (length traces) t.chunk_size;
      },
    )

-- The chunk that the next access reads from.
unfoldable pub with_chunk : Option (List ℕ) → FioTrace → Result FioTrace
with_chunk file t =
    let (fetched, next) = fetch_pages_from_fio_trace file t in
    if t.chunk_size == 0
    then err Fault.undefined_access
    else if t.trace_index % t.chunk_size == 0
    then (if fetched then ok next else err Fault.runtime_error)
    else ok t

unfoldable pub get_page_from_fio_trace : Option (List ℕ) → FioTrace → Result (ℕ × FioTrace)
get_page_from_fio_trace file t = do
  u ← with_chunk file t
  let go_on = (do
    page ← fetch Fault.undefined_access u.input_traces (u.trace_index % u.chunk_size)
    ok (page, record u { trace_index = add64 u.trace_index 1 }))
  if leb u.total_writes u.trace_index then ok (0, u) else go_on

-- So many accesses, one after the other.
unfoldable pub get_pages : Option (List ℕ) → ℕ → FioTrace → Result (List ℕ × FioTrace)
get_pages file zero t = ok ([], t)
get_pages file (suc n) t = do
  first ← get_page_from_fio_trace file t
  rest ← get_pages file n first.1
  ok (first.0 ∷ rest.0, rest.1)
