-- ===== src/Shared/Pattern/Trace/Replay.antt =====
-- getPageFromFIOTrace of shared/PatternGen.hpp returns the numbers of the trace file in their order, over
-- the ends of its chunks.
use native.Mathlib.Nat.{mul-add-mod_self_right, mod-eq_of_lt}
use ssdiq.Prelude.{
  ℕ, zero, suc, ◌+◌, ◌*◌, ◌%◌, ◌^◌, ◌<◌, ◌≤◌, ◌≡◌, refl, sym, ap, ◌∙◌, ◌⊎◌, inl, inr, false, List,
  Option, some, arith, ok, Fault, fetch-in, get_or, length, take, leb, le→leb, ==-refl, ne→==,
  add64, dec_lt,
}
use ssdiq.Shared.Pattern.Trace.{
  FioTrace, new_fio_trace, drop_numbers, next_pos, fetch_pages_from_fio_trace, with_chunk,
  get_page_from_fio_trace, get_pages,
}
use ssdiq.Shared.Pattern.Trace.Numbers.{
  length-drop_numbers, get_or-drop_numbers, get_or-take, length-take_all, length-take_more,
  drop_numbers-step,
}

-- `k` numbers of the chunk with number `q` have been returned, the first of which starts the file.
pub record IsInChunk (file : List ℕ) (t : FioTrace) (q k : ℕ) : Type 0 where
  pub index : t.trace_index ≡ q * t.chunk_size + k
  pub chunk : k ≤ t.chunk_size
  pub begun : 0 < k
  pub numbers : t.input_traces ≡ take t.chunk_size (drop_numbers (q * t.chunk_size) file)
  pub position :
      q * t.chunk_size + t.chunk_size ≤ length file
      → t.last_pos ≡ some (q * t.chunk_size + t.chunk_size)

-- At the start, or in a chunk, of a trace that the file is long enough for.
pub record IsReplay (file : List ℕ) (t : FioTrace) : Type 0 where
  pub some_chunk : 0 < t.chunk_size
  pub long : t.total_writes ≤ length file
  pub word : t.total_writes < 2 ^ 64
  pub state :
      ((t.trace_index ≡ 0) × (t.last_pos ≡ some 0)) ⊎ ((q : ℕ) × (k : ℕ) × IsInChunk file t q k)

module _ (file : List ℕ) where
  -- A new chunk is read at a multiple of the chunk size.
  with_chunk-new :
      (t : FioTrace) (q : ℕ)
      → IsReplay file t
      → t.trace_index ≡ q * t.chunk_size
      → t.last_pos ≡ some (q * t.chunk_size)
      → t.trace_index < t.total_writes
      → (pos : Option ℕ) × (with_chunk (some file) t
          ≡ ok (record t {
            input_traces = take t.chunk_size (drop_numbers (q * t.chunk_size) file);
            last_pos = pos;
          }))
        × (q * t.chunk_size + t.chunk_size ≤ length file
            → pos ≡ some (q * t.chunk_size + t.chunk_size))
  unfolding with_chunk fetch_pages_from_fio_trace
  with_chunk-new t q v at pos more =
      let c = t.chunk_size in
      let rest = drop_numbers (q * c) file in
      let traces = take c rest in
      let some_number : 0 < length traces =
        length-take_more c 0 rest v.some_chunk
          (omega (arith, length-drop_numbers (q * c) file, at, more, v.long)) in
      let start : t.trace_index % c ≡ 0 =
        ap (λ x. x % c) (at ∙ omega arith)
        ∙ mul-add-mod_self_right q c 0
        ∙ mod-eq_of_lt v.some_chunk in
      (
        next_pos (some (q * c)) (length traces) c,
        rw
            (
              ne→== c 0 (omega (arith, v.some_chunk)),
              start,
              pos,
              le→leb 1 (length traces) some_number,
            )
            refl,
        λ h.
            let full : length traces ≡ c =
              length-take_all c rest (omega (arith, length-drop_numbers (q * c) file, h)) in
            rw (full, ==-refl c) refl,
      )

  -- An access that finds its chunk read, as `u` has it, with `k` of its numbers returned.
  record Found (t u : FioTrace) (q k : ℕ) : Type 0 where
    read : with_chunk (some file) t ≡ ok u
    some_chunk : 0 < u.chunk_size
    long : u.total_writes ≤ length file
    word : u.total_writes < 2 ^ 64
    index : u.trace_index ≡ q * u.chunk_size + k
    inner : k < u.chunk_size
    more : u.trace_index < u.total_writes
    numbers : u.input_traces ≡ take u.chunk_size (drop_numbers (q * u.chunk_size) file)
    position :
        q * u.chunk_size + u.chunk_size ≤ length file
        → u.last_pos ≡ some (q * u.chunk_size + u.chunk_size)

  record Returns (t : FioTrace) (n i : ℕ) : Type 0 where
    next : FioTrace
    runs : get_page_from_fio_trace (some file) t ≡ ok (get_or file i 0, next)
    replays : IsReplay file next
    index : next.trace_index ≡ i + 1
    total_writes : next.total_writes ≡ n

  Found-Returns :
      (t u : FioTrace) (q k : ℕ) → Found t u q k → Returns t u.total_writes u.trace_index
  unfolding get_page_from_fio_trace
  Found-Returns t u q k f =
      let c = u.chunk_size in
      let rest = drop_numbers (q * c) file in
      let at : u.trace_index % c ≡ k =
        ap (λ x. x % c) f.index ∙ mul-add-mod_self_right q c k ∙ mod-eq_of_lt f.inner in
      let listed : k < length (take c rest) =
        length-take_more c k rest f.inner
          (omega (arith, length-drop_numbers (q * c) file, f.index, f.more, f.long)) in
      let page : get_or (take c rest) k 0 ≡ get_or file u.trace_index 0 =
        get_or-take c k rest f.inner
        ∙ get_or-drop_numbers (q * c) k file
        ∙ ap (λ x. get_or file x 0) (sym f.index) in
      let next : FioTrace = record u { trace_index = add64 u.trace_index 1 } in
      let moved : add64 u.trace_index 1 ≡ u.trace_index + 1 = omega (arith, f.more, f.word) in
      record {
        next = next;
        runs =
            rw
              (
                f.read,
                gt→leb u.total_writes u.trace_index f.more,
                at,
                f.numbers,
                fetch-in Fault.undefined_access (take c rest) k 0 listed,
                page,
              )
              refl;
        replays = record {
          some_chunk = f.some_chunk;
          long = f.long;
          word = f.word;
          state = inr (
            q,
            k + 1,
            record {
              index = omega (arith, moved, f.index);
              chunk = omega (arith, f.inner);
              begun = omega arith;
              numbers = f.numbers;
              position = f.position;
            },
          );
        };
        index = moved;
        total_writes = refl;
      }
    where
      gt→leb : (a b : ℕ) → b < a → leb a b ≡ false
      gt→leb a b h = ground arith

  fresh-Returns :
      (t : FioTrace) (q : ℕ)
      → IsReplay file t
      → t.trace_index ≡ q * t.chunk_size
      → t.last_pos ≡ some (q * t.chunk_size)
      → t.trace_index < t.total_writes
      → Returns t t.total_writes t.trace_index
  fresh-Returns t q v at pos more =
      let n = with_chunk-new t q v at pos more in
      let u : FioTrace = record t {
        input_traces = take t.chunk_size (drop_numbers (q * t.chunk_size) file);
        last_pos = n.0;
      } in
      Found-Returns t u q 0 (record {
        read = n.1;
        some_chunk = v.some_chunk;
        long = v.long;
        word = v.word;
        index = omega (arith, at);
        inner = v.some_chunk;
        more = more;
        numbers = refl;
        position = n.2;
      })

  get_page-Returns :
      (t : FioTrace)
      → IsReplay file t
      → t.trace_index < t.total_writes
      → Returns t t.total_writes t.trace_index
  get_page-Returns t v more = elim v.state [
    | inl start ↦
        fresh-Returns t 0 v (omega (arith, start.0)) (start.1 ∙ ap (λ n. some n) (omega arith)) more
    | inr inner ↦ inside inner.0 inner.1 inner.2 (dec_lt inner.1 t.chunk_size)
  ]
    where
      next_chunk : (q c k : ℕ) → k ≤ c → ¬ (k < c) → q * c + k ≡ suc q * c
      next_chunk q c k h n = omega (arith, h, n, times q c)
        where
          times : (q c : ℕ) → suc q * c ≡ q * c + c
          times q c = grind arith

      inside :
          (q k : ℕ)
          → IsInChunk file t q k
          → Dec (k < t.chunk_size)
          → Returns t t.total_writes t.trace_index
      inside q k i (yes h) = Found-Returns t t q k (record {
        read = stays;
        some_chunk = v.some_chunk;
        long = v.long;
        word = v.word;
        index = i.index;
        inner = h;
        more = more;
        numbers = i.numbers;
        position = i.position;
      })
        where
          at : t.trace_index % t.chunk_size ≡ k
          at =
              ap (λ x. x % t.chunk_size) i.index
              ∙ mul-add-mod_self_right q t.chunk_size k
              ∙ mod-eq_of_lt h

          stays : with_chunk (some file) t ≡ ok t
          stays =
              unfold with_chunk in
              rw
                (
                  ne→== t.chunk_size 0 (omega (arith, v.some_chunk)),
                  at,
                  ne→== k 0 (omega (arith, i.begun)),
                )
                refl
      inside q k i (no h) =
          let full = next_chunk q t.chunk_size k i.chunk h in
          fresh-Returns t (suc q) v (i.index ∙ full)
            (i.position (omega (arith, i.index, more, v.long, h, i.chunk))
              ∙ ap (λ n. some n) (omega (arith, full, h, i.chunk)))
            more

  -- For a trace file with at least `total_writes` numbers, fewer than 2^64, and a replay that has
  -- returned `trace_index` of them, the next n accesses, no more than total_writes in all, return the
  -- next n numbers of the file in their order, whatever the size of the chunks.
  pub get_pages-take :
      (n : ℕ) (t : FioTrace)
      → IsReplay file t
      → t.trace_index + n ≤ t.total_writes
      → (u : FioTrace) × (get_pages (some file) n t
          ≡ ok (take n (drop_numbers t.trace_index file), u))
        × IsReplay file u
        × (u.trace_index ≡ t.trace_index + n)
  unfolding get_pages
  get_pages-take zero t v h = (t, refl, v, omega arith)
  get_pages-take (suc n) t v h =
      let first = get_page-Returns t v (omega (arith, h)) in
      let rest =
        get_pages-take n first.next first.replays
          (omega (arith, h, first.index, first.total_writes)) in
      let listed : t.trace_index < length file = omega (arith, h, v.long) in
      (
        rest.0,
        rw (first.runs, rest.1, drop_numbers-step t.trace_index file listed, first.index) refl,
        rest.2,
        omega (arith, rest.3, first.index),
      )

-- A new replay has returned nothing.
pub new_fio_trace-IsReplay :
    (file : List ℕ) (n : ℕ) → n ≤ length file → n < 2 ^ 64 → IsReplay file (new_fio_trace n)
unfolding new_fio_trace
new_fio_trace-IsReplay file n long word = record {
  some_chunk = omega arith;
  long = long;
  word = word;
  state = inl (refl, refl);
}
