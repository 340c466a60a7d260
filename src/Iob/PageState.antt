-- ===== src/Iob/PageState.antt =====
-- The checks in the pages that the benchmark writes: iob/PageState.hpp, built without NDEBUG. A buffer of
-- `char` is its address and the list of the 4 KB pages that it is read as.
pub mod RoundTrip
use ssdiq.Prelude.{
  ℕ, zero, suc, ◌+◌, ◌-◌, ◌*◌, ◌/◌, ◌%◌, ◌^◌, Bool, true, false, ◌&&◌, List, [], ◌∷◌, Result, ok,
  err, Fault, ◌>>=◌, ◌>>◌, assert, fetch, ◌==◌, if◌then◌else◌, add64, mul64, ℤ, pos, minus_one,
  to_int64, int_eq, set, length,
}

abbrev pub page_size : ℕ
page_size = 4 * 1024

pub record Page : Type 0 where
  pub id : ℤ
  pub version : ℤ
  pub words : List ℕ
  pub end_id : ℤ
  pub checksum : ℕ

pub record FileState : Type 0 where
  pub crc : Bool
  pub random_data : Bool

-- `for (uint64_t& d: page->data) d = rand()`.
unfoldable pub draw : (ℕ → ℕ) → List ℕ → List ℕ
draw rand [] = []
draw rand (d ∷ ds) = rand 0 ∷ draw (λ i. rand (i + 1)) ds

abbrev pub reset_checks : Page → Page
reset_checks page = record page {
  id = minus_one;
  version = minus_one;
  end_id = minus_one;
  checksum = 2 ^ 64 - 1;
}

-- The page of index `i` of a buffer that stands at `offset` of the file.
abbrev pub page_id : ℕ → ℕ → ℤ
page_id offset i = to_int64 (add64 offset (mul64 i page_size) / page_size)

-- `xxh32` stands for XXH32 of the library xxHash, which reads the page without its last word.
module _ (xxh32 : ℤ → ℤ → List ℕ → ℤ → ℕ) where
  abbrev pub calc_checksum : Page → ℕ
  calc_checksum page = xxh32 page.id page.version page.words page.end_id

  abbrev pub add_checksum : Bool → Page → Page
  add_checksum crc page = if crc then record page { checksum = calc_checksum page } else page

  -- The body of the loop of `writeBufferChecks`. `rand` holds the numbers that are still to be drawn.
  abbrev pub stamp : FileState → ℤ → (ℕ → ℕ) → Page → Page
  stamp fs id rand page = add_checksum fs.crc (record page {
    id = id;
    version = pos 5;
    end_id = id;
    checksum = 0;
    words = if fs.random_data then draw rand page.words else page.words;
  })

  abbrev pub drawn : FileState → (ℕ → ℕ) → Page → ℕ → ℕ
  drawn fs rand page = if fs.random_data then (λ i. rand (i + length page.words)) else rand

  unfoldable pub write_loop : FileState → ℕ → ℕ → ℕ → (ℕ → ℕ) → List Page → Result (List Page)
  write_loop fs offset zero i rand pages = ok pages
  write_loop fs offset (suc rounds) i rand pages = do
    page ← fetch Fault.undefined_access pages i
    write_loop fs offset rounds (i + 1) (drawn fs rand page)
        (set pages i (stamp fs (page_id offset i) rand page))

  unfoldable pub write_buffer_checks :
      FileState → ℕ → List Page → ℕ → ℕ → (ℕ → ℕ) → Result (List Page)
  write_buffer_checks fs address pages offset len rand = do
    assert (len % page_size == 0)
    assert (address % page_size == 0)
    write_loop fs offset (len / page_size) 0 rand pages

  abbrev pub page_ok : FileState → ℤ → Page → Bool
  page_ok fs id page =
      int_eq page.id id
      && int_eq page.version (pos 5)
      && int_eq page.end_id id
      && (if fs.crc then page.checksum == calc_checksum page else true)

  unfoldable pub check_loop : FileState → ℕ → ℕ → ℕ → List Page → Result Bool
  check_loop fs offset zero i pages = ok true
  check_loop fs offset (suc rounds) i pages = do
    page ← fetch Fault.undefined_access pages i
    let rest = check_loop fs offset rounds (i + 1) pages
    if page_ok fs (page_id offset i) page then rest else ok false

  unfoldable pub check_buffer_no_throw : FileState → ℕ → List Page → ℕ → ℕ → Result Bool
  check_buffer_no_throw fs address pages offset len = do
    assert (len % page_size == 0)
    assert (address % page_size == 0)
    check_loop fs offset (len / page_size) 0 pages

  -- The exception is a std::logic_error.
  unfoldable pub check_buffer : FileState → ℕ → List Page → ℕ → ℕ → Result (Unit {0})
  check_buffer fs address pages offset len = do
    passed ← check_buffer_no_throw fs address pages offset len
    if passed then ok tt else err Fault.logic_error

-- `resetBufferChecks` resets the first page only.
unfoldable pub reset_buffer_checks : List Page → Result (List Page)
reset_buffer_checks pages = do
  page ← fetch Fault.undefined_access pages 0
  ok (set pages 0 (reset_checks page))
