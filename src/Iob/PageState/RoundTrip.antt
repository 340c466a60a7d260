-- ===== src/Iob/PageState/RoundTrip.antt =====
-- A buffer that FileState::writeBufferChecks of iob/PageState.hpp fills passes FileState::checkBuffer.
use ssdiq.Prelude.{
  ℕ, zero, suc, ◌+◌, ◌/◌, ◌%◌, ◌<◌, ◌≤◌, ◌≡◌, ◌≢◌, refl, sym, ap, ◌∙◌, Bool, true, false, List, [],
  ok, err, Fault, arith, ◌==◌, ==-refl, ne→==, fetch-in, if◌then◌else◌, ℤ, pos, negsuc, int_eq,
  int_eq_refl, length, get_or, set, length-set, get_or-set_self, get_or-set_ne, ℕ_discrete, subst,
}
use ssdiq.Iob.PageState.{
  Page, FileState, page_size, page_id, add_checksum, stamp, drawn, draw, write_loop,
  write_buffer_checks, page_ok, check_loop, check_buffer_no_throw, check_buffer,
}

-- What is read outside a buffer.
abbrev blank : Page
blank = record { id = pos 0; version = pos 0; words = []; end_id = pos 0; checksum = 0 }

abbrev pub nth_page : List Page → ℕ → Page
nth_page pages i = get_or pages i blank

int_eq-ne : (a b : ℤ) → a ≢ b → int_eq a b ≡ false
int_eq-ne (pos a) (pos b) n = ne→== a b (λ e. n (ap pos e))
int_eq-ne (pos a) (negsuc b) n = refl
int_eq-ne (negsuc a) (pos b) n = refl
int_eq-ne (negsuc a) (negsuc b) n = ne→== a b (λ e. n (ap negsuc e))

-- What the asserts of both functions ask of a buffer.
pub record IsBuffer (address len : ℕ) (pages : List Page) : Type 0 where
  pub whole : len % page_size ≡ 0
  pub aligned : address % page_size ≡ 0
  pub holds : len / page_size ≤ length pages

zero-test : (n : ℕ) → n ≡ 0 → (n == 0) ≡ true
zero-test n h = ap (λ m. m == 0) h

module _ (xxh32 : ℤ → ℤ → List ℕ → ℤ → ℕ) where
  -- The checks of a page before its checksum is set.
  abbrev IsMarked : ℤ → Page → Type 0
  IsMarked id page = (page.id ≡ id) × (page.version ≡ pos 5) × (page.end_id ≡ id)

  checksum-ok :
      (reads writes : Bool) (id : ℤ) (page : Page)
      → (reads ≡ true → writes ≡ true)
      → IsMarked id page
      → page_ok xxh32
          (record { crc = reads; random_data = false })
          id
          (add_checksum xxh32 writes page)
        ≡ true
  checksum-ok true true id page f m =
      rw (m.0, m.1, m.2, int_eq_refl id, ==-refl (xxh32 id (pos 5) page.words id)) refl
  checksum-ok true false id page f m = let e = f refl in cc
  checksum-ok false true id page f m = rw (m.0, m.1, m.2, int_eq_refl id) refl
  checksum-ok false false id page f m = rw (m.0, m.1, m.2, int_eq_refl id) refl

  module _ (reader writer : FileState) (agree : reader.crc ≡ true → writer.crc ≡ true) where
    stamp-ok :
        (id : ℤ) (rand : ℕ → ℕ) (page : Page)
        → page_ok xxh32 reader id (stamp xxh32 writer id rand page) ≡ true
    stamp-ok id rand page =
        checksum-ok reader.crc writer.crc id
          (record page {
            id = id;
            version = pos 5;
            end_id = id;
            checksum = 0;
            words = if writer.random_data then draw rand page.words else page.words;
          })
          agree (refl, refl, refl)

    module _ (offset : ℕ) where
      -- What the loop leaves: the pages that it passed are in order, those before are as they were.
      record Stamps (rounds i : ℕ) (pages out : List Page) : Type 0 where
        size : length out ≡ length pages
        before : (j : ℕ) → j < i → nth_page out j ≡ nth_page pages j
        passed :
            (j : ℕ)
            → i ≤ j
            → j < i + rounds
            → page_ok xxh32 reader (page_id offset j) (nth_page out j) ≡ true

      write_loop-step :
          (rounds i : ℕ) (rand : ℕ → ℕ) (pages : List Page)
          → i < length pages
          → write_loop xxh32 writer offset (suc rounds) i rand pages
            ≡ write_loop xxh32 writer offset rounds
                (i + 1)
                (drawn xxh32 writer rand (nth_page pages i))
                (set pages i (stamp xxh32 writer (page_id offset i) rand (nth_page pages i)))
      unfolding write_loop
      write_loop-step rounds i rand pages h =
          rw (fetch-in Fault.undefined_access pages i blank h) refl

      write_loop-Stamps :
          (rounds i : ℕ) (rand : ℕ → ℕ) (pages : List Page)
          → i + rounds ≤ length pages
          → (out : List Page) × (write_loop xxh32 writer offset rounds i rand pages ≡ ok out)
            × Stamps rounds i pages out
      write_loop-Stamps zero i rand pages h = (
        pages,
        unfold write_loop in refl,
        record {
          size = refl;
          before = λ j k. refl;
          passed = λ j k l. absurd (omega (arith, k, l));
        },
      )
      write_loop-Stamps (suc rounds) i rand pages h =
          let page = nth_page pages i in
          let made = stamp xxh32 writer (page_id offset i) rand page in
          let low : i < length pages = omega (arith, h) in
          let r =
            write_loop-Stamps rounds (i + 1) (drawn xxh32 writer rand page) (set pages i made)
              (omega (arith, h, length-set pages i made)) in
          let here : nth_page r.0 i ≡ made =
            r.2.before i (omega arith) ∙ get_or-set_self pages i made blank low in
          (
            r.0,
            write_loop-step rounds i rand pages low ∙ r.1,
            record {
              size = r.2.size ∙ length-set pages i made;
              before = λ j k.
                  r.2.before j (omega (arith, k))
                  ∙ get_or-set_ne pages i j made blank (λ e. omega (arith, k, e));
              passed = λ j k l. elim (ℕ_discrete i j) [
                | yes e ↦
                    subst (λ t. page_ok xxh32 reader (page_id offset t) (nth_page r.0 t) ≡ true) e
                      (ap (page_ok xxh32 reader (page_id offset i)) here
                        ∙ stamp-ok (page_id offset i) rand page)
                | no ne ↦ r.2.passed j (omega (arith, k, ne)) (omega (arith, l))
              ];
            },
          )

    check_loop-step :
        (offset rounds i : ℕ) (pages : List Page)
        → i < length pages
        → check_loop xxh32 reader offset (suc rounds) i pages ≡ (
            if page_ok xxh32 reader (page_id offset i) (nth_page pages i)
            then check_loop xxh32 reader offset rounds (i + 1) pages
            else ok false)
    unfolding check_loop
    check_loop-step offset rounds i pages h =
        rw (fetch-in Fault.undefined_access pages i blank h) refl

    check_loop-passes :
        (offset rounds i : ℕ) (pages : List Page)
        → i + rounds ≤ length pages
        → ((j : ℕ)
            → i ≤ j
            → j < i + rounds
            → page_ok xxh32 reader (page_id offset j) (nth_page pages j) ≡ true)
        → check_loop xxh32 reader offset rounds i pages ≡ ok true
    check_loop-passes offset zero i pages h f = unfold check_loop in refl
    check_loop-passes offset (suc rounds) i pages h f =
        check_loop-step offset rounds i pages (omega (arith, h))
        ∙ rw (f i (omega arith) (omega arith)) (
            check_loop-passes offset rounds (i + 1) pages (omega (arith, h))
              (λ j k l. f j (omega (arith, k)) (omega (arith, l))))

    write-steps :
        (address len offset : ℕ) (pages : List Page) (rand : ℕ → ℕ)
        → IsBuffer address len pages
        → write_buffer_checks xxh32 writer address pages offset len rand
          ≡ write_loop xxh32 writer offset (len / page_size) 0 rand pages
    unfolding write_buffer_checks
    write-steps address len offset pages rand b =
        rw (zero-test (len % page_size) b.whole, zero-test (address % page_size) b.aligned) refl

    check-steps :
        (address len offset : ℕ) (pages out : List Page)
        → IsBuffer address len pages
        → check_buffer_no_throw xxh32 reader address out offset len
          ≡ check_loop xxh32 reader offset (len / page_size) 0 out
    unfolding check_buffer_no_throw
    check-steps address len offset pages out b =
        rw (zero-test (len % page_size) b.whole, zero-test (address % page_size) b.aligned) refl

    -- A buffer whose pages `writeBufferChecks` has filled passes `checkBuffer` at the same offset, whatever
    -- the buffer held and whatever data was drawn, if no checksum is checked that was not written.
    pub write-check_buffer :
        (address len offset : ℕ) (pages : List Page) (rand : ℕ → ℕ)
        → IsBuffer address len pages
        → (out : List Page) × (write_buffer_checks xxh32 writer address pages offset len rand
            ≡ ok out)
          × (length out ≡ length pages)
          × (check_buffer xxh32 reader address out offset len ≡ ok tt)
    unfolding check_buffer
    write-check_buffer address len offset pages rand b =
        let r = write_loop-Stamps offset (len / page_size) 0 rand pages (omega (arith, b.holds)) in
        let c =
          check-steps address len offset pages r.0 b
          ∙ check_loop-passes offset (len / page_size) 0 r.0 (omega (arith, b.holds, r.2.size))
              r.2.passed in
        (r.0, write-steps address len offset pages rand b ∙ r.1, r.2.size, rw c refl)

    wrong-id :
        (id other : ℤ) (rand : ℕ → ℕ) (page : Page)
        → id ≢ other
        → page_ok xxh32 reader other (stamp xxh32 writer id rand page) ≡ false
    wrong-id id other rand page n =
        marked writer.crc
          (record page {
            id = id;
            version = pos 5;
            end_id = id;
            checksum = 0;
            words = if writer.random_data then draw rand page.words else page.words;
          })
          refl
      where
        marked :
            (writes : Bool) (p : Page)
            → p.id ≡ id
            → page_ok xxh32 reader other (add_checksum xxh32 writes p) ≡ false
        marked true p e = rw (e, int_eq-ne id other n) refl
        marked false p e = rw (e, int_eq-ne id other n) refl

    -- At an offset whose first page has another number the same buffer is refused, checksums or not.
    pub write-check_other :
        (address len offset other : ℕ) (pages : List Page) (rand : ℕ → ℕ)
        → IsBuffer address len pages
        → 0 < len / page_size
        → page_id offset 0 ≢ page_id other 0
        → (out : List Page) × (write_buffer_checks xxh32 writer address pages offset len rand
            ≡ ok out)
          × (check_buffer xxh32 reader address out other len ≡ err Fault.logic_error)
    unfolding check_buffer
    write-check_other address len offset other pages rand b some_page apart =
        from (len / page_size) refl some_page
      where
        from :
            (n : ℕ)
            → n ≡ len / page_size
            → 0 < n
            → (out : List Page) × (write_buffer_checks xxh32 writer address pages offset len rand
                ≡ ok out)
              × (check_buffer xxh32 reader address out other len ≡ err Fault.logic_error)
        from zero e h = absurd (omega (arith, h))
        from (suc n) e h =
            let low : 0 < length pages = omega (arith, b.holds, e) in
            let page = nth_page pages 0 in
            let made = stamp xxh32 writer (page_id offset 0) rand page in
            let r =
              write_loop-Stamps offset n 1 (drawn xxh32 writer rand page) (set pages 0 made)
                (omega (arith, b.holds, e, length-set pages 0 made)) in
            let first : nth_page r.0 0 ≡ made =
              r.2.before 0 (omega arith) ∙ get_or-set_self pages 0 made blank low in
            let c : check_buffer_no_throw xxh32 reader address r.0 other len ≡ ok false =
              check-steps address len other pages r.0 b
              ∙ ap (λ k. check_loop xxh32 reader other k 0 r.0) (sym e)
              ∙ check_loop-step other n 0 r.0
                  (omega (arith, low, r.2.size, length-set pages 0 made))
              ∙ rw (first, wrong-id (page_id offset 0) (page_id other 0) rand page apart) refl in
            (
              r.0,
              write-steps address len offset pages rand b
                  ∙ ap (λ k. write_loop xxh32 writer offset k 0 rand pages) (sym e)
                  ∙ write_loop-step offset n 0 rand pages low
                  ∙ r.1,
              rw c refl,
            )
