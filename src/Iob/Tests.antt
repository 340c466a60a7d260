-- ===== src/Iob/Tests.antt =====
-- Small runs of the parts of iob/, and their theorems at concrete inputs.
use ssdiq.Prelude.{
  ◌<◌, ◌≤◌, ◌≡◌, refl, true, false, [], ◌∷◌, none, some, arith, ok, err, Fault, List, ℤ, pos,
  length, ◌≢◌, ℕ, ◌+◌,
}
use ssdiq.Iob.PageState.{Page, FileState, page_id, write_buffer_checks, check_buffer}
use ssdiq.Iob.PageState.RoundTrip.{IsBuffer, write-check_buffer, write-check_other}
use ssdiq.Iob.Raid.{Raid0, calc}
use ssdiq.Iob.Raid.Striping.{IsRaid, device_of, offset_of, joined, calc-joined, joined-calc}
use ssdiq.Iob.RequestStack.{
  Pointer, RequestStack, new_request_stack, all_requests, pop_from_free_stack, push_to_submit_stack,
  pop_from_submit_stack, move_free_to_submit_stack, return_to_free_list, take_free, holds, insert,
  take_out,
}
use ssdiq.Iob.RequestStack.Ownership.{IsOwned}
use ssdiq.Iob.RequestStack.Steps.{Pops, Moves, Lands}
use ssdiq.Iob.RequestStack.Runs.{
  Step, Reaches, reaches-IsOwned, operations-total, new_request_stack-IsOwned,
}

-- Three devices with chunks of eight bytes.
abbrev three : Raid0
three = record { device_cnt = 3; chunk_size = 8 }

three-IsRaid : IsRaid three
three-IsRaid = omega arith

calc-joined_example :
    (calc three 45 ≡ ok (device_of three 45, offset_of three 45))
    × (device_of three 45 < three.device_cnt)
    × (offset_of three 45 ≤ 45)
    × (joined three (device_of three 45) (offset_of three 45) ≡ 45)
calc-joined_example = calc-joined three three-IsRaid 45 (omega arith)

joined-calc_example : calc three (joined three 2 13) ≡ ok (2, 13)
joined-calc_example = joined-calc three three-IsRaid 2 13 (omega arith) (omega arith)

-- Two requests: one goes to the user, to the submit stack, out, and back.
abbrev at_start : RequestStack
at_start = new_request_stack 2

abbrev after_pop : RequestStack
after_pop = record at_start { free = 1 }

abbrev after_push : RequestStack
after_push = record after_pop { submit_stack = some 1 ∷ none ∷ []; pushed = 1 }

abbrev after_submit : RequestStack
after_submit = record after_push { pushed = 0; outstanding_set = some 1 ∷ [] }

abbrev after_return : RequestStack
after_return = record after_submit {
  free_stack = some 0 ∷ some 1 ∷ [];
  free = 2;
  outstanding_set = [];
}

goes_round : Reaches 2 [] after_return
unfolding new_request_stack all_requests pop_from_free_stack push_to_submit_stack
    pop_from_submit_stack return_to_free_list take_free holds insert take_out
goes_round =
    Reaches.next [] [] after_submit after_return
      (Reaches.next [] [] after_push after_submit
        (Reaches.next (some 1 ∷ []) [] after_pop after_push
          (Reaches.next [] (some 1 ∷ []) at_start after_pop Reaches.start
            (Step.pop [] at_start after_pop (some 1) refl))
          (Step.push (some 1 ∷ []) after_pop after_push (some 1) refl refl))
        (Step.submit [] after_push after_submit (some (some 1)) refl))
      (Step.give_back [] after_submit after_return (some 1) refl refl)

reaches-IsOwned_example : IsOwned [] after_return
reaches-IsOwned_example = reaches-IsOwned 2 [] after_return goes_round

operations-total_example :
    Pops [] (pop_from_free_stack at_start)
    × Moves [] (move_free_to_submit_stack at_start)
    × Moves [] (pop_from_submit_stack at_start)
    × ((q : Pointer) → holds q [] ≡ true → Lands (take_out q []) (push_to_submit_stack q at_start))
    × ((q : Pointer)
        → holds q at_start.outstanding_set ≡ true
        → Lands [] (return_to_free_list q at_start))
    × ((q : Pointer)
        → holds q at_start.outstanding_set ≡ false
        → return_to_free_list q at_start ≡ err Fault.ensure_failed)
operations-total_example = operations-total [] at_start (new_request_stack-IsOwned 2)

-- A checksum that adds up the words of a page.
abbrev sum_words : List ℕ → ℕ
sum_words [] = 0
sum_words (w ∷ ws) = w + sum_words ws

abbrev sum_of : ℤ → ℤ → List ℕ → ℤ → ℕ
sum_of id version words end_id = sum_words words

abbrev both : FileState
both = record { crc = true; random_data = true }

abbrev old_page : Page
old_page = record { id = pos 7; version = pos 1; words = 3 ∷ 4 ∷ []; end_id = pos 0; checksum = 9 }

abbrev two_pages : List Page
two_pages = old_page ∷ old_page ∷ []

two_pages-IsBuffer : IsBuffer 12288 8192 two_pages
two_pages-IsBuffer = record { whole = refl; aligned = refl; holds = omega arith }

write-check_buffer_example :
    (out : List Page) × (write_buffer_checks sum_of both 12288 two_pages 4096 8192 (λ i. i + 5)
      ≡ ok out)
    × (length out ≡ length two_pages)
    × (check_buffer sum_of both 12288 out 4096 8192 ≡ ok tt)
write-check_buffer_example =
    write-check_buffer sum_of both both (λ h. h) 12288 8192 4096 two_pages (λ i. i + 5)
      two_pages-IsBuffer

ids_apart : page_id 4096 0 ≢ page_id 16384 0
ids_apart e = cc

write-check_other_example :
    (out : List Page) × (write_buffer_checks sum_of both 12288 two_pages 4096 8192 (λ i. i + 5)
      ≡ ok out)
    × (check_buffer sum_of both 12288 out 16384 8192 ≡ err Fault.logic_error)
write-check_other_example =
    write-check_other sum_of both both (λ h. h) 12288 8192 4096 16384 two_pages (λ i. i + 5)
      two_pages-IsBuffer (omega arith) ids_apart
