-- ===== src/Iob/RequestStack.antt =====
-- The stacks of requests of a channel: class RequestStack of iob/io/RequestStack.hpp, built without
-- NDEBUG, so that it keeps the set of outstanding requests and checks its assertions. The requests are
-- numbered by their place in `requests`; a pointer is the number of a request, or null.
pub mod Count
pub mod Ownership
pub mod Steps
pub mod Runs
use ssdiq.Prelude.{
  ℕ, zero, suc, ◌+◌, ◌-◌, Bool, true, false, not, ◌&&◌, ◌||◌, List, [], ◌∷◌, Option, none, some,
  Result, ok, err, Fault, ◌>>=◌, ◌>>◌, ensure, assert, fetch, store, ltb, leb, ◌==◌, if◌then◌else◌,
  length, set, replicate,
}

abbrev pub Pointer : Type 0
Pointer = Option ℕ

pub record RequestStack : Type 0 where
  pub free_stack : List Pointer
  pub submit_stack : List Pointer
  pub outstanding_set : List Pointer
  pub max_entries : ℕ
  pub free : ℕ
  pub pushed : ℕ

-- `for (int i = 0; i < max_entries; i++) free_stack[i] = &requests[i]`, from `i` on.
unfoldable pub all_requests : ℕ → ℕ → List Pointer
all_requests zero i = []
all_requests (suc rounds) i = some i ∷ all_requests rounds (i + 1)

-- The constructor. `make_unique` makes the pointers of `submit_stack` null.
unfoldable pub new_request_stack : ℕ → RequestStack
new_request_stack max_entries = record {
  free_stack = all_requests max_entries 0;
  submit_stack = replicate max_entries none;
  outstanding_set = [];
  max_entries = max_entries;
  free = max_entries;
  pushed = 0;
}

abbrev pub same_pointer : Pointer → Pointer → Bool
same_pointer none none = true
same_pointer none (some q) = false
same_pointer (some p) none = false
same_pointer (some p) (some q) = p == q

-- `outstanding_set.find(p) != outstanding_set.end()`.
unfoldable pub holds : Pointer → List Pointer → Bool
holds p [] = false
holds p (q ∷ qs) = same_pointer q p || holds p qs

unfoldable pub insert : Pointer → List Pointer → List Pointer
insert p ps = if holds p ps then ps else p ∷ ps

-- `outstanding_set.erase(found)`: the one entry of the set that equals `p`.
unfoldable pub take_out : Pointer → List Pointer → List Pointer
take_out p [] = []
take_out p (q ∷ qs) = let rest = take_out p qs in if same_pointer q p then qs else q ∷ rest

abbrev pub outstanding : RequestStack → Result ℕ
outstanding s = do
  assert (s.max_entries - s.free - s.pushed == length s.outstanding_set)
  ok (s.max_entries - s.free - s.pushed)

-- The pointer that goes out, or `none` for the answer `false`.
unfoldable pub take_free : RequestStack → Result (Pointer × RequestStack)
take_free s = do
  out ← fetch Fault.undefined_access s.free_stack (s.free - 1)
  ok (out, record s { free = s.free - 1 })

unfoldable pub pop_from_free_stack : RequestStack → Result (Option Pointer × RequestStack)
pop_from_free_stack s =
    let go_on = (do taken ← take_free s; ok (some taken.0, taken.1)) in
    if s.free == 0 then ok (none, s) else go_on

unfoldable pub push_to_submit_stack : Pointer → RequestStack → Result RequestStack
push_to_submit_stack req s = do
  stored ← store Fault.undefined_access s.submit_stack s.pushed req
  ok (record s { submit_stack = stored; pushed = s.pushed + 1 })

-- The direct path, on a stack that has a free request.
unfoldable pub move_one : RequestStack → Result (Option Pointer × RequestStack)
move_one s = do
  assert (ltb (s.free - 1) s.max_entries)
  taken ← take_free s
  assert (ltb taken.1.pushed taken.1.max_entries)
  moved ← push_to_submit_stack taken.0 taken.1
  ok (some taken.0, moved)

unfoldable pub move_free_to_submit_stack : RequestStack → Result (Option Pointer × RequestStack)
move_free_to_submit_stack s = if s.free == 0 then ok (none, s) else move_one s

-- The loop of `emptySubmitStack` from index `i` on.
unfoldable pub empty_loop : ℕ → ℕ → RequestStack → Result RequestStack
empty_loop zero i s = ok s
empty_loop (suc rounds) i s = do
  p ← fetch Fault.undefined_access s.submit_stack i
  empty_loop rounds (i + 1) (record s {
    outstanding_set = insert p s.outstanding_set;
    submit_stack = set s.submit_stack i none;
  })

unfoldable pub empty_submit_stack : RequestStack → Result RequestStack
empty_submit_stack s = do emptied ← empty_loop s.pushed 0 s; ok (record emptied { pushed = 0 })

unfoldable pub pop_from_submit_stack : RequestStack → Result (Option Pointer × RequestStack)
pop_from_submit_stack s =
    let go_on = (do
      out ← fetch Fault.undefined_access s.submit_stack (s.pushed - 1)
      ok (
        some out,
        record s { pushed = s.pushed - 1; outstanding_set = insert out s.outstanding_set },
      )) in
    if leb s.pushed 0 then ok (none, s) else go_on

unfoldable pub return_to_free_list : Pointer → RequestStack → Result RequestStack
return_to_free_list p s = do
  ensure (holds p s.outstanding_set)
  stored ← store Fault.undefined_access s.free_stack s.free p
  ok (record s {
    outstanding_set = take_out p s.outstanding_set;
    free_stack = stored;
    free = s.free + 1;
  })
