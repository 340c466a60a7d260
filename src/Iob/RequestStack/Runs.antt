-- ===== src/Iob/RequestStack/Runs.antt =====
-- All runs of a channel's stacks of iob/io/RequestStack.hpp, from the constructor on.
use ssdiq.Prelude.{
  ℕ, zero, suc, ◌+◌, ◌-◌, ◌<◌, ◌≤◌, ◌≡◌, refl, sym, ap, ◌∙◌, true, false, List, [], ◌∷◌, Option,
  none, some, arith, length, get_or, length-replicate, ok, err, Fault, ◌==◌, ==-refl, ne→==, lt→ltb,
  dec_lt, subst, ℕ_discrete,
}
use ssdiq.Iob.RequestStack.{
  Pointer, RequestStack, holds, take_out, same_pointer, new_request_stack, all_requests,
  pop_from_free_stack, push_to_submit_stack, move_one, move_free_to_submit_stack,
  pop_from_submit_stack, return_to_free_list,
}
use ssdiq.Iob.RequestStack.Count.{count, occurs}
use ssdiq.Iob.RequestStack.Ownership.{
  IsOwned, top, popped, take_free-ok, popped-IsOwned, queued, push-ok, queued-IsOwned,
}
use ssdiq.Iob.RequestStack.Steps.{
  Pops, Moves, Lands, pop-Pops, push-Lands, return-Lands, return-refused, submit-Moves, move-none,
}

same_pointer_refl : (p : Pointer) → same_pointer p p ≡ true
same_pointer_refl none = refl
same_pointer_refl (some p) = ==-refl p

holds-first : (p : Pointer) (ps : List Pointer) → holds p (p ∷ ps) ≡ true
unfolding holds
holds-first p ps = rw (same_pointer_refl p) refl

take_out-first : (p : Pointer) (ps : List Pointer) → take_out p (p ∷ ps) ≡ ps
unfolding take_out
take_out-first p ps = rw (same_pointer_refl p) refl

-- The direct path is a pop and a push.
module _ (users : List Pointer) (s : RequestStack) (g : IsOwned users s) where
  module _ (h : 0 < s.free) where
    abbrev p : Pointer
    p = top users s g h

    abbrev between : RequestStack
    between = popped users s g h

    between-IsOwned : IsOwned (p ∷ users) between
    between-IsOwned = popped-IsOwned users s g h

    abbrev moved : RequestStack
    moved = queued (p ∷ users) between between-IsOwned p (holds-first p users)

    move-some : move_free_to_submit_stack s ≡ ok (some p, moved)
    unfolding move_free_to_submit_stack move_one
    move-some =
        rw
          (
            ne→== s.free 0 (omega arith),
            lt→ltb (s.free - 1) s.max_entries (omega (arith, g.total)),
            take_free-ok users s g h,
            lt→ltb s.pushed s.max_entries (omega (arith, g.total)),
            push-ok (p ∷ users) between between-IsOwned p (holds-first p users),
          )
          refl

    moved-IsOwned : IsOwned users moved
    moved-IsOwned =
        subst (λ us. IsOwned us moved) (take_out-first p users)
          (queued-IsOwned (p ∷ users) between between-IsOwned p (holds-first p users))

  move-Moves : Moves users (move_free_to_submit_stack s)
  move-Moves = elim (dec_lt 0 s.free) [
    | yes h ↦ subst (Moves users) (sym (move-some h)) (moved-IsOwned h)
    | no h ↦ subst (Moves users) (sym (move-none s (omega arith))) g
  ]

  -- While each request has one owner, no operation fails: each finds what it takes, has room for what it
  -- puts and meets its assertions, provided that the user submits a request that the user holds. A
  -- request is returned exactly if it is outstanding. Each request has one owner afterwards.
  pub operations-total :
      Pops users (pop_from_free_stack s)
      × Moves users (move_free_to_submit_stack s)
      × Moves users (pop_from_submit_stack s)
      × ((q : Pointer) → holds q users ≡ true → Lands (take_out q users) (push_to_submit_stack q s))
      × ((q : Pointer) → holds q s.outstanding_set ≡ true → Lands users (return_to_free_list q s))
      × ((q : Pointer)
          → holds q s.outstanding_set ≡ false
          → return_to_free_list q s ≡ err Fault.ensure_failed)
  operations-total = (
    pop-Pops users s g,
    move-Moves,
    submit-Moves users s g,
    push-Lands users s g,
    return-Lands users s g,
    return-refused users s g,
  )

-- The requests in the order of the constructor.
length-all_requests : (n i : ℕ) → length (all_requests n i) ≡ n
unfolding all_requests
length-all_requests zero i = refl
length-all_requests (suc n) i = ap suc (length-all_requests n (i + 1))

get_or-all_requests : (n i j : ℕ) → j < n → get_or (all_requests n i) j none ≡ some (i + j)
unfolding all_requests
get_or-all_requests zero i j h = absurd (omega (arith, h))
get_or-all_requests (suc n) i zero h = ap some (omega arith)
get_or-all_requests (suc n) i (suc j) h =
    get_or-all_requests n (i + 1) j (omega (arith, h)) ∙ ap some (omega arith)

count-below : (r n i : ℕ) → r < i → count r n (all_requests n i) ≡ 0
unfolding count all_requests
count-below r zero i h = refl
count-below r (suc n) i h =
    rw (ne→== i r (omega (arith, h))) (omega (arith, count-below r n (i + 1) (omega (arith, h))))

count-all_requests : (r n i : ℕ) → i ≤ r → r < i + n → count r n (all_requests n i) ≡ 1
unfolding count all_requests
count-all_requests r zero i h k = absurd (omega (arith, h, k))
count-all_requests r (suc n) i h k = elim (ℕ_discrete i r) [
  | yes e ↦
      let b = count-below r n (i + 1) (omega (arith, e)) in
      let m : (i == r) ≡ true = ap (λ t. t == r) e ∙ ==-refl r in rw m (omega (arith, b))
  | no ne ↦
      rw (ne→== i r ne)
        (omega (arith, count-all_requests r n (i + 1) (omega (arith, h, ne)) (omega (arith, k))))
]

pub new_request_stack-IsOwned : (n : ℕ) → IsOwned [] (new_request_stack n)
unfolding new_request_stack count occurs
new_request_stack-IsOwned n = record {
  free_room = length-all_requests n 0;
  submit_room = length-replicate n none;
  total = omega arith;
  one = λ r h. omega (arith, count-all_requests r n 0 (omega arith) (omega (arith, h)));
  free_requests = λ i h. (i, get_or-all_requests n 0 i h ∙ ap some (omega arith), h);
  pushed_requests = λ i h. absurd (omega (arith, h));
  user_requests = tt;
  outstanding_requests = tt;
}

-- One call of an operation that does not fail, the user keeping what it holds to itself.
pub data Step : List Pointer → RequestStack → List Pointer → RequestStack → Type 0 where
  pop :
      (users : List Pointer) (s s' : RequestStack) (p : Pointer)
      → pop_from_free_stack s ≡ ok (some p, s')
      → Step users s (p ∷ users) s'
  push :
      (users : List Pointer) (s s' : RequestStack) (p : Pointer)
      → holds p users ≡ true
      → push_to_submit_stack p s ≡ ok s'
      → Step users s (take_out p users) s'
  move :
      (users : List Pointer) (s s' : RequestStack) (p : Option Pointer)
      → move_free_to_submit_stack s ≡ ok (p, s')
      → Step users s users s'
  submit :
      (users : List Pointer) (s s' : RequestStack) (p : Option Pointer)
      → pop_from_submit_stack s ≡ ok (p, s')
      → Step users s users s'
  give_back :
      (users : List Pointer) (s s' : RequestStack) (p : Pointer)
      → holds p s.outstanding_set ≡ true
      → return_to_free_list p s ≡ ok s'
      → Step users s users s'

Step-IsOwned :
    (users users' : List Pointer) (s s' : RequestStack)
    → Step users s users' s'
    → IsOwned users s
    → IsOwned users' s'
Step-IsOwned _ _ _ _ (Step.pop users s s' p e) g = subst (Pops users) e (pop-Pops users s g)
Step-IsOwned _ _ _ _ (Step.push users s s' p h e) g =
    subst (Lands (take_out p users)) e (push-Lands users s g p h)
Step-IsOwned _ _ _ _ (Step.move users s s' p e) g = subst (Moves users) e (move-Moves users s g)
Step-IsOwned _ _ _ _ (Step.submit users s s' p e) g = subst (Moves users) e (submit-Moves users s g)
Step-IsOwned _ _ _ _ (Step.give_back users s s' p h e) g =
    subst (Lands users) e (return-Lands users s g p h)

pub data Reaches (n : ℕ) : List Pointer → RequestStack → Type 0 where
  start : Reaches n [] (new_request_stack n)
  next :
      (users users' : List Pointer) (s s' : RequestStack)
      → Reaches n users s
      → Step users s users' s'
      → Reaches n users' s'

-- After any sequence of pops, pushes of requests that the user holds, moves, submits and returns on new
-- stacks each request is on the free stack, with the user, on the submit stack or outstanding, and on one
-- of them only, once.
pub reaches-IsOwned :
    (n : ℕ) (users : List Pointer) (s : RequestStack) → Reaches n users s → IsOwned users s
reaches-IsOwned n _ _ Reaches.start = new_request_stack-IsOwned n
reaches-IsOwned n _ _ (Reaches.next users users' s s' r e) =
    Step-IsOwned users users' s s' e (reaches-IsOwned n users s r)
