-- ===== src/Iob/RequestStack/Steps.antt =====
-- Runs of the operations of iob/io/RequestStack.hpp.
use ssdiq.Prelude.{
  ℕ, ◌-◌, ◌<◌, ◌≡◌, refl, sym, ap, true, false, List, ◌∷◌, Option, none, some, arith, get_or, ok,
  err, Fault, Result, fetch-in, ◌==◌, ==-refl, ne→==, leb, dec_lt, subst,
}
use ssdiq.Iob.RequestStack.{
  Pointer, RequestStack, holds, insert, take_out, pop_from_free_stack, push_to_submit_stack,
  move_free_to_submit_stack, pop_from_submit_stack, return_to_free_list,
}
use ssdiq.Iob.RequestStack.Count.{hit, occurs, absent-holds}
use ssdiq.Iob.RequestStack.Ownership.{
  IsOwned, top, popped, take_free-ok, popped-IsOwned, push-ok, queued-IsOwned, return-ok,
  returned-IsOwned, count-top,
}

-- What an operation may end in: no fault, and every request still has one owner.
abbrev pub Pops : List Pointer → Result (Option Pointer × RequestStack) → Type 0
Pops users (err e) = ⊥
Pops users (ok (none, s)) = IsOwned users s
Pops users (ok (some p, s)) = IsOwned (p ∷ users) s

abbrev pub Moves : List Pointer → Result (Option Pointer × RequestStack) → Type 0
Moves users (err e) = ⊥
Moves users (ok (p, s)) = IsOwned users s

abbrev pub Lands : List Pointer → Result RequestStack → Type 0
Lands users (err e) = ⊥
Lands users (ok s) = IsOwned users s

leb-zero : (n : ℕ) → 0 < n → leb n 0 ≡ false
leb-zero n h = ground arith

pub pop-none : (s : RequestStack) → s.free ≡ 0 → pop_from_free_stack s ≡ ok (none, s)
unfolding pop_from_free_stack
pop-none s h = let e : (s.free == 0) ≡ true = ap (λ n. n == 0) h in rw e refl

pub move-none : (s : RequestStack) → s.free ≡ 0 → move_free_to_submit_stack s ≡ ok (none, s)
unfolding move_free_to_submit_stack
move-none s h = let e : (s.free == 0) ≡ true = ap (λ n. n == 0) h in rw e refl

pub submit-none : (s : RequestStack) → s.pushed ≡ 0 → pop_from_submit_stack s ≡ ok (none, s)
unfolding pop_from_submit_stack
submit-none s h = let e : leb s.pushed 0 ≡ true = ap (λ n. leb n 0) h in rw e refl

module _ (users : List Pointer) (s : RequestStack) (g : IsOwned users s) where
  pub pop-some :
      (h : 0 < s.free) → pop_from_free_stack s ≡ ok (some (top users s g h), popped users s g h)
  unfolding pop_from_free_stack
  pop-some h = rw (ne→== s.free 0 (omega arith), take_free-ok users s g h) refl

  pub pop-Pops : Pops users (pop_from_free_stack s)
  pop-Pops = elim (dec_lt 0 s.free) [
    | yes h ↦ subst (Pops users) (sym (pop-some h)) (popped-IsOwned users s g h)
    | no h ↦ subst (Pops users) (sym (pop-none s (omega arith))) g
  ]

  pub push-Lands :
      (p : Pointer) → holds p users ≡ true → Lands (take_out p users) (push_to_submit_stack p s)
  push-Lands p h =
      subst (Lands (take_out p users)) (sym (push-ok users s g p h)) (queued-IsOwned users s g p h)

  pub return-Lands :
      (p : Pointer) → holds p s.outstanding_set ≡ true → Lands users (return_to_free_list p s)
  return-Lands p h =
      subst (Lands users) (sym (return-ok users s g p h)) (returned-IsOwned users s g p h)

  pub return-refused :
      (p : Pointer)
      → holds p s.outstanding_set ≡ false
      → return_to_free_list p s ≡ err Fault.ensure_failed
  unfolding return_to_free_list
  return-refused p h = rw h refl

  -- The top of the submit stack becomes outstanding; it was not before.
  module _ (h : 0 < s.pushed) where
    abbrev pub next : Pointer
    next = get_or s.submit_stack (s.pushed - 1) none

    new_one : holds next s.outstanding_set ≡ false
    new_one =
        let q = g.pushed_requests (s.pushed - 1) (omega arith) in
        subst (λ p. holds p s.outstanding_set ≡ false) (sym q.1)
          (absent-holds q.0 s.outstanding_set (
            omega (
              arith,
              g.one q.0 q.2,
              count-top q.0 s.pushed s.submit_stack h (omega (arith, g.total, g.submit_room)),
              ap (hit q.0) q.1,
              own q.0,
            )))
      where
        own : (r : ℕ) → hit r (some r) ≡ 1
        own r = rw (==-refl r) refl

    abbrev pub sent : RequestStack
    sent = record s { pushed = s.pushed - 1; outstanding_set = next ∷ s.outstanding_set }

    pub submit-some : pop_from_submit_stack s ≡ ok (some next, sent)
    unfolding pop_from_submit_stack insert
    submit-some =
        rw
          (
            leb-zero s.pushed h,
            fetch-in Fault.undefined_access s.submit_stack (s.pushed - 1) none
                (omega (arith, g.total, g.submit_room)),
            new_one,
          )
          refl

    pub sent-IsOwned : IsOwned users sent
    unfolding occurs
    sent-IsOwned = record {
      free_room = g.free_room;
      submit_room = g.submit_room;
      total = omega (arith, g.total);
      one = λ r k. omega (
        arith,
        g.one r k,
        count-top r s.pushed s.submit_stack h (omega (arith, g.total, g.submit_room)),
      );
      free_requests = g.free_requests;
      pushed_requests = λ i k. g.pushed_requests i (omega arith);
      user_requests = g.user_requests;
      outstanding_requests =
          (g.pushed_requests (s.pushed - 1) (omega arith), g.outstanding_requests);
    }

  pub submit-Moves : Moves users (pop_from_submit_stack s)
  submit-Moves = elim (dec_lt 0 s.pushed) [
    | yes h ↦ subst (Moves users) (sym (submit-some h)) (sent-IsOwned h)
    | no h ↦ subst (Moves users) (sym (submit-none s (omega arith))) g
  ]
