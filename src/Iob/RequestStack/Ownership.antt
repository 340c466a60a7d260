-- ===== src/Iob/RequestStack/Ownership.antt =====
-- Each request of iob/io/RequestStack.hpp has one owner: the free stack, the user, the submit stack or
-- the set of outstanding requests.
use ssdiq.Prelude.{
  ℕ, ◌+◌, ◌-◌, ◌<◌, ◌≤◌, ◌≡◌, refl, sym, ap, ◌∙◌, inl, inr, true, List, [], ◌∷◌, none, some, arith,
  length, get_or, set, length-set, get_or-set_self, get_or-set_ne, ok, Fault, fetch-in, store-in,
  ==-refl, All, Bool-cases, ℕ_discrete, subst,
}
use ssdiq.Iob.RequestStack.{
  Pointer, RequestStack, holds, take_out, same_pointer, outstanding, take_free,
  push_to_submit_stack, return_to_free_list,
}
use ssdiq.Iob.RequestStack.Count.{
  hit, count, occurs, count-last, count-set_last, occurs-take_out, same_pointer-eq,
}

-- A pointer to one of the requests.
abbrev pub IsRequest : ℕ → Pointer → Type 0
IsRequest m p = (r : ℕ) × (p ≡ some r) × (r < m)

-- The user of a channel holds the requests `users`.
pub record IsOwned (users : List Pointer) (s : RequestStack) : Type 0 where
  pub free_room : length s.free_stack ≡ s.max_entries
  pub submit_room : length s.submit_stack ≡ s.max_entries
  pub total : s.free + s.pushed + length users + length s.outstanding_set ≡ s.max_entries
  pub one :
      (r : ℕ)
      → r < s.max_entries
      → count r s.free s.free_stack
          + count r s.pushed s.submit_stack
          + occurs r users
          + occurs r s.outstanding_set
        ≡ 1
  pub free_requests : (i : ℕ) → i < s.free → IsRequest s.max_entries (get_or s.free_stack i none)
  pub pushed_requests :
      (i : ℕ) → i < s.pushed → IsRequest s.max_entries (get_or s.submit_stack i none)
  pub user_requests : All (IsRequest s.max_entries) users
  pub outstanding_requests : All (IsRequest s.max_entries) s.outstanding_set

pub All-take_out :
    (P : Pointer → Type 0) (p : Pointer) (ps : List Pointer) → All P ps → All P (take_out p ps)
unfolding take_out
All-take_out P p [] h = tt
All-take_out P p (q ∷ qs) h = elim (Bool-cases (same_pointer q p)) [
  | inl e ↦ rw e h.1
  | inr e ↦ rw e (h.0, All-take_out P p qs h.1)
]

pub All-holds :
    (P : Pointer → Type 0) (p : Pointer) (ps : List Pointer) → All P ps → holds p ps ≡ true → P p
unfolding holds
All-holds P p [] h k = cc
All-holds P p (q ∷ qs) h k = elim (Bool-cases (same_pointer q p)) [
  | inl e ↦ subst P (same_pointer-eq q p e) h.0
  | inr e ↦ All-holds P p qs h.1 (rw e at k)
]

-- The top of a stack, counted.
pub count-top :
    (r n : ℕ) (ps : List Pointer)
    → 0 < n
    → n ≤ length ps
    → count r n ps ≡ count r (n - 1) ps + hit r (get_or ps (n - 1) none)
count-top r n ps h k = ap (λ m. count r m ps) (omega arith) ∙ count-last r (n - 1) ps (omega arith)

count-pushed :
    (r n : ℕ) (ps : List Pointer) (p : Pointer)
    → n < length ps
    → count r (n + 1) (set ps n p) ≡ count r n ps + hit r p
count-pushed r n ps p h = omega (
  arith,
  count-last r n (set ps n p) (omega (arith, length-set ps n p)),
  count-set_last r n ps p,
  ap (hit r) (get_or-set_self ps n p none h),
)

requests-pushed :
    (m n : ℕ) (ps : List Pointer) (p : Pointer)
    → n < length ps
    → IsRequest m p
    → ((i : ℕ) → i < n → IsRequest m (get_or ps i none))
    → (i : ℕ) → i < n + 1
    → IsRequest m (get_or (set ps n p) i none)
requests-pushed m n ps p h q f i k = elim (ℕ_discrete n i) [
  | yes e ↦
      subst (λ j. IsRequest m (get_or (set ps n p) j none)) e
        (subst (IsRequest m) (sym (get_or-set_self ps n p none h)) q)
  | no ne ↦ subst (IsRequest m) (sym (get_or-set_ne ps n i p none ne)) (f i (omega (arith, k, ne)))
]

module _ (users : List Pointer) (s : RequestStack) (g : IsOwned users s) where
  -- The assertion of `outstanding` holds when the user holds no request.
  pub outstanding-size : users ≡ [] → outstanding s ≡ ok (length s.outstanding_set)
  outstanding-size none_held =
      let e : s.max_entries - s.free - s.pushed ≡ length s.outstanding_set =
        omega (arith, g.total, ap length none_held) in
      rw (e, ==-refl (length s.outstanding_set)) refl

  module _ (some_free : 0 < s.free) where
    abbrev pub top : Pointer
    top = get_or s.free_stack (s.free - 1) none

    abbrev pub popped : RequestStack
    popped = record s { free = s.free - 1 }

    pub take_free-ok : take_free s ≡ ok (top, popped)
    unfolding take_free
    take_free-ok =
        rw
          (fetch-in Fault.undefined_access s.free_stack (s.free - 1) none
            (omega (arith, g.total, g.free_room)))
          refl

    pub popped-IsOwned : IsOwned (top ∷ users) popped
    unfolding occurs
    popped-IsOwned = record {
      free_room = g.free_room;
      submit_room = g.submit_room;
      total = omega (arith, g.total);
      one = λ r h. omega (
        arith,
        g.one r h,
        count-top r s.free s.free_stack some_free (omega (arith, g.total, g.free_room)),
      );
      free_requests = λ i h. g.free_requests i (omega arith);
      pushed_requests = g.pushed_requests;
      user_requests = (g.free_requests (s.free - 1) (omega arith), g.user_requests);
      outstanding_requests = g.outstanding_requests;
    }

  module _ (p : Pointer) (held : holds p users ≡ true) where
    abbrev pub queued : RequestStack
    queued = record s { submit_stack = set s.submit_stack s.pushed p; pushed = s.pushed + 1 }

    fits : s.pushed < length s.submit_stack
    fits = omega (arith, g.total, g.submit_room, (occurs-take_out 0 p users held).1)

    pub push-ok : push_to_submit_stack p s ≡ ok queued
    unfolding push_to_submit_stack
    push-ok = rw (store-in Fault.undefined_access s.submit_stack s.pushed p fits) refl

    pub queued-IsOwned : IsOwned (take_out p users) queued
    queued-IsOwned = record {
      free_room = g.free_room;
      submit_room = length-set s.submit_stack s.pushed p ∙ g.submit_room;
      total = omega (arith, g.total, (occurs-take_out 0 p users held).1);
      one = λ r h. omega (
        arith,
        g.one r h,
        count-pushed r s.pushed s.submit_stack p fits,
        (occurs-take_out r p users held).0,
      );
      free_requests = g.free_requests;
      pushed_requests =
          requests-pushed s.max_entries s.pushed s.submit_stack p fits
            (All-holds (IsRequest s.max_entries) p users g.user_requests held) g.pushed_requests;
      user_requests = All-take_out (IsRequest s.max_entries) p users g.user_requests;
      outstanding_requests = g.outstanding_requests;
    }

  module _ (p : Pointer) (out : holds p s.outstanding_set ≡ true) where
    abbrev pub returned : RequestStack
    returned = record s {
      outstanding_set = take_out p s.outstanding_set;
      free_stack = set s.free_stack s.free p;
      free = s.free + 1;
    }

    space : s.free < length s.free_stack
    space = omega (arith, g.total, g.free_room, (occurs-take_out 0 p s.outstanding_set out).1)

    pub return-ok : return_to_free_list p s ≡ ok returned
    unfolding return_to_free_list
    return-ok = rw (out, store-in Fault.undefined_access s.free_stack s.free p space) refl

    pub returned-IsOwned : IsOwned users returned
    returned-IsOwned = record {
      free_room = length-set s.free_stack s.free p ∙ g.free_room;
      submit_room = g.submit_room;
      total = omega (arith, g.total, (occurs-take_out 0 p s.outstanding_set out).1);
      one = λ r h. omega (
        arith,
        g.one r h,
        count-pushed r s.free s.free_stack p space,
        (occurs-take_out r p s.outstanding_set out).0,
      );
      free_requests =
          requests-pushed s.max_entries s.free s.free_stack p space
            (All-holds (IsRequest s.max_entries) p s.outstanding_set g.outstanding_requests out)
            g.free_requests;
      pushed_requests = g.pushed_requests;
      user_requests = g.user_requests;
      outstanding_requests =
          All-take_out (IsRequest s.max_entries) p s.outstanding_set g.outstanding_requests;
    }
