-- ===== src/Iob/Channel/Push.antt =====
-- _push of iob/io/Raid0Channel.hpp: a request of the stack gets the fields of the user's.
use ssdiq.Prelude.{
  ℕ, zero, suc, ◌+◌, ◌-◌, ◌<◌, ◌≤◌, ◌≡◌, ◌≢◌, ◌⊎◌, refl, sym, ap, ◌∙◌, inl, inr, true, List, [],
  ◌∷◌, Option, none, some, arith, ok, err, Result, Fault, length, length-set, get_or,
  get_or-set_self, get_or-set_ne, set, fetch-in, le→leb, Bool-cases, ◌&&◌, add64, subst, ==-refl,
  dec_lt,
}
use ssdiq.Iob.Request.{IoBaseRequest, new_request, copy_fields}
use ssdiq.Iob.RequestStack.{Pointer, RequestStack, holds, take_out, new_request_stack}
use ssdiq.Iob.RequestStack.Ownership.{
  IsOwned, top, popped, popped-IsOwned, queued, push-ok, queued-IsOwned,
}
use ssdiq.Iob.RequestStack.Steps.{pop-some, pop-none}
use ssdiq.Iob.Channel.{
  Raid0Channel, get_io_request, is_write, fits_buffer, push_io_request, copy_request, raid_push,
  new_requests, new_channel,
}
use ssdiq.Iob.Channel.Counters.{IoChannelCounters}
use ssdiq.Iob.RequestStack.Runs.{new_request_stack-IsOwned}

-- The user of a channel holds none of its requests, which are as many as the stack has.
pub record IsChannel (ch : Raid0Channel) : Type 0 where
  pub owned : IsOwned [] ch.request_stack
  pub sized : length ch.requests ≡ ch.request_stack.max_entries

abbrev pub nth_request : Raid0Channel → ℕ → IoBaseRequest
nth_request ch i = get_or ch.requests i new_request

-- The write-back buffer is large enough, if it is used.
abbrev pub Fits : Raid0Channel → IoBaseRequest → Type 0
Fits ch usr = (is_write usr.type && usr.write_back) ≡ true → usr.len ≤ ch.write_back_buffer_size

-- The request `place` is on the submit stack with the fields of `usr`, and no other has changed.
pub record Pushes (usr : IoBaseRequest) (ch : Raid0Channel) (m : Result Raid0Channel) : Type 0 where
  pub place : ℕ
  pub next : Raid0Channel
  pub runs : m ≡ ok next
  pub own : place < ch.request_stack.max_entries
  pub filled :
      nth_request next place
      ≡ record (copy_fields usr (nth_request ch place)) { out_of_place_addr = usr.addr }
  pub others : (i : ℕ) → i ≢ place → nth_request next i ≡ nth_request ch i
  pub on_top : get_or next.request_stack.submit_stack ch.request_stack.pushed none ≡ some place
  pub one_more : next.request_stack.pushed ≡ ch.request_stack.pushed + 1
  pub one_less : next.request_stack.free + 1 ≡ ch.request_stack.free
  pub same_raid : next.raid ≡ ch.raid
  pub same_outstanding : next.outstanding ≡ ch.outstanding
  pub valid : IsChannel next

length-new_requests : (alloc : ℕ → Option ℕ) (n i : ℕ) → length (new_requests alloc n i) ≡ n
unfolding new_requests
length-new_requests alloc zero i = refl
length-new_requests alloc (suc n) i = ap suc (length-new_requests alloc n (i + 1))

pub new_channel-IsChannel :
    (alloc : ℕ → Option ℕ) (devices depth size : ℕ) (counters : IoChannelCounters)
    → IsChannel (new_channel alloc devices depth size counters)
unfolding new_channel new_request_stack
new_channel-IsChannel alloc devices depth size counters = record {
  owned = new_request_stack-IsOwned depth;
  sized = length-new_requests alloc depth 0;
}

module _ (usr : IoBaseRequest) (ch : Raid0Channel) (v : IsChannel ch) where
  full : ch.request_stack.free ≡ 0 → raid_push usr ch ≡ err Fault.logic_error
  unfolding raid_push get_io_request
  full e = rw (pop-none ch.request_stack e) refl

  module _ (fits : Fits ch usr) (left : 0 < ch.request_stack.free) where
    abbrev stack : RequestStack
    stack = popped [] ch.request_stack v.owned left

    abbrev first : Pointer
    first = top [] ch.request_stack v.owned left

    fits-ok :
        (m : IoBaseRequest) (h : Raid0Channel)
        → m.type ≡ usr.type
        → m.len ≡ usr.len
        → m.write_back ≡ usr.write_back
        → h.write_back_buffer_size ≡ ch.write_back_buffer_size
        → fits_buffer h m ≡ ok tt
    fits-ok m h t l w s = elim (Bool-cases (is_write usr.type && usr.write_back)) [
      | inl e ↦ rw (t, w, e, l, s, le→leb usr.len ch.write_back_buffer_size (fits e)) refl
      | inr e ↦ rw (t, w, e) refl
    ]

    module _ (i : ℕ) (e : first ≡ some i) (own : i < ch.request_stack.max_entries) where
      o : IsOwned (some i ∷ []) stack
      o = subst (λ p. IsOwned (p ∷ []) stack) e (popped-IsOwned [] ch.request_stack v.owned left)

      held : holds (some i) (some i ∷ []) ≡ true
      unfolding holds
      held = rw (==-refl i) refl

      taken : take_out (some i) (some i ∷ []) ≡ []
      unfolding take_out
      taken = rw (==-refl i) refl

      abbrev old : IoBaseRequest
      old = nth_request ch i

      abbrev copied : List IoBaseRequest
      copied = set ch.requests i (copy_fields usr old)

      abbrev entry : IoBaseRequest
      entry = record (copy_fields usr old) { out_of_place_addr = usr.addr }

      abbrev next_channel : Raid0Channel
      next_channel = record ch {
        requests = set copied i entry;
        pushed = add64 ch.pushed 1;
        request_stack = queued (some i ∷ []) stack o (some i) held;
      }

      listed : i < length ch.requests
      listed = omega (arith, own, v.sized)

      again : i < length copied
      again = omega (arith, listed, length-set ch.requests i (copy_fields usr old))

      runs : raid_push usr ch ≡ ok next_channel
      unfolding raid_push get_io_request copy_request push_io_request copy_fields
      runs =
          rw
            (
              pop-some [] ch.request_stack v.owned left,
              e,
              fetch-in Fault.undefined_access ch.requests i new_request listed,
              fetch-in Fault.undefined_access copied i new_request again,
              get_or-set_self ch.requests i (copy_fields usr old) new_request listed,
              fits-ok (copy_fields usr old) (record ch { requests = copied; request_stack = stack })
                  refl refl refl refl,
              push-ok (some i ∷ []) stack o (some i) held,
            )
            refl

      pushed-Pushes : Pushes usr ch (raid_push usr ch)
      pushed-Pushes = record {
        place = i;
        next = next_channel;
        runs = runs;
        own = own;
        filled = get_or-set_self copied i entry new_request again;
        others = λ j ne.
            get_or-set_ne copied i j entry new_request (λ q. ne (sym q))
            ∙ get_or-set_ne ch.requests i j (copy_fields usr old) new_request (λ q. ne (sym q));
        on_top =
            get_or-set_self stack.submit_stack stack.pushed (some i) none
              (omega (arith, o.total, o.submit_room));
        one_more = refl;
        one_less = omega (arith, left);
        same_raid = refl;
        same_outstanding = refl;
        valid = record {
          owned =
              subst (λ us. IsOwned us next_channel.request_stack) taken
                (queued-IsOwned (some i ∷ []) stack o (some i) held);
          sized =
              length-set copied i entry ∙ length-set ch.requests i (copy_fields usr old) ∙ v.sized;
        };
      }

    pub raid_push-Pushes : Pushes usr ch (raid_push usr ch)
    raid_push-Pushes =
        let q = v.owned.free_requests (ch.request_stack.free - 1) (omega arith) in
        pushed-Pushes q.0 q.1 q.2

-- If the data of a write-back request fits the buffer and the user holds none of the requests of the
-- channel, then a push to a channel without a free request is
-- refused with the logic_error; on every other channel it succeeds: one free request gets the fields of
-- the user's, with its address as the out-of-place address, and stands on top of the submit stack, no
-- other request changes, and each request of the stack still has one owner.
pub raid_push-cases :
    (usr : IoBaseRequest) (ch : Raid0Channel)
    → IsChannel ch
    → Fits ch usr
    → ((ch.request_stack.free ≡ 0) × (raid_push usr ch ≡ err Fault.logic_error))
      ⊎ Pushes usr ch (raid_push usr ch)
raid_push-cases usr ch v fits = elim (dec_lt 0 ch.request_stack.free) [
  | yes h ↦ inr (raid_push-Pushes usr ch v fits h)
  | no h ↦ inl (omega arith, full usr ch v (omega arith))
]
