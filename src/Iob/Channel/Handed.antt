-- ===== src/Iob/Channel/Handed.antt =====
-- What _submit of iob/io/Raid0Channel.hpp hands down, and one round of its loop.
use ssdiq.Prelude.{
  ℕ, zero, suc, ◌+◌, ◌-◌, ◌^◌, ◌%◌, ◌<◌, ◌≤◌, ◌≡◌, ◌≢◌, ◌⊎◌, refl, sym, ap, ◌∙◌, inl, inr, List, [],
  ◌∷◌, Option, none, some, arith, ok, err, Result, Fault, ◌>>=◌, length, length-set, get_or,
  get_or-set_self, get_or-set_ne, set, fetch-in, le→leb, subst, ==-refl, ℕ_discrete,
}
use ssdiq.Iob.Request.{IoBaseRequest, new_request}
use ssdiq.Iob.Raid.{Raid0}
use ssdiq.Iob.Raid.Striping.{IsRaid, device_of, offset_of, calc-joined}
use ssdiq.Iob.RequestStack.{Pointer, RequestStack, pop_from_submit_stack}
use ssdiq.Iob.RequestStack.Count.{count-at, hit}
use ssdiq.Iob.RequestStack.Ownership.{IsRequest, count-top}
use ssdiq.Iob.RequestStack.Steps.{submit-some, sent, next, sent-IsOwned}
use ssdiq.Iob.Channel.{chunk_size, add_int, Raid0Channel, Lower, dispatch, submit_loop}
use ssdiq.Iob.Channel.Push.{IsChannel, nth_request}

-- The request with the place of its address on the devices.
abbrev pub handed_down : Raid0 → IoBaseRequest → IoBaseRequest
handed_down raid req = record req {
  device = device_of raid req.addr;
  offset = offset_of raid req.addr;
}

abbrev pub number_of : Pointer → ℕ
number_of none = 0
number_of (some i) = i

abbrev pub nth_pushed : Raid0Channel → ℕ → ℕ
nth_pushed ch n = number_of (get_or ch.request_stack.submit_stack n none)

-- What goes down from the first `n` entries of the submit stack, the last one first.
unfoldable pub sends : Raid0Channel → ℕ → List (ℕ × IoBaseRequest)
sends ch zero = []
sends ch (suc n) =
    (nth_pushed ch n, handed_down ch.raid (nth_request ch (nth_pushed ch n))) ∷ sends ch n

unfoldable pub push_all : {L : Type 0} → Lower L → List (ℕ × IoBaseRequest) → L → Result L
push_all lower [] low = ok low
push_all lower (x ∷ xs) low = lower.push x.0 x.1 low >>= λ l. push_all lower xs l

-- `_submit` asserts the length; the address is a `u64`.
abbrev pub CanSend : IoBaseRequest → Type 0
CanSend req = (req.len ≤ chunk_size) × (req.addr < 2 ^ 64)

pub record IsSendable (ch : Raid0Channel) : Type 0 where
  pub channel : IsChannel ch
  pub raided : IsRaid ch.raid
  pub sendable : (i : ℕ) → i < ch.request_stack.pushed → CanSend (nth_request ch (nth_pushed ch i))
  pub counting : ch.outstanding < 2 ^ 32

-- The channel `after` the submit stack is drained.
pub record Drained (ch after : Raid0Channel) : Type 0 where
  pub emptied : after.request_stack.pushed ≡ 0
  pub same_free : after.request_stack.free ≡ ch.request_stack.free
  pub counted : after.outstanding ≡ (ch.outstanding + ch.request_stack.pushed) % 2 ^ 32
  pub kept :
      (r : ℕ)
      → (nth_request after r ≡ nth_request ch r)
        ⊎ (nth_request after r ≡ handed_down ch.raid (nth_request ch r))
  pub valid : IsChannel after

abbrev pub with_channel : {L : Type 0} → Raid0Channel → L → Result (Raid0Channel × L)
with_channel c l = ok (c, l)

-- The top request of a channel that has pushed `n + 1` goes down.
module _ (n : ℕ) (ch : Raid0Channel) (v : IsSendable ch) (e : ch.request_stack.pushed ≡ suc n) where
  abbrev stack : RequestStack
  stack = ch.request_stack

  pub some_left : 0 < stack.pushed
  some_left = omega (arith, e)

  place : IsRequest stack.max_entries (get_or stack.submit_stack n none)
  place = v.channel.owned.pushed_requests n (omega (arith, e))

  top-is : next [] stack v.channel.owned some_left ≡ get_or stack.submit_stack n none
  top-is = ap (λ j. get_or stack.submit_stack j none) (omega (arith, e))

  abbrev number : ℕ
  number = nth_pushed ch n

  pointer : get_or stack.submit_stack n none ≡ some number
  pointer = rw place.1 refl

  in_range : number < stack.max_entries
  in_range = rw place.1 place.2

  abbrev req : IoBaseRequest
  req = nth_request ch number

  abbrev pub mid : Raid0Channel
  mid = record ch {
    requests = set ch.requests number (handed_down ch.raid req);
    outstanding = add_int ch.outstanding 1;
    request_stack = sent [] stack v.channel.owned some_left;
  }

  others : (r : ℕ) → number ≢ r → nth_request mid r ≡ nth_request ch r
  others r ne = get_or-set_ne ch.requests number r (handed_down ch.raid req) new_request ne

  self : nth_request mid number ≡ handed_down ch.raid req
  self =
      get_or-set_self ch.requests number (handed_down ch.raid req) new_request
        (omega (arith, in_range, v.channel.sized))

  hit-top : hit number (get_or stack.submit_stack (stack.pushed - 1) none) ≡ 1
  hit-top = ap (hit number) (top-is ∙ pointer) ∙ own number
    where
      own : (r : ℕ) → hit r (some r) ≡ 1
      own r = rw (==-refl r) refl

  popped : pop_from_submit_stack stack ≡ ok (some (some number), mid.request_stack)
  popped =
      submit-some [] stack v.channel.owned some_left
      ∙ ap {B = Result (Option Pointer × RequestStack)} (λ p. ok (some p, mid.request_stack))
          (top-is ∙ pointer)

  pub kept-mid :
      (r : ℕ) {x : IoBaseRequest}
      → (x ≡ nth_request mid r) ⊎ (x ≡ handed_down ch.raid (nth_request mid r))
      → (x ≡ nth_request ch r) ⊎ (x ≡ handed_down ch.raid (nth_request ch r))
  kept-mid r {x = x} h = elim (ℕ_discrete number r) [
    | yes same ↦ inr (
        subst (λ j. x ≡ handed_down ch.raid (nth_request ch j)) same
          (twice (
            subst (λ j. (x ≡ nth_request mid j) ⊎ (x ≡ handed_down ch.raid (nth_request mid j)))
              (sym same) h)))
    | no ne ↦ elim h [
      | inl k ↦ inl (k ∙ others r ne)
      | inr k ↦ inr (k ∙ ap (handed_down ch.raid) (others r ne))
    ]
  ]
    where
      twice :
          {x : IoBaseRequest}
          → (x ≡ nth_request mid number) ⊎ (x ≡ handed_down ch.raid (nth_request mid number))
          → x ≡ handed_down ch.raid req
      twice (inl k) = k ∙ self
      twice (inr k) = k ∙ ap (handed_down ch.raid) self

  -- No other entry of the submit stack is the same request.
  apart : (j : ℕ) → j < n → number ≢ nth_pushed ch j
  apart j h same =
      let q = v.channel.owned.pushed_requests j (omega (arith, h, e)) in
      let there : get_or stack.submit_stack j none ≡ some number =
        q.1 ∙ ap some (sym (same ∙ ap number_of q.1)) in
      let room : stack.pushed ≤ length stack.submit_stack =
        omega (arith, v.channel.owned.total, v.channel.owned.submit_room) in
      omega (
        arith,
        v.channel.owned.one number in_range,
        count-top number stack.pushed stack.submit_stack some_left room,
        hit-top,
        count-at number (stack.pushed - 1) j stack.submit_stack (omega (arith, h, e))
            (omega (arith, h, e, room)) there,
      )

  pub mid-IsSendable : IsSendable mid
  mid-IsSendable = record {
    channel = record {
      owned = sent-IsOwned [] stack v.channel.owned some_left;
      sized = length-set ch.requests number (handed_down ch.raid req) ∙ v.channel.sized;
    };
    raided = v.raided;
    sendable = λ j h.
        subst CanSend (sym (others (nth_pushed ch j) (apart j (omega (arith, h, e)))))
          (v.sendable j (omega (arith, h, e)));
    counting = omega arith;
  }

  sends-mid : (m : ℕ) → m ≤ n → sends mid m ≡ sends ch m
  unfolding sends
  sends-mid zero h = refl
  sends-mid (suc m) h =
      rw (others (nth_pushed ch m) (apart m (omega (arith, h))), sends-mid m (omega (arith, h)))
        refl

  sending : CanSend req
  sending = v.sendable n (omega (arith, e))

  module _ {L : Type 0} (lower : Lower L) where
    dispatched :
        (low : L)
        → dispatch lower (some number) (record ch { request_stack = mid.request_stack }) low
          ≡ (lower.push number (handed_down ch.raid req) low >>= λ l. ok (mid, l))
    unfolding dispatch
    dispatched low =
        rw
          (
            fetch-in Fault.undefined_access ch.requests number new_request
                (omega (arith, in_range, v.channel.sized)),
            le→leb req.len chunk_size sending.0,
            (calc-joined ch.raid v.raided req.addr sending.1).0,
          )
          refl

    later :
        (fuel : ℕ) (rest : List (ℕ × IoBaseRequest)) (after : Raid0Channel)
        → ((l : L) → submit_loop lower fuel mid l ≡ (push_all lower rest l >>= with_channel after))
        → (m : Result L)
        → ((m >>= with_channel mid) >>= λ s. submit_loop lower fuel s.0 s.1)
          ≡ ((m >>= push_all lower rest) >>= with_channel after)
    later fuel rest after f (ok l) = f l
    later fuel rest after f (err fault) = refl

    pub looped :
        (fuel : ℕ) (after : Raid0Channel)
        → ((l : L)
            → submit_loop lower fuel mid l
              ≡ (push_all lower (sends mid n) l >>= with_channel after))
        → (low : L)
        → submit_loop lower (suc fuel) ch low
          ≡ (push_all lower (sends ch (suc n)) low >>= with_channel after)
    unfolding submit_loop sends push_all
    looped fuel after f low =
        rw (popped, dispatched low)
          (later fuel (sends ch n) after
            (subst
              (λ xs.
                (l : L)
                → submit_loop lower fuel mid l ≡ (push_all lower xs l >>= with_channel after))
              (sends-mid n (omega arith)) f)
            (lower.push number (handed_down ch.raid req) low))
