-- ===== src/Iob/Channel/Poll.antt =====
-- _poll of iob/io/Raid0Channel.hpp: completed requests are free again.
use ssdiq.Prelude.{
  ℕ, ◌+◌, ◌<◌, ◌≡◌, refl, ap, ◌∙◌, Bool, true, false, List, [], ◌∷◌, some, arith, ok, Result, Fault,
  length, length-set, get_or, set, fetch-in, add64,
}
use ssdiq.Iob.Request.{IoBaseRequest, new_request}
use ssdiq.Iob.RequestStack.{Pointer, holds, take_out}
use ssdiq.Iob.RequestStack.Ownership.{IsRequest, All-holds, return-ok, returned, returned-IsOwned}
use ssdiq.Iob.Channel.{
  sub_int, Raid0Channel, Lower, inner_callback, callback_loop, raid_poll, release,
}
use ssdiq.Iob.Channel.Counters.{handle_completed_req}
use ssdiq.Iob.Channel.Handed.{number_of}
use ssdiq.Iob.Channel.Push.{IsChannel, nth_request}
use ssdiq.Iob.Channel.Counted.{IsCounters, ScalesIn, Counts, handle_completed_req-Counts}

-- The requests are outstanding, and each is listed once.
unfoldable pub AllOutstanding : List ℕ → List Pointer → Type 0
AllOutstanding [] ps = Unit
AllOutstanding (i ∷ is) ps = (holds (some i) ps ≡ true) × AllOutstanding is (take_out (some i) ps)

-- The callbacks of the user on the requests `is`, in this order.
unfoldable pub call_all :
    {U : Type 0}
    → (IoBaseRequest → U → IoBaseRequest × U)
    → List ℕ
    → List IoBaseRequest
    → U
    → List IoBaseRequest × U
call_all f [] rs u = (rs, u)
call_all f (i ∷ is) rs u =
    let called = f (get_or rs i new_request) u in call_all f is (set rs i called.0) called.1

unfoldable pub take_out_all : List ℕ → List Pointer → List Pointer
take_out_all [] ps = ps
take_out_all (i ∷ is) ps = take_out_all is (take_out (some i) ps)

module _ {U : Type 0} (f : IoBaseRequest → U → IoBaseRequest × U)
    (no_reuse : (r : IoBaseRequest) (u : U) → (f r u).0.reuse_request ≡ false)
    (scaled : ℕ → ℕ → ℕ → ℕ) (law : ScalesIn scaled) (latency : ℕ → ℕ) where
  abbrev user : IoBaseRequest → U → Result (IoBaseRequest × U)
  user r u = ok (f r u)

  -- One callback: the request is free again.
  module _ (i : ℕ) (ch : Raid0Channel) (u : U) (v : IsChannel ch) (c : IsCounters ch.counters)
      (out : holds (some i) ch.request_stack.outstanding_set ≡ true) where
    own : i < ch.request_stack.max_entries
    own =
        let q =
          All-holds (IsRequest ch.request_stack.max_entries) (some i)
            ch.request_stack.outstanding_set v.owned.outstanding_requests out in
        omega (arith, ap number_of q.1, q.2)

    abbrev called : IoBaseRequest × U
    called = f (nth_request ch i) u

    counted : Counts (handle_completed_req scaled called.0.type (latency i) ch.counters)
    counted = handle_completed_req-Counts scaled law called.0.type (latency i) ch.counters c

    abbrev freed : Raid0Channel
    freed = record ch {
      requests = set ch.requests i called.0;
      counters = counted.next;
      request_stack = returned [] ch.request_stack v.owned (some i) out;
    }

    released :
        (reuse : Bool)
        → reuse ≡ false
        → release i reuse ch.request_stack ≡ ok (returned [] ch.request_stack v.owned (some i) out)
    unfolding release
    released reuse e = rw (e, return-ok [] ch.request_stack v.owned (some i) out) refl

    inner-ok : inner_callback user scaled latency i ch u ≡ ok (freed, called.1)
    unfolding inner_callback
    inner-ok =
        rw
          (
            fetch-in Fault.undefined_access ch.requests i new_request (omega (arith, own, v.sized)),
            counted.runs,
            released called.0.reuse_request (no_reuse (nth_request ch i) u),
          )
          refl

    freed-IsChannel : IsChannel freed
    freed-IsChannel = record {
      owned = returned-IsOwned [] ch.request_stack v.owned (some i) out;
      sized = length-set ch.requests i called.0 ∙ v.sized;
    }

  -- The channel `after` the callbacks of the requests `is` are done.
  pub record IsFreed (is : List ℕ) (ch : Raid0Channel) (u : U) (after : Raid0Channel) : Type 0 where
    pub called_all : after.requests ≡ (call_all f is ch.requests u).0
    pub free : after.request_stack.free ≡ ch.request_stack.free + length is
    pub none_out :
        after.request_stack.outstanding_set ≡ take_out_all is ch.request_stack.outstanding_set
    pub still_pushed : after.request_stack.pushed ≡ ch.request_stack.pushed
    pub counters : IsCounters after.counters
    pub valid : IsChannel after

  record CallsBack (is : List ℕ) (ch : Raid0Channel) (u : U) : Type 0 where
    after : Raid0Channel
    runs : callback_loop user scaled latency is ch u ≡ ok (after, (call_all f is ch.requests u).1)
    freed_all : IsFreed is ch u after
    same_outstanding : after.outstanding ≡ ch.outstanding
    same_completed : after.completed ≡ ch.completed

  callback_loop-CallsBack :
      (is : List ℕ) (ch : Raid0Channel) (u : U)
      → IsChannel ch
      → IsCounters ch.counters
      → AllOutstanding is ch.request_stack.outstanding_set
      → CallsBack is ch u
  unfolding callback_loop call_all AllOutstanding take_out_all
  callback_loop-CallsBack [] ch u v c out = record {
    after = ch;
    runs = refl;
    freed_all = record {
      called_all = refl;
      free = omega arith;
      none_out = refl;
      still_pushed = refl;
      counters = c;
      valid = v;
    };
    same_outstanding = refl;
    same_completed = refl;
  }
  callback_loop-CallsBack (i ∷ is) ch u v c out =
      let rest =
        callback_loop-CallsBack is (freed i ch u v c out.0) (called i ch u v c out.0).1
          (freed-IsChannel i ch u v c out.0) (counted i ch u v c out.0).valid out.1 in
      record {
        after = rest.after;
        runs = rw (inner-ok i ch u v c out.0) rest.runs;
        freed_all = record {
          called_all = rest.freed_all.called_all;
          free = omega (arith, rest.freed_all.free);
          none_out = rest.freed_all.none_out;
          still_pushed = rest.freed_all.still_pushed;
          counters = rest.freed_all.counters;
          valid = rest.freed_all.valid;
        };
        same_outstanding = rest.same_outstanding;
        same_completed = rest.same_completed;
      }

  pub record Polls {L : Type 0} (is : List ℕ) (ch : Raid0Channel) (low : L) (u : U)
      (m : Result (ℕ × Raid0Channel × L × U)) : Type 0 where
    pub after : Raid0Channel
    pub runs : m ≡ ok (length is, after, low, (call_all f is ch.requests u).1)
    pub freed_all : IsFreed is ch u after
    pub fewer : after.outstanding ≡ sub_int ch.outstanding (length is)
    pub more : after.completed ≡ add64 ch.completed (length is)

  -- If a poll of the channel below returns requests that are outstanding, each once, and the user's
  -- callback neither fails nor asks to reuse its request, then `_poll` throws nothing and returns their
  -- number: the callback is called on each of them in this order, all are free again and no longer
  -- outstanding, the pushed requests stay, `outstanding` and `completed` change by their number, and each
  -- request of the stack still has one owner. It is assumed
  -- that the user holds none of the requests, and that the histograms have their thousand slots and scale
  -- offsets below their range to one of them.
  pub raid_poll-Polls :
      {L : Type 0} (lower : Lower L) (min : ℕ) (is : List ℕ) (ch : Raid0Channel) (low low' : L)
      (u : U)
      → IsChannel ch
      → IsCounters ch.counters
      → lower.poll min low ≡ ok (is, low')
      → AllOutstanding is ch.request_stack.outstanding_set
      → Polls is ch low' u (raid_poll user scaled latency lower min ch low u)
  unfolding raid_poll
  raid_poll-Polls lower min is ch low low' u v c e out =
      let loop = callback_loop-CallsBack is ch u v c out in
      record {
        after = record (loop.after) {
          outstanding = sub_int loop.after.outstanding (length is);
          completed = add64 loop.after.completed (length is);
        };
        runs = rw (e, loop.runs) refl;
        freed_all = record {
          called_all = loop.freed_all.called_all;
          free = loop.freed_all.free;
          none_out = loop.freed_all.none_out;
          still_pushed = loop.freed_all.still_pushed;
          counters = loop.freed_all.counters;
          valid = record { owned = loop.freed_all.valid.owned; sized = loop.freed_all.valid.sized };
        };
        fewer = ap (λ n. sub_int n (length is)) loop.same_outstanding;
        more = ap (λ n. add64 n (length is)) loop.same_completed;
      }
