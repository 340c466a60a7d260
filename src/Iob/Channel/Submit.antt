-- ===== src/Iob/Channel/Submit.antt =====
-- _submit of iob/io/Raid0Channel.hpp: the submit stack is handed down to the devices.
use ssdiq.Prelude.{ℕ, zero, suc, ◌≡◌, refl, ap, ◌∙◌, inl, arith, ok, err, Result, ◌>>=◌}
use ssdiq.Iob.RequestStack.Steps.{submit-none}
use ssdiq.Iob.Channel.{Raid0Channel, Lower, submit_loop, raid_submit}
use ssdiq.Iob.Channel.Handed.{
  sends, push_all, IsSendable, Drained, with_channel, mid, mid-IsSendable, kept-mid, looped,
}

record Drains (n : ℕ) (ch : Raid0Channel) : Type 1 where
  after : Raid0Channel
  drained : Drained ch after
  runs :
      {L : Type 0} (lower : Lower L) (low : L)
      → submit_loop lower (suc n) ch low ≡ (push_all lower (sends ch n) low >>= with_channel after)

drain-Drains :
    (n : ℕ) (ch : Raid0Channel) → IsSendable ch → ch.request_stack.pushed ≡ n → Drains n ch
unfolding submit_loop sends push_all
drain-Drains zero ch v e = record {
  after = ch;
  drained = record {
    emptied = e;
    same_free = refl;
    counted = omega (arith, e, v.counting);
    kept = λ r. inl refl;
    valid = v.channel;
  };
  runs = λ lower low. rw (submit-none ch.request_stack e) refl;
}
drain-Drains (suc n) ch v e =
    let rest = drain-Drains n (mid n ch v e) (mid-IsSendable n ch v e) (omega (arith, e)) in
    record {
      after = rest.after;
      drained = record {
        emptied = rest.drained.emptied;
        same_free = rest.drained.same_free;
        counted = omega (arith, rest.drained.counted, e);
        kept = λ r. kept-mid n ch v e r (rest.drained.kept r);
        valid = rest.drained.valid;
      };
      runs = λ lower low. looped n ch v e lower (suc n) rest.after (rest.runs lower) low;
    }

-- What `_submit` does with the channel below, and what becomes of the channel.
pub record Submits (ch : Raid0Channel) : Type 1 where
  pub after : Raid0Channel
  pub drained : Drained ch after
  pub runs :
      {L : Type 0} (lower : Lower L) (low : L)
      → raid_submit lower ch low ≡ (
          push_all lower (sends ch ch.request_stack.pushed) low >>= λ l.
          lower.submit l >>= λ s. ok (s.0, after, s.1))

abbrev finish : {L : Type 0} → Lower L → Raid0Channel × L → Result (ℕ × Raid0Channel × L)
finish lower c = lower.submit c.1 >>= λ s. ok (s.0, c.0, s.1)

submitted :
    {L : Type 0} (lower : Lower L) (after : Raid0Channel) (m : Result L)
    → ((m >>= with_channel after) >>= finish lower) ≡ (m >>= λ l. finish lower (after, l))
submitted lower after (ok l) = refl
submitted lower after (err fault) = refl

-- On a channel over one device or more, none of whose requests is held by the user and whose pushed
-- requests are no longer than a chunk and have 64-bit addresses, `_submit` pushes exactly these requests
-- down, the last one first, each with the device and the offset that belong to its address, and then
-- submits below, whatever the channel below does and with its faults. When that succeeds, the submit stack
-- is empty, the free stack is as it was, the outstanding requests are as many more as were pushed, no
-- request differs but by its device and offset, and each request of the stack still has one owner.
pub raid_submit-Submits : (ch : Raid0Channel) → IsSendable ch → Submits ch
unfolding raid_submit
raid_submit-Submits ch v =
    let d = drain-Drains ch.request_stack.pushed ch v refl in
    record {
      after = d.after;
      drained = d.drained;
      runs = λ lower low.
          ap (λ n. submit_loop lower n ch low >>= finish lower) (omega arith)
          ∙ ap (λ m. m >>= finish lower) (d.runs lower low)
          ∙ submitted lower d.after (push_all lower (sends ch ch.request_stack.pushed) low);
    }
