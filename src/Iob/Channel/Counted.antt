-- ===== src/Iob/Channel/Counted.antt =====
-- IoChannelCounters::handleCompletedReq of iob/io/IoChannel.hpp throws nothing.
use ssdiq.Prelude.{ℕ, ◌<◌, ◌≡◌, ◌-◌, refl, ◌∙◌, ok, Result, ℤ, pos, to_uint64, subst, sym}
use ssdiq.Shared.Hist.{Hist, increase_slot}
use ssdiq.Shared.Hist.Slots.{IsHist, increase_slot-Records}
use ssdiq.Iob.Request.{IoRequestType}
use ssdiq.Iob.Channel.Counters.{
  IoChannelCounters, pred_int, count_read, count_write, handle_completed_req,
}

-- A histogram of a channel has a thousand slots.
pub record IsChannelHist (h : Hist) : Type 0 where
  pub hist : IsHist h
  pub slots : h.size ≡ 1000

pub record IsCounters (c : IoChannelCounters) : Type 0 where
  pub read : IsChannelHist c.read_hist
  pub write : IsChannelHist c.write_hist
  pub outstanding_read : IsChannelHist c.outstanding_hist_read
  pub outstanding_write : IsChannelHist c.outstanding_hist_write

-- A completed request that is counted.
pub record Counts (m : Result IoChannelCounters) : Type 0 where
  pub next : IoChannelCounters
  pub runs : m ≡ ok next
  pub valid : IsCounters next

-- The scaling of an offset below the range of a histogram gives an index of a slot.
abbrev pub ScalesIn : (ℕ → ℕ → ℕ → ℕ) → Type 0
ScalesIn scaled = (x n : ℕ) → x < n → scaled x n 1000 < 1000

module _ (scaled : ℕ → ℕ → ℕ → ℕ) (law : ScalesIn scaled) where
  record Takes (h : Hist) (m : Result (ℕ × Hist)) : Type 0 where
    slot : ℕ
    next : Hist
    runs : m ≡ ok (slot, next)
    valid : IsChannelHist next

  increase-Takes : (value : ℤ) (h : Hist) → IsChannelHist h → Takes h (increase_slot scaled value h)
  increase-Takes value h v =
      let r = increase_slot-Records scaled value h v.hist (λ x below.
        subst (λ s. scaled x (h.to - h.from) s < s) (sym v.slots) (law x (h.to - h.from) below)) in
      record {
        slot = r.slot;
        next = r.next;
        runs = r.runs;
        valid = record { hist = r.valid; slots = r.shape.0 ∙ v.slots };
      }

  count_read-Counts :
      (diff : ℕ) (c : IoChannelCounters) → IsCounters c → Counts (count_read scaled diff c)
  unfolding count_read
  count_read-Counts diff c v =
      let timed = increase-Takes (pos diff) c.read_hist v.read in
      let slot =
        increase-Takes (pos (to_uint64 c.outstanding_read)) c.outstanding_hist_read
          v.outstanding_read in
      record {
        next = record c {
          read_hist = timed.next;
          outstanding_hist_read = slot.next;
          outstanding_read = pred_int c.outstanding_read;
        };
        runs = rw (timed.runs, slot.runs) refl;
        valid = record {
          read = timed.valid;
          write = v.write;
          outstanding_read = slot.valid;
          outstanding_write = v.outstanding_write;
        };
      }

  count_write-Counts :
      (diff : ℕ) (c : IoChannelCounters) → IsCounters c → Counts (count_write scaled diff c)
  unfolding count_write
  count_write-Counts diff c v =
      let timed = increase-Takes (pos diff) c.write_hist v.write in
      let slot =
        increase-Takes (pos (to_uint64 c.outstanding_write)) c.outstanding_hist_write
          v.outstanding_write in
      record {
        next = record c {
          write_hist = timed.next;
          outstanding_hist_write = slot.next;
          outstanding_write = pred_int c.outstanding_write;
        };
        runs = rw (timed.runs, slot.runs) refl;
        valid = record {
          read = v.read;
          write = timed.valid;
          outstanding_read = v.outstanding_read;
          outstanding_write = slot.valid;
        };
      }

  same : (c : IoChannelCounters) → IsCounters c → Counts (ok c)
  same c v = record { next = c; runs = refl; valid = v }

  pub handle_completed_req-Counts :
      (type : IoRequestType) (diff : ℕ) (c : IoChannelCounters)
      → IsCounters c
      → Counts (handle_completed_req scaled type diff c)
  unfolding handle_completed_req
  handle_completed_req-Counts IoRequestType.read diff c v = count_read-Counts diff c v
  handle_completed_req-Counts IoRequestType.write diff c v = count_write-Counts diff c v
  handle_completed_req-Counts IoRequestType.undefined diff c v = same c v
  handle_completed_req-Counts IoRequestType.fsync diff c v = same c v
  handle_completed_req-Counts IoRequestType.zns_append diff c v = same c v
  handle_completed_req-Counts IoRequestType.free diff c v = same c v
  handle_completed_req-Counts IoRequestType.trim diff c v = same c v
