-- ===== src/Iob/Generator/Times.antt =====
-- How evaluateIocb of iob/RequestGenerator.hpp counts a completed request.
use ssdiq.Prelude.{ℕ, ◌+◌, ◌<◌, ◌≡◌, refl, ◌∙◌, arith, ok, Result, ℤ}
use ssdiq.Shared.Hist.{Hist, increase_slot}
use ssdiq.Shared.Hist.Slots.{IsHist, increase_slot-Records}
use ssdiq.Iob.Request.{IoRequestType}
use ssdiq.Iob.Generator.{JobStats}
use ssdiq.Iob.Generator.Complete.{
  to_int32, count_request, time_fsync, time_read, time_write, time_request,
}

-- The histograms of JobStats.
pub record IsLatency (h : Hist) : Type 0 where
  pub valid : IsHist h
  pub size : h.size ≡ 20000
  pub from : h.from ≡ 0
  pub to : h.to ≡ 19999

pub record AreTimed (s : JobStats) : Type 0 where
  pub read : IsLatency s.read_hist
  pub write : IsLatency s.write_hist
  pub fdatasync : IsLatency s.fdatasync_hist
  pub read_second : IsLatency s.read_hist_every_second
  pub write_second : IsLatency s.write_hist_every_second
  pub fdatasync_second : IsLatency s.fdatasync_hist_every_second

-- The requests that have been completed.
abbrev pub completed : JobStats → ℕ
completed s = s.reads + s.writes + s.fdatasyncs

-- Statistics with one request more.
pub record Counts (s : JobStats) (m : Result JobStats) : Type 0 where
  pub next : JobStats
  pub runs : m ≡ ok next
  pub one_more : completed next ≡ completed s + 1
  pub timed : AreTimed next

keep :
    (s : JobStats) {r w f : ℕ}
    → AreTimed s
    → AreTimed (record s { reads = r; writes = w; fdatasyncs = f })
keep s t = record {
  read = t.read;
  write = t.write;
  fdatasync = t.fdatasync;
  read_second = t.read_second;
  write_second = t.write_second;
  fdatasync_second = t.fdatasync_second;
}

-- The types of the requests that prepareRequest makes.
unfoldable pub IsMade : IoRequestType → Type 0
IsMade IoRequestType.write = Unit
IsMade IoRequestType.read = Unit
IsMade IoRequestType.fsync = Unit
IsMade _ = ⊥

module _ (scaled : ℕ → ℕ → ℕ → ℕ) (law : (x : ℕ) → x < 19999 → scaled x 19999 20000 < 20000) where
  slot-ok :
      (value : ℤ) (h : Hist)
      → IsLatency h
      → (slot : ℕ) × (next : Hist) × (increase_slot scaled value h ≡ ok (slot, next))
        × IsLatency next
  slot-ok value h l =
      let r = increase_slot-Records scaled value h l.valid (rw (l.size, l.from, l.to) law) in
      (
        r.slot,
        r.next,
        r.runs,
        record {
          valid = r.valid;
          size = r.shape.0 ∙ l.size;
          from = r.shape.1 ∙ l.from;
          to = r.shape.2 ∙ l.to;
        },
      )

  pub time_request-Counts :
      (type : IoRequestType) (this_time : ℕ) (s : JobStats)
      → IsMade type
      → AreTimed s
      → Counts s (time_request scaled type this_time s)
  unfolding time_request time_fsync time_read time_write IsMade
  time_request-Counts IoRequestType.fsync this_time s m t =
      let all = slot-ok (to_int32 this_time) s.fdatasync_hist t.fdatasync in
      let second = slot-ok (to_int32 this_time) s.fdatasync_hist_every_second t.fdatasync_second in
      record {
        next = record s {
          fdatasync_total_time = s.fdatasync_total_time + this_time;
          fdatasync_hist = all.1;
          fdatasync_hist_every_second = second.1;
          fdatasyncs = s.fdatasyncs + 1;
        };
        runs = rw (all.2, second.2) refl;
        one_more = omega arith;
        timed = record {
          read = t.read;
          write = t.write;
          fdatasync = all.3;
          read_second = t.read_second;
          write_second = t.write_second;
          fdatasync_second = second.3;
        };
      }
  time_request-Counts IoRequestType.read this_time s m t =
      let all = slot-ok (to_int32 this_time) s.read_hist t.read in
      let second = slot-ok (to_int32 this_time) s.read_hist_every_second t.read_second in
      record {
        next = record s {
          read_total_time = s.read_total_time + this_time;
          read_hist = all.1;
          read_hist_every_second = second.1;
          reads = s.reads + 1;
        };
        runs = rw (all.2, second.2) refl;
        one_more = omega arith;
        timed = record {
          read = all.3;
          write = t.write;
          fdatasync = t.fdatasync;
          read_second = second.3;
          write_second = t.write_second;
          fdatasync_second = t.fdatasync_second;
        };
      }
  time_request-Counts IoRequestType.write this_time s m t =
      let all = slot-ok (to_int32 this_time) s.write_hist t.write in
      let second = slot-ok (to_int32 this_time) s.write_hist_every_second t.write_second in
      record {
        next = record s {
          write_total_time = s.write_total_time + this_time;
          write_hist = all.1;
          write_hist_every_second = second.1;
          writes = s.writes + 1;
        };
        runs = rw (all.2, second.2) refl;
        one_more = omega arith;
        timed = record {
          read = t.read;
          write = all.3;
          fdatasync = t.fdatasync;
          read_second = t.read_second;
          write_second = second.3;
          fdatasync_second = t.fdatasync_second;
        };
      }
  time_request-Counts IoRequestType.undefined this_time s m t = absurd m
  time_request-Counts IoRequestType.zns_append this_time s m t = absurd m
  time_request-Counts IoRequestType.free this_time s m t = absurd m
  time_request-Counts IoRequestType.trim this_time s m t = absurd m

  pub count_request-Counts :
      (type : IoRequestType) (s : JobStats)
      → IsMade type
      → AreTimed s
      → Counts s (count_request type s)
  unfolding count_request IsMade
  count_request-Counts IoRequestType.fsync s m t = record {
    next = record s { fdatasyncs = s.fdatasyncs + 1 };
    runs = refl;
    one_more = omega arith;
    timed = keep s t;
  }
  count_request-Counts IoRequestType.read s m t = record {
    next = record s { reads = s.reads + 1 };
    runs = refl;
    one_more = omega arith;
    timed = keep s t;
  }
  count_request-Counts IoRequestType.write s m t = record {
    next = record s { writes = s.writes + 1 };
    runs = refl;
    one_more = omega arith;
    timed = keep s t;
  }
  count_request-Counts IoRequestType.undefined s m t = absurd m
  count_request-Counts IoRequestType.zns_append s m t = absurd m
  count_request-Counts IoRequestType.free s m t = absurd m
  count_request-Counts IoRequestType.trim s m t = absurd m
