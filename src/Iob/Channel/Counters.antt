-- ===== src/Iob/Channel/Counters.antt =====
-- The counters of a channel: IoChannelCounters of iob/io/IoChannel.hpp, built without
-- IO_PER_SSD_LATENCY_COUNTERS.
use ssdiq.Prelude.{
  ℕ, zero, suc, ◌-◌, ◌^◌, Result, ok, ◌>>=◌, add64, sub64, ℤ, pos, negsuc, to_uint64,
}
use ssdiq.Shared.Hist.{Hist, new_hist, increase_slot, reset_data}
use ssdiq.Iob.Request.{IoRequestType}

pub record IoChannelCounters : Type 0 where
  pub pushed : ℕ
  pub outstanding : ℕ
  pub outstanding_read : ℤ
  pub outstanding_write : ℤ
  pub completed : ℕ
  pub read_hist : Hist
  pub write_hist : Hist
  pub poll_hist : Hist
  pub outstanding_hist : Hist
  pub outstanding_hist_read : Hist
  pub outstanding_hist_write : Hist

-- The members as they are initialised. The histograms leave their counts and totals as they are in the
-- memory that they are given.
abbrev pub new_counters : ℕ → ℕ → IoChannelCounters
new_counters old_cnt old_total = record {
  pushed = 0;
  outstanding = 0;
  outstanding_read = pos 0;
  outstanding_write = pos 0;
  completed = 0;
  read_hist = new_hist old_cnt old_total 1000 0 10000;
  write_hist = new_hist old_cnt old_total 1000 0 10000;
  poll_hist = new_hist old_cnt old_total 1000 0 500;
  outstanding_hist = new_hist old_cnt old_total 1000 0 2000;
  outstanding_hist_read = new_hist old_cnt old_total 1000 0 2000;
  outstanding_hist_write = new_hist old_cnt old_total 1000 0 2000;
}

abbrev pub pred_int : ℤ → ℤ
pred_int (pos zero) = negsuc 0
pred_int (pos (suc n)) = pos n
pred_int (negsuc n) = negsuc (suc n)

-- The values of these histograms are `uint64_t`: their limits are 2^64 - 1 and 0.
abbrev pub reset_hist : Hist → Hist
reset_hist h = reset_data (2 ^ 64 - 1) (pos 0) h

unfoldable pub reset : IoChannelCounters → IoChannelCounters
reset c = record c {
  completed = 0;
  read_hist = reset_hist c.read_hist;
  write_hist = reset_hist c.write_hist;
  poll_hist = reset_hist c.poll_hist;
  outstanding_hist = reset_hist c.outstanding_hist;
  outstanding_hist_read = reset_hist c.outstanding_hist_read;
  outstanding_hist_write = reset_hist c.outstanding_hist_write;
}

unfoldable pub handle_push : IoChannelCounters → IoChannelCounters
handle_push c = record c { pushed = add64 c.pushed 1 }

-- `outstanding` is an `s64`, kept modulo 2^64, as the histogram takes it.
unfoldable pub handle_submit : (ℕ → ℕ → ℕ → ℕ) → ℕ → IoChannelCounters → Result IoChannelCounters
handle_submit scaled submitted c = do
  let out = add64 c.outstanding submitted
  slot ← increase_slot scaled (pos out) c.outstanding_hist
  ok (record c { pushed = sub64 c.pushed submitted; outstanding = out; outstanding_hist = slot.1 })

unfoldable pub handle_poll : (ℕ → ℕ → ℕ → ℕ) → ℕ → IoChannelCounters → Result IoChannelCounters
handle_poll scaled polled c = do
  slot ← increase_slot scaled (pos polled) c.poll_hist
  ok (record c {
    outstanding = sub64 c.outstanding polled;
    completed = add64 c.completed polled;
    poll_hist = slot.1;
  })

unfoldable pub count_read : (ℕ → ℕ → ℕ → ℕ) → ℕ → IoChannelCounters → Result IoChannelCounters
count_read scaled diff c = do
  timed ← increase_slot scaled (pos diff) c.read_hist
  slot ← increase_slot scaled (pos (to_uint64 c.outstanding_read)) c.outstanding_hist_read
  ok (record c {
    read_hist = timed.1;
    outstanding_hist_read = slot.1;
    outstanding_read = pred_int c.outstanding_read;
  })

unfoldable pub count_write : (ℕ → ℕ → ℕ → ℕ) → ℕ → IoChannelCounters → Result IoChannelCounters
count_write scaled diff c = do
  timed ← increase_slot scaled (pos diff) c.write_hist
  slot ← increase_slot scaled (pos (to_uint64 c.outstanding_write)) c.outstanding_hist_write
  ok (record c {
    write_hist = timed.1;
    outstanding_hist_write = slot.1;
    outstanding_write = pred_int c.outstanding_write;
  })

-- `diff` is the time since the request was pushed.
unfoldable pub handle_completed_req :
    (ℕ → ℕ → ℕ → ℕ) → IoRequestType → ℕ → IoChannelCounters → Result IoChannelCounters
handle_completed_req scaled IoRequestType.read diff c = count_read scaled diff c
handle_completed_req scaled IoRequestType.write diff c = count_write scaled diff c
handle_completed_req scaled _ diff c = ok c
