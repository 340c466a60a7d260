-- ===== src/Sim/TwoR/Fifo/Queue.antt =====
-- The queue of the FIFO policy of sim/TwoR.hpp while the victims are settled.
use mathlib.Core.List.{append-nil, append_assoc}
use ssdiq.Prelude.{
  ℕ, ◌+◌, ◌<◌, ◌≡◌, refl, sym, ap, ◌∙◌, inl, inr, List, [], ◌∷◌, ◌++◌, none, some, ok, ◌==◌, ==→ne,
  ne→==, if◌then◌else◌, Bool-cases,
}
use ssdiq.Sim.Block.{can_write}
use ssdiq.Sim.Ssd.Pages.{nth_block}
use ssdiq.Sim.Ssd.Valid.{IsValid}
use ssdiq.Sim.TwoR.{TwoR, Node, Iterator}
use ssdiq.Sim.TwoR.Region.{Inside, block_at-ok}
use ssdiq.Sim.TwoR.Fifo.{
  is_at, erase_node, find_block, queue_cold, free_victim, leave_queue, settle_fifo,
}
use ssdiq.Sim.TwoR.Fifo.Nodes.{
  AtEnd, Points, insert-end, advance-end, Numbered-end, Numbered-erase, AreDistinct-end,
  AreDistinct-erase, Points-end, has_node-erase_ne, find-Leaves, erase-remove_first,
  absent-remove_first, blocks_of, blocks_of-end, remove_first, freed, cooled, all_freed, all_cooled,
  requeued,
}

-- A cold victim joins the queue at its end, and the next one will do so as well.
abbrev queued_cold : ℕ → TwoR → TwoR
queued_cold v t = record t {
  cold_blocks = t.cold_blocks ++ (v ∷ []);
  fifo_list = t.fifo_list ++ (record { node = t.next_node; block = v } ∷ []);
  next_node = t.next_node + 1;
  cur_cold_blk_ptr = none;
}

queue_cold-ok : (v : ℕ) (t : TwoR) → AtEnd t → queue_cold v t ≡ ok (queued_cold v t)
unfolding queue_cold
queue_cold-ok v t g =
    let x : Node = record { node = t.next_node; block = v } in
    rw (g.cold_end, insert-end x t.fifo_list, advance-end x t.fifo_list g.numbered) refl

queued_cold-AtEnd : (v : ℕ) (t : TwoR) → AtEnd t → AtEnd (queued_cold v t)
queued_cold-AtEnd v t g =
    let x : Node = record { node = t.next_node; block = v } in
    record {
      numbered = Numbered-end t.next_node x t.fifo_list refl g.numbered;
      distinct = AreDistinct-end x t.fifo_list g.numbered g.distinct;
      scan = Points-end t.cur_scan x t.fifo_list g.scan;
      cold_end = refl;
    }

-- What settling victims leaves: those with room are free, those without are cold and at the end of the
-- queue, which keeps its order else.
pub record Settles (vs : List ℕ) (t t' : TwoR) : Type 0 where
  pub ssd : t'.ssd ≡ t.ssd
  pub free : t'.free_blocks ≡ t.free_blocks ++ all_freed t.ssd vs
  pub cold : t'.cold_blocks ≡ t.cold_blocks ++ all_cooled t.ssd vs
  pub queue : blocks_of t'.fifo_list ≡ requeued t.ssd vs (blocks_of t.fifo_list)
  pub at_end : AtEnd t'

-- What leaving the queue leaves.
record Left (v : ℕ) (t t' : TwoR) : Type 0 where
  ssd : t'.ssd ≡ t.ssd
  free : t'.free_blocks ≡ t.free_blocks
  cold : t'.cold_blocks ≡ t.cold_blocks
  queue : blocks_of t'.fifo_list ≡ remove_first v (blocks_of t.fifo_list)
  at_end : AtEnd t'

leave_queue-Left :
    (it : Iterator) (v : ℕ) (t : TwoR)
    → find_block v t.fifo_list ≡ it
    → AtEnd t
    → (t' : TwoR) × (leave_queue it t ≡ ok t') × Left v t t'
unfolding leave_queue
leave_queue-Left none v t e g = (
  t,
  refl,
  record {
    ssd = refl;
    free = refl;
    cold = refl;
    queue = sym (absent-remove_first v t.fifo_list e);
    at_end = g;
  },
)
leave_queue-Left (some i) v t e g =
    let r = find-Leaves v t.fifo_list i e in
    (
      record t {
        cur_scan = if is_at t.cur_scan i then r.after else t.cur_scan;
        fifo_list = erase_node i t.fifo_list;
      },
      rw r.advanced refl,
      record {
        ssd = refl;
        free = refl;
        cold = refl;
        queue = erase-remove_first v t.fifo_list i g.distinct e;
        at_end = record {
          numbered = Numbered-erase t.next_node i t.fifo_list g.numbered;
          distinct = AreDistinct-erase i t.fifo_list g.distinct;
          scan = moved t.cur_scan g.scan r.after r.points;
          cold_end = g.cold_end;
        };
      },
    )
  where
    moved :
        (scan : Iterator)
        → Points scan t.fifo_list
        → (after : Iterator) → Points after (erase_node i t.fifo_list)
        → Points (if is_at scan i then after else scan) (erase_node i t.fifo_list)
    moved none h after k = tt
    moved (some j) h after k = elim (Bool-cases (j == i)) [
      | inl f ↦ rw f k
      | inr f ↦ rw f (has_node-erase_ne j i t.fifo_list (ne→== i j (λ q. ==→ne j i f (sym q))) ∙ h)
    ]

-- The victim is put on the free list or queued.
abbrev put : ℕ → TwoR → TwoR
put v t = if can_write (nth_block t.ssd.blocks v) then free_victim v t else queued_cold v t

record Puts (v : ℕ) (t t' : TwoR) : Type 0 where
  ssd : t'.ssd ≡ t.ssd
  free : t'.free_blocks ≡ t.free_blocks ++ freed t.ssd v
  cold : t'.cold_blocks ≡ t.cold_blocks ++ cooled t.ssd v
  queue : blocks_of t'.fifo_list ≡ blocks_of t.fifo_list ++ cooled t.ssd v
  at_end : AtEnd t'

put-Puts : (v : ℕ) (t : TwoR) → AtEnd t → Puts v t (put v t)
put-Puts v t g = elim (Bool-cases (can_write (nth_block t.ssd.blocks v))) [
  | inl e ↦ rw e (record {
    ssd = refl;
    free = rw e refl;
    cold = rw e (sym (append-nil t.cold_blocks));
    queue = rw e (sym (append-nil (blocks_of t.fifo_list)));
    at_end = record {
      numbered = g.numbered;
      distinct = g.distinct;
      scan = g.scan;
      cold_end = g.cold_end;
    };
  })
  | inr e ↦ rw e (record {
    ssd = refl;
    free = rw e (sym (append-nil t.free_blocks));
    cold = rw e refl;
    queue = rw e (blocks_of-end (record { node = t.next_node; block = v }) t.fifo_list);
    at_end = queued_cold-AtEnd v t g;
  })
]

settle_fifo-step :
    (v : ℕ) (vs : List ℕ) (t t' : TwoR)
    → IsValid t.ssd
    → v < t.ssd.block_count
    → AtEnd t
    → leave_queue (find_block v (put v t).fifo_list) (put v t) ≡ ok t'
    → settle_fifo (v ∷ vs) t ≡ settle_fifo vs t'
unfolding settle_fifo
settle_fifo-step v vs t t' w h g e = elim (Bool-cases (can_write (nth_block t.ssd.blocks v))) [
  | inl room ↦ rw (block_at-ok t.ssd v w h, room, rw room at e) refl
  | inr full ↦ rw (block_at-ok t.ssd v w h, full, queue_cold-ok v t g, rw full at e) refl
]

-- Settling the victims of a collection never fails when the cold position is the end of the queue, whose
-- nodes have numbers of their own, and the scan is at a node of the queue or at its end; and it is so
-- again afterwards: no iterator loses its meaning. The victims with room are added to the free blocks in
-- their order, and the others to the cold ones. Of each victim the first entry has left the queue, behind
-- whose end one was put for each that has no room, and nothing else is changed in the queue.
pub settle_fifo-Settles :
    (vs : List ℕ) (t : TwoR)
    → IsValid t.ssd
    → Inside t.ssd vs
    → AtEnd t
    → (t' : TwoR) × (settle_fifo vs t ≡ ok t') × Settles vs t t'
unfolding all_freed all_cooled requeued
settle_fifo-Settles [] t w i g = (
  t,
  unfold settle_fifo in refl,
  record {
    ssd = refl;
    free = sym (append-nil t.free_blocks);
    cold = sym (append-nil t.cold_blocks);
    queue = refl;
    at_end = g;
  },
)
settle_fifo-Settles (v ∷ vs) t w i g =
    let p = put-Puts v t g in
    let l = leave_queue-Left (find_block v (put v t).fifo_list) v (put v t) refl p.at_end in
    let same : l.0.ssd ≡ t.ssd = l.2.ssd ∙ p.ssd in
    let r = settle_fifo-Settles vs l.0 (rw same w) (rw same i.1) l.2.at_end in
    (
      r.0,
      settle_fifo-step v vs t l.0 w i.0 g l.1 ∙ r.1,
      record {
        ssd = r.2.ssd ∙ same;
        free =
            r.2.free
            ∙ rw (same, l.2.free, p.free)
                (append_assoc t.free_blocks (freed t.ssd v) (all_freed t.ssd vs));
        cold =
            r.2.cold
            ∙ rw (same, l.2.cold, p.cold)
                (append_assoc t.cold_blocks (cooled t.ssd v) (all_cooled t.ssd vs));
        queue =
            r.2.queue
            ∙ ap (λ u. requeued u vs (blocks_of l.0.fifo_list)) same
            ∙ ap (requeued t.ssd vs) (l.2.queue ∙ ap (remove_first v) p.queue);
        at_end = r.2.at_end;
      },
    )
