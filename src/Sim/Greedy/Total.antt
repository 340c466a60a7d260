-- ===== src/Sim/Greedy/Total.antt =====
-- GreedyGC::writePage of sim/Greedy.hpp with the plain greedy policy never throws.
use ssdiq.Prelude.{
  ℕ, ◌<◌, ◌≡◌, ◌≢◌, refl, sym, ap, ◌∙◌, inl, inr, true, false, List, [], ◌∷◌, arith, In, Distinct,
  All, ok, Fault, fetch-in, lt→ltb, ℕ_discrete, minus_one, subst,
}
use ssdiq.Sim.Block.{Block, can_write}
use ssdiq.Sim.Ssd.{Ssd, is_address, write_page}
use ssdiq.Sim.Ssd.Pages.{nth_block, no_block, address-lt}
use ssdiq.Sim.Ssd.Consistent.{mapped, is_address-small}
use ssdiq.Sim.Ssd.Valid as SsdValid
use ssdiq.Sim.Ssd.Valid.{sum_valid, count_mapped-le}
use ssdiq.Sim.Ssd.Write.{SameShape, SameShape-refl, head_of, Writes, write_page-Writes}
use ssdiq.Sim.Ssd.Compact.{compact_block-Compacts}
use ssdiq.Sim.Collect.{block_at}
use ssdiq.Sim.Greedy.{Greedy, pop_front, refill, next_block, perform_gc, collect_victim}
use ssdiq.Sim.Greedy.Valid.{IsValid, IsGreedy}
use ssdiq.Sim.Greedy.Victim.{
  victim-room, Ready, all_full, collected, collect_victim-ok, collected-Ready,
}

pub can_write-room :
    (s : Ssd) (b : ℕ)
    → SsdValid.IsValid s
    → b < s.block_count
    → head_of s b < s.pages_per_block
    → can_write (nth_block s.blocks b) ≡ true
can_write-room s b v h room =
    lt→ltb _ _ (omega (arith, room, (v.each b (omega (arith, v.all_blocks))).same_size))

pub block_at-ok :
    (s : Ssd) (b : ℕ)
    → SsdValid.IsValid s
    → b < s.block_count
    → block_at b s ≡ ok (nth_block s.blocks b)
block_at-ok s b v h =
    fetch-in Fault.undefined_access s.blocks b no_block (omega (arith, v.all_blocks))

-- The next free block becomes the current one.
popped-IsValid :
    (g : Greedy) (b : ℕ) (rest : List ℕ)
    → IsValid g
    → g.free_blocks ≡ b ∷ rest
    → head_of g.ssd g.current_block ≡ g.ssd.pages_per_block
    → IsValid (record g { current_block = b; free_blocks = rest })
popped-IsValid g b rest v e full =
    let inside : All (λ c. c < g.ssd.block_count) (b ∷ rest) =
      subst (All (λ c. c < g.ssd.block_count)) e v.free_inside in
    let room : All (λ c. head_of g.ssd c < g.ssd.pages_per_block) (b ∷ rest) =
      subst (All (λ c. head_of g.ssd c < g.ssd.pages_per_block)) e v.free_room in
    let apart : Distinct (g.current_block ∷ b ∷ rest) =
      subst (λ l. Distinct (g.current_block ∷ l)) e v.distinct in
    record {
      ssd = v.ssd;
      unbuffered = v.unbuffered;
      current = inside.0;
      free_inside = inside.1;
      free_room = room.1;
      distinct = apart.1;
      rest_full = λ c h out. elim (ℕ_discrete c g.current_block) [
        | yes same ↦ ap (head_of g.ssd) same ∙ full
        | no other ↦ v.rest_full c h (rw e (λ m. elim m [ inl k ↦ other k | inr k ↦ out k ]))
      ];
    }

popped-room :
    (g : Greedy) (b : ℕ) (rest : List ℕ)
    → IsValid g
    → g.free_blocks ≡ b ∷ rest
    → head_of g.ssd b < g.ssd.pages_per_block
popped-room g b rest v e =
    (subst (All (λ c. head_of g.ssd c < g.ssd.pages_per_block)) e v.free_room).0

pub next_block-steps :
    (fuel : ℕ) (g r p : Greedy) (b : Block)
    → refill g.free_blocks fuel g ≡ ok r
    → pop_front r.free_blocks r ≡ ok p
    → block_at p.current_block p.ssd ≡ ok b
    → can_write b ≡ true
    → next_block fuel g ≡ ok p
unfolding next_block
next_block-steps fuel g r p b er ep eb ew = rw (er, ep, eb, ew)

pub refill-empty :
    (fuel : ℕ) (g : Greedy) (free : List ℕ)
    → free ≡ []
    → g.simple_two_r ≡ false
    → refill free fuel g ≡ collect_victim g
unfolding refill perform_gc
refill-empty fuel g free e plain = simp (e, plain)

refill-some :
    (fuel b : ℕ) (rest free : List ℕ) (g : Greedy) → free ≡ b ∷ rest → refill free fuel g ≡ ok g
unfolding refill
refill-some fuel b rest free g e = rw e

pub pop_front-some :
    (b : ℕ) (rest free : List ℕ) (g : Greedy)
    → free ≡ b ∷ rest
    → pop_front free g ≡ ok (record g { current_block = b; free_blocks = rest })
unfolding pop_front
pop_front-some b rest free g e = rw e

-- `writePage` finds a block with room when the current one is full.
pub next_block-Ready :
    (fuel : ℕ) (g : Greedy) (free : List ℕ)
    → g.free_blocks ≡ free
    → IsGreedy g
    → head_of g.ssd g.current_block ≡ g.ssd.pages_per_block
    → (g' : Greedy) × (next_block fuel g ≡ ok g') × Ready g g'
next_block-Ready fuel g (b ∷ rest) e i full =
    let popped : Greedy = record g { current_block = b; free_blocks = rest } in
    let v = popped-IsValid g b rest i.valid e full in
    let room = popped-room g b rest i.valid e in
    (
      popped,
      next_block-steps fuel g g popped (nth_block g.ssd.blocks b)
          (refill-some fuel b rest g.free_blocks g e) (pop_front-some b rest g.free_blocks g e)
          (block_at-ok g.ssd b i.valid.ssd v.current)
          (can_write-room g.ssd b i.valid.ssd v.current room),
      record {
        greedy = record { valid = v; plain = i.plain; all_blocks = i.all_blocks; spare = i.spare };
        shape = SameShape-refl g.ssd;
        room = room;
        same_pages = λ k. refl;
      },
    )
next_block-Ready fuel g [] e i full =
    let victim = victim-room g.ssd i.valid.ssd (all_full g i e full) i.spare in
    let c = compact_block-Compacts victim.0 g.ssd i.valid.ssd victim.2 in
    let ready = collected-Ready g i e full victim.0 c.0 victim.2 victim.3 c.2 in
    (
      collected g i e full victim.0 c.0,
      next_block-steps fuel g _ _ (nth_block c.0.blocks victim.0)
          (refill-empty fuel g g.free_blocks e i.plain
            ∙ collect_victim-ok g i e full victim.0 c.0 victim.1 c.1)
          (pop_front-some victim.0 [] (victim.0 ∷ []) _ refl)
          (block_at-ok c.0 victim.0 ready.greedy.valid.ssd ready.greedy.valid.current)
          (can_write-room c.0 victim.0 ready.greedy.valid.ssd ready.greedy.valid.current
            ready.room),
      ready,
    )

-- What a write of `page` leaves.
pub record Stores (page : ℕ) (g g' : Greedy) : Type 0 where
  pub greedy : IsGreedy g'
  pub shape : SameShape g.ssd g'.ssd
  pub present : is_address (mapped g'.ssd.ltp_mapping page) ≡ true
  pub others :
      (k : ℕ)
      → page ≢ k
      → is_address (mapped g'.ssd.ltp_mapping k) ≡ is_address (mapped g.ssd.ltp_mapping k)

-- The write into a block with room.
module _ (page : ℕ) (g : Greedy) (i : IsGreedy g) (logical : page < g.ssd.logical_pages)
    (room : head_of g.ssd g.current_block < g.ssd.pages_per_block) where
  abbrev pub wrote : Ssd → Greedy
  wrote s = record g { ssd = s }

  not_free : (c : ℕ) → In c g.free_blocks → g.current_block ≢ c
  not_free c h e = i.valid.distinct.0 (rw e h)

  module _ (s : Ssd) (w : Writes page g.current_block g.ssd s) where
    room_left :
        (free : List ℕ)
        → ((c : ℕ) → In c free → g.current_block ≢ c)
        → All (λ c. head_of g.ssd c < g.ssd.pages_per_block) free
        → All (λ c. head_of s c < s.pages_per_block) free
    room_left [] apart h = tt
    room_left (c ∷ free) apart h = (
      omega (arith, w.heads c (apart c (inl refl)), h.0, w.shape.pages_per_block),
      room_left free (λ d m. apart d (inr m)) h.1,
    )

    wrote-IsValid : IsValid (wrote s)
    wrote-IsValid = record {
      ssd = w.valid;
      unbuffered = w.shape.write_buffer_size ∙ i.valid.unbuffered;
      current = omega (arith, i.valid.current, w.shape.block_count);
      free_inside = rw w.shape.block_count i.valid.free_inside;
      free_room = room_left g.free_blocks not_free i.valid.free_room;
      distinct = i.valid.distinct;
      rest_full = λ b h out.
          w.heads b (λ e. out (inl (sym e)))
          ∙ i.valid.rest_full b (omega (arith, h, w.shape.block_count)) out
          ∙ sym w.shape.pages_per_block;
    }

    at_head : is_address (mapped s.ltp_mapping page) ≡ true
    at_head = is_address-small (mapped s.ltp_mapping page) (
        omega (
          arith,
          w.stored,
          address-lt g.ssd.pages_per_block g.ssd.block_count g.current_block
              (head_of g.ssd g.current_block) i.valid.current room,
          i.valid.ssd.address_space,
        ))

    wrote-Stores : Stores page g (wrote s)
    wrote-Stores = record {
      greedy = record {
        valid = wrote-IsValid;
        plain = i.plain;
        all_blocks = i.all_blocks;
        spare = rw (w.shape.logical_pages, w.shape.block_count, w.shape.pages_per_block) i.spare;
      };
      shape = w.shape;
      present = at_head;
      others = λ k h. ap is_address (w.kept k h);
    }

  pub write_page-Stores :
      (s : Ssd) × (write_page page g.current_block minus_one g.ssd ≡ ok s) × Stores page g (wrote s)
  write_page-Stores =
      let r =
        write_page-Writes page g.current_block minus_one g.ssd i.valid.ssd logical i.valid.current
          room i.valid.unbuffered in
      (r.0, r.1, wrote-Stores r.0 r.2)
