-- ===== src/Sim/Greedy/Run.antt =====
-- Whole runs of GreedyGC::writePage of sim/Greedy.hpp, as the loops of runBench in sim/sim.cpp make
-- them.
use ssdiq.Prelude.{
  ℕ, ◌<◌, ◌≡◌, refl, sym, ◌∙◌, ◌⊎◌, inl, inr, true, false, List, [], ◌∷◌, arith, In, All, ok,
  ge→ltb, dec_lt, minus_one, subst,
}
use ssdiq.Sim.Block.{Block, can_write}
use ssdiq.Sim.Block.Used.{In?}
use ssdiq.Sim.Ssd.{Ssd, is_address, write_page}
use ssdiq.Sim.Ssd.Pages.{nth_block}
use ssdiq.Sim.Ssd.Consistent.{mapped}
use ssdiq.Sim.Ssd.Write.{SameShape, SameShape-refl, SameShape-trans, head_of}
use ssdiq.Sim.Collect.{block_at}
use ssdiq.Sim.Greedy.{Greedy, next_block, gc_write_page, write_pages}
use ssdiq.Sim.Greedy.Valid.{IsGreedy}
use ssdiq.Sim.Greedy.Total.{
  Stores, wrote, write_page-Stores, next_block-Ready, can_write-room, block_at-ok,
}

module _ (fuel page : ℕ) (g : Greedy) where
  -- The current block has room.
  steps-room :
      (b : Block) (s : Ssd)
      → block_at g.current_block g.ssd ≡ ok b
      → can_write b ≡ true
      → write_page page g.current_block minus_one g.ssd ≡ ok s
      → gc_write_page fuel page g ≡ ok (record g { ssd = s })
  unfolding gc_write_page
  steps-room b s eb ew es = rw (eb, ew, es)

  -- The current block is full.
  steps-full :
      (b : Block) (r : Greedy) (s : Ssd)
      → block_at g.current_block g.ssd ≡ ok b
      → can_write b ≡ false
      → next_block fuel g ≡ ok r
      → write_page page r.current_block minus_one r.ssd ≡ ok s
      → gc_write_page fuel page g ≡ ok (record r { ssd = s })
  unfolding gc_write_page
  steps-full b r s eb ew er es = rw (eb, ew, er, es)

-- On an SSD with a spare page the greedy collector accepts every write of a logical page: no check of
-- the collector or of the SSD fails, and afterwards the page is present and every other page is
-- present exactly if it was before.
pub gc_write_page-Stores :
    (fuel page : ℕ) (g : Greedy)
    → IsGreedy g
    → page < g.ssd.logical_pages
    → (g' : Greedy) × (gc_write_page fuel page g ≡ ok g') × Stores page g g'
gc_write_page-Stores fuel page g i logical =
    elim (dec_lt (head_of g.ssd g.current_block) g.ssd.pages_per_block) [
      | yes room ↦
          let w = write_page-Stores page g i logical room in
          (
            wrote page g i logical room w.0,
            steps-room fuel page g (nth_block g.ssd.blocks g.current_block) w.0
                (block_at-ok g.ssd g.current_block i.valid.ssd i.valid.current)
                (can_write-room g.ssd g.current_block i.valid.ssd i.valid.current room) w.1,
            w.2,
          )
      | no full ↦ advance full
    ]
  where
    own : ℕ
    own = g.current_block

    placed_full :
        ¬ (head_of g.ssd g.current_block < g.ssd.pages_per_block)
        → (head_of g.ssd g.current_block ≡ g.ssd.pages_per_block)
          × (can_write (nth_block g.ssd.blocks g.current_block) ≡ false)
    placed_full full =
        let p =
          i.valid.ssd.each g.current_block
            (omega (arith, i.valid.ssd.all_blocks, i.valid.current)) in
        (
          omega (arith, p.valid.within, p.same_size, full),
          ge→ltb _ _ (omega (arith, p.same_size, full)),
        )

    advance :
        ¬ (head_of g.ssd g.current_block < g.ssd.pages_per_block)
        → (g' : Greedy) × (gc_write_page fuel page g ≡ ok g') × Stores page g g'
    advance full =
        let f = placed_full full in
        let n = next_block-Ready fuel g g.free_blocks refl i f.0 in
        let here : page < n.0.ssd.logical_pages = omega (arith, n.2.shape.logical_pages, logical) in
        let w = write_page-Stores page n.0 n.2.greedy here n.2.room in
        (
          wrote page n.0 n.2.greedy here n.2.room w.0,
          steps-full fuel page g (nth_block g.ssd.blocks g.current_block) n.0 w.0
              (block_at-ok g.ssd g.current_block i.valid.ssd i.valid.current) f.1 n.1 w.1,
          record {
            greedy = w.2.greedy;
            shape = SameShape-trans g.ssd n.0.ssd w.0 n.2.shape w.2.shape;
            present = w.2.present;
            others = λ k h. w.2.others k h ∙ n.2.same_pages k;
          },
        )

-- What a run of writes leaves.
pub record Runs (pages : List ℕ) (g g' : Greedy) : Type 0 where
  pub greedy : IsGreedy g'
  pub shape : SameShape g.ssd g'.ssd
  pub written : (k : ℕ) → In k pages → is_address (mapped g'.ssd.ltp_mapping k) ≡ true
  pub others :
      (k : ℕ)
      → ¬ In k pages
      → is_address (mapped g'.ssd.ltp_mapping k) ≡ is_address (mapped g.ssd.ltp_mapping k)

-- Any run of writes of logical pages ends without an exception. The pages that were written are
-- present, and no other page has appeared or gone.
pub write_pages-Runs :
    (fuel : ℕ) (pages : List ℕ) (g : Greedy)
    → IsGreedy g
    → All (λ p. p < g.ssd.logical_pages) pages
    → (g' : Greedy) × (write_pages fuel pages g ≡ ok g') × Runs pages g g'
unfolding write_pages
write_pages-Runs fuel [] g i a = (
  g,
  refl,
  record {
    greedy = i;
    shape = SameShape-refl g.ssd;
    written = λ k h. absurd h;
    others = λ k h. refl;
  },
)
write_pages-Runs fuel (p ∷ pages) g i a =
    let w = gc_write_page-Stores fuel p g i a.0 in
    let r =
      write_pages-Runs fuel pages w.0 w.2.greedy
        (subst (λ n. All (λ q. q < n) pages) (sym w.2.shape.logical_pages) a.1) in
    (
      r.0,
      rw w.1 r.1,
      record {
        greedy = r.2.greedy;
        shape = SameShape-trans g.ssd w.0.ssd r.0.ssd w.2.shape r.2.shape;
        written = λ k h. present w.0 r.0 w.2 r.2 k h (In? k pages);
        others = λ k h. r.2.others k (λ m. h (inr m)) ∙ w.2.others k (λ e. h (inl (sym e)));
      },
    )
  where
    present :
        (w r : Greedy)
        → Stores p g w
        → Runs pages w r
        → (k : ℕ) → In k (p ∷ pages)
        → In k pages ⊎ (¬ In k pages)
        → is_address (mapped r.ssd.ltp_mapping k) ≡ true
    present w r sw sr k h (inl m) = sr.written k m
    present w r sw sr k (inr m) (inr out) = absurd (out m)
    present w r sw sr k (inl e) (inr out) = sr.others k out ∙ rw e sw.present
