-- ===== src/Sim/Greedy/Victim.antt =====
-- The garbage collection of GreedyGC of sim/Greedy.hpp with the plain greedy policy finds room.
use ssdiq.Prelude.{
  ℕ, ◌+◌, ◌*◌, ◌≤◌, ◌<◌, ◌≡◌, sym, ap, ◌∙◌, inl, inr, [], ◌∷◌, arith, length, ok, ℕ_discrete,
  dec_lt,
}
use ssdiq.Sim.Ssd.{Ssd, is_address, compact_block}
use ssdiq.Sim.Ssd.Consistent.{mapped}
use ssdiq.Sim.Ssd.Valid as SsdValid
use ssdiq.Sim.Ssd.Valid.{sum_valid, count_mapped-le}
use ssdiq.Sim.Ssd.Write.{valid_of, SameShape, head_of}
use ssdiq.Sim.Ssd.Compact.{Compacts}
use ssdiq.Sim.Greedy.{Greedy, collect_victim, choose_victim, single_greedy}
use ssdiq.Sim.Greedy.Select.{IsLeast, single_greedy-cases, valid_of-small}
use ssdiq.Sim.Greedy.Valid.{IsValid, IsGreedy, sum_valid-ge, IsFull-head}

-- Every block is full.
abbrev pub AllFull : Ssd → Type 0
AllFull s = (b : ℕ) → b < s.block_count → head_of s b ≡ s.pages_per_block

-- On a valid SSD whose blocks are all written to their ends and that has more physical than logical pages,
-- `singleGreedy` finds a block with an invalid page.
pub victim-room :
    (s : Ssd)
    → SsdValid.IsValid s
    → AllFull s
    → s.logical_pages < s.block_count * s.pages_per_block
    → (m : ℕ) × (single_greedy s ≡ ok m) × (m < s.block_count) × (valid_of s m < s.pages_per_block)
victim-room s v full spare = elim (single_greedy-cases s v.all_blocks (valid_of-small s v)) [
  | inl r ↦ (r.0, r.1, r.2.inside, less r.0 r.2)
  | inr r ↦ absurd (r.1 0 some_block (IsFull-head s 0 v some_block (full 0 some_block)))
]
  where
    some_block : 0 < s.block_count
    some_block = elim (dec_lt 0 s.block_count) [ yes h ↦ h | no h ↦ absurd (none (omega arith)) ]
      where
        none : s.block_count ≡ 0 → ⊥
        none e = grind (arith, spare)

    less : (m : ℕ) → IsLeast s s.block_count m → valid_of s m < s.pages_per_block
    less m l = elim (dec_lt (valid_of s m) s.pages_per_block) [
      | yes h ↦ h
      | no h ↦ absurd (
          too_many (
            sum_valid-ge s.pages_per_block s.blocks (λ j hj.
              let jb : j < s.block_count = omega (arith, v.all_blocks) in
              omega (arith, l.least j jb (IsFull-head s j v jb (full j jb))))))
    ]
      where
        too_many : length s.blocks * s.pages_per_block ≤ sum_valid s.blocks → ⊥
        too_many h =
            let room : s.block_count * s.pages_per_block ≤ sum_valid s.blocks =
              rw (← v.all_blocks) h in
            omega (arith, room, v.live, count_mapped-le s.ltp_mapping, v.all_logical, spare)

-- A collector that is ready to write: its current block has room, and no page has changed.
pub record Ready (g g' : Greedy) : Type 0 where
  pub greedy : IsGreedy g'
  pub shape : SameShape g.ssd g'.ssd
  pub room : head_of g'.ssd g'.current_block < g'.ssd.pages_per_block
  pub same_pages :
      (k : ℕ) → is_address (mapped g'.ssd.ltp_mapping k) ≡ is_address (mapped g.ssd.ltp_mapping k)

-- The free list was empty: the victim is compacted and becomes the current block.
module _ (g : Greedy) (i : IsGreedy g) (empty : g.free_blocks ≡ [])
    (full : head_of g.ssd g.current_block ≡ g.ssd.pages_per_block) where
  pub all_full : AllFull g.ssd
  all_full b h = elim (ℕ_discrete b g.current_block) [
    | yes e ↦ ap (head_of g.ssd) e ∙ full
    | no ne ↦ i.valid.rest_full b h (rw empty (λ m. elim m [ inl e ↦ ne e | inr n ↦ n ]))
  ]

  abbrev pub collected : ℕ → Ssd → Greedy
  collected m s = record g {
    ssd = s;
    free_blocks = [];
    current_block = m;
    rnd = λ j. g.rnd (j + g.k);
  }

  pub collect_victim-ok :
      (m : ℕ) (s : Ssd)
      → single_greedy g.ssd ≡ ok m
      → compact_block m g.ssd ≡ ok s
      → collect_victim g
        ≡ ok (record g { ssd = s; free_blocks = m ∷ []; rnd = λ j. g.rnd (j + g.k) })
  unfolding collect_victim choose_victim
  collect_victim-ok m s e c = simp (i.all_blocks, e, c, empty)

  collected-IsValid :
      (m : ℕ) (s : Ssd) → m < g.ssd.block_count → Compacts m g.ssd s → IsValid (collected m s)
  collected-IsValid m s hm c = record {
    ssd = c.valid;
    unbuffered = c.shape.write_buffer_size ∙ i.valid.unbuffered;
    current = omega (arith, hm, c.shape.block_count);
    free_inside = tt;
    free_room = tt;
    distinct = ((λ h. h), tt);
    rest_full = λ b h out.
        ap (λ y. y.write_pos) (c.others b (λ e. out (inl (sym e))))
        ∙ all_full b (omega (arith, c.shape.block_count))
        ∙ sym c.shape.pages_per_block;
  }

  pub collected-Ready :
      (m : ℕ) (s : Ssd)
      → m < g.ssd.block_count
      → valid_of g.ssd m < g.ssd.pages_per_block
      → Compacts m g.ssd s
      → Ready g (collected m s)
  collected-Ready m s hm less c = record {
    greedy = record {
      valid = collected-IsValid m s hm c;
      plain = i.plain;
      all_blocks = i.all_blocks;
      spare = rw (c.shape.logical_pages, c.shape.block_count, c.shape.pages_per_block) i.spare;
    };
    shape = c.shape;
    room = omega (arith, c.head, less, c.shape.pages_per_block);
    same_pages = c.same_pages;
  }
