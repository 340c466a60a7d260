-- ===== src/Sim/Ssd/Erase.antt =====
-- What SSD::eraseBlock of sim/SSD.hpp does to a block that holds no valid page.
use ssdiq.Prelude.{
  ℕ, ◌<◌, ◌≡◌, ◌≢◌, refl, sym, ap, ◌∙◌, arith, length, set, length-set, get_or-set_self,
  get_or-set_ne, get_or-ext, get_or-replicate, length-replicate, get_or-out, ok, Fault, fetch-in,
  lt→ltb, ℕ_discrete, dec_lt, add64,
}
use ssdiq.Sim.Block.{Block, unused}
use ssdiq.Sim.Block.Valid.{valid_cnt-pos}
use ssdiq.Sim.Block.Compact.{erased, erase-eq, erased-IsValid}
use ssdiq.Sim.Ssd.{Ssd, is_address, erase_block}
use ssdiq.Sim.Ssd.Pages.{nth_block, no_block, page_at-set_same, page_at}
use ssdiq.Sim.Ssd.Consistent.{mapped, Consistent-ext}
use ssdiq.Sim.Ssd.Valid.{IsValid, Each-set, sum_valid-set}
use ssdiq.Sim.Ssd.Write.{SameShape, SameShape-trans, head_of, valid_of}

-- The SSD stays valid, and so does every logical page.
pub record Keeps (s s' : Ssd) : Type 0 where
  pub shape : SameShape s s'
  pub valid : IsValid s'
  pub same_pages :
      (k : ℕ) → is_address (mapped s'.ltp_mapping k) ≡ is_address (mapped s.ltp_mapping k)

pub Keeps-trans : (s t u : Ssd) → Keeps s t → Keeps t u → Keeps s u
Keeps-trans s t u a b = record {
  shape = SameShape-trans s t u a.shape b.shape;
  valid = b.valid;
  same_pages = λ k. b.same_pages k ∙ a.same_pages k;
}

module _ (s : Ssd) (b : ℕ) (v : IsValid s) (h : b < s.block_count)
    (none_valid : valid_of s b ≡ 0) where
  inside : b < length s.blocks
  inside = omega (arith, v.all_blocks)

  abbrev clean_block : Block
  clean_block = erased s.erase_age_counter (nth_block s.blocks b)

  abbrev after : Ssd
  after = record s {
    blocks = set s.blocks b clean_block;
    erase_age_counter = add64 s.erase_age_counter 1;
  }

  holds_none : (q : ℕ) → page_at s.blocks b q ≡ unused
  holds_none q = elim (dec_lt q (length (nth_block s.blocks b).ptl)) [
    | no out ↦ get_or-out (nth_block s.blocks b).ptl q unused (omega arith)
    | yes low ↦ elim (ℕ_discrete (page_at s.blocks b q) unused) [
      | yes e ↦ e
      | no u ↦ absurd (
          omega (
            arith,
            (valid_cnt-pos q (nth_block s.blocks b) (v.each b inside).valid low u).0,
            none_valid,
          ))
    ]
  ]

  same_table : clean_block.ptl ≡ (nth_block s.blocks b).ptl
  same_table =
      let own = (v.each b inside).valid in
      get_or-ext clean_block.ptl (nth_block s.blocks b).ptl unused
        (length-replicate (nth_block s.blocks b).pages_per_block unused ∙ sym own.sized)
        (λ q. get_or-replicate (nth_block s.blocks b).pages_per_block q unused ∙ sym (holds_none q))

  after-Keeps : Keeps s after
  after-Keeps = record {
    shape = record {
      pages_per_block = refl;
      block_count = refl;
      logical_pages = refl;
      write_buffer_size = refl;
    };
    valid = record {
      paged = v.paged;
      all_blocks = length-set s.blocks b clean_block ∙ v.all_blocks;
      address_space = v.address_space;
      all_logical = v.all_logical;
      logical_space = v.logical_space;
      each =
          Each-set s.pages_per_block b s.blocks clean_block
            (record {
              valid =
                  erased-IsValid s.erase_age_counter (nth_block s.blocks b) (v.each b inside).valid;
              same_size = (v.each b inside).same_size;
              own_id = (v.each b inside).own_id;
            })
            v.each;
      consistent =
          Consistent-ext s.pages_per_block s.blocks (set s.blocks b clean_block) s.ltp_mapping
            (λ c q. page_at-set_same s.blocks b c q clean_block inside same_table) v.consistent;
      live = omega (arith, sum_valid-set s.blocks b clean_block inside, none_valid, v.live);
      word = v.word;
    };
    same_pages = λ k. refl;
  }

  -- A block without valid pages is erased: no page is lost and no other block changes.
  pub erase_block-Keeps :
      (s' : Ssd) × (erase_block b s ≡ ok s')
      × Keeps s s'
      × (head_of s' b ≡ 0)
      × ((c : ℕ) → b ≢ c → nth_block s'.blocks c ≡ nth_block s.blocks c)
  unfolding erase_block
  erase_block-Keeps = (
    after,
    rw (
      lt→ltb b (length s.blocks) inside,
      fetch-in Fault.undefined_access s.blocks b no_block inside,
      erase-eq s.erase_age_counter (nth_block s.blocks b) (v.each b inside).valid,
    ),
    after-Keeps,
    ap (λ y. y.write_pos) (get_or-set_self s.blocks b clean_block no_block inside),
    λ c ne. get_or-set_ne s.blocks b c clean_block no_block ne,
  )
