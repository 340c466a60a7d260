-- ===== src/Sim/Ssd/Write.antt =====
-- What SSD::writePageWithoutCaching and SSD::writePage of sim/SSD.hpp do on a valid SSD.
use ssdiq.Prelude.{
  ℕ, ◌+◌, ◌*◌, ◌≤◌, ◌<◌, ◌≡◌, ◌≢◌, refl, sym, ap, ◌∙◌, inl, inr, List, arith, length, set,
  length-set, get_or-set_self, get_or-set_ne, if◌then◌else◌, subst, ok, Fault, fetch-in, ◌>>=◌, ℤ,
  Bool-cases, add64,
}
use ssdiq.Sim.Block.{Block, unused, incache}
use ssdiq.Sim.Block.Valid.{written}
use ssdiq.Sim.Ssd.{
  Ssd, is_address, bump, place, free_page, claim_group, write_page_without_caching, write_page,
}
use ssdiq.Sim.Ssd.Pages.{nth_block, no_block, page_at, page_at-set_same, field-set_same, address-lt}
use ssdiq.Sim.Ssd.Consistent.{Consistent, Consistent-ext, Moves, Moves-Consistent, mapped}
use ssdiq.Sim.Ssd.Valid.{
  Each, Each-set, IsPlaced, IsValid, sum_valid, sum_valid-set, mapped_bit, count_mapped,
  count_mapped-set,
}
use ssdiq.Sim.Ssd.Free.{Frees, unmapped-Frees, mapped-Frees, free_page-ok}
use ssdiq.Sim.Ssd.Place.{place-Moves, place-Each, place-total, place-head, place-heads, place-ok}

-- The sizes of an SSD are constants.
pub record SameShape (s s' : Ssd) : Type 0 where
  pub pages_per_block : s'.pages_per_block ≡ s.pages_per_block
  pub block_count : s'.block_count ≡ s.block_count
  pub logical_pages : s'.logical_pages ≡ s.logical_pages
  pub write_buffer_size : s'.write_buffer_size ≡ s.write_buffer_size

pub SameShape-refl : (s : Ssd) → SameShape s s
SameShape-refl s = record {
  pages_per_block = refl;
  block_count = refl;
  logical_pages = refl;
  write_buffer_size = refl;
}

pub SameShape-trans : (s t u : Ssd) → SameShape s t → SameShape t u → SameShape s u
SameShape-trans s t u a b = record {
  pages_per_block = b.pages_per_block ∙ a.pages_per_block;
  block_count = b.block_count ∙ a.block_count;
  logical_pages = b.logical_pages ∙ a.logical_pages;
  write_buffer_size = b.write_buffer_size ∙ a.write_buffer_size;
}

abbrev pub head_of : Ssd → ℕ → ℕ
head_of s b = (nth_block s.blocks b).write_pos

abbrev pub valid_of : Ssd → ℕ → ℕ
valid_of s b = (nth_block s.blocks b).valid_cnt

-- What a write of page `l` to block `b` leaves.
pub record Writes (l b : ℕ) (s s' : Ssd) : Type 0 where
  pub shape : SameShape s s'
  pub valid : IsValid s'
  pub stored : mapped s'.ltp_mapping l ≡ b * s.pages_per_block + head_of s b
  pub kept : (k : ℕ) → l ≢ k → mapped s'.ltp_mapping k ≡ mapped s.ltp_mapping k
  pub head : head_of s' b ≡ head_of s b + 1
  pub heads : (d : ℕ) → b ≢ d → head_of s' d ≡ head_of s d
  pub moves : Moves s.pages_per_block l b (head_of s b) s.blocks s'.blocks
  pub written : s'.phys_writes ≡ add64 s.phys_writes 1

pub mapped_bit-address : (a : ℕ) → a < incache → mapped_bit a ≡ 1
mapped_bit-address a h = ground arith

Moves-ext :
    (n l b p : ℕ) (bs bs' out : List Block)
    → ((c q : ℕ) → page_at bs c q ≡ page_at bs' c q)
    → Moves n l b p bs out
    → Moves n l b p bs' out
Moves-ext n l b p bs bs' out e m = record {
  arrived = m.arrived;
  others = λ c q. elim (m.others c q) [
    | inl h ↦ inl h
    | inr (inl h) ↦ inr (inl h)
    | inr (inr h) ↦ inr (inr (h.0 ∙ e c q, λ k. h.1 (e c q ∙ k)))
  ];
  stays = λ c q u k. m.stays c q (λ h. u (sym (e c q) ∙ h)) (λ h. k (sym (e c q) ∙ h)) ∙ e c q;
}

module _ (l b : ℕ) (group : ℤ) (s : Ssd) (v : IsValid s) (logical : l < s.logical_pages)
    (block : b < s.block_count) (room : head_of s b < s.pages_per_block) where
  inside : b < length s.blocks
  inside = omega (arith, v.all_blocks)

  abbrev claimed : List Block
  claimed = set s.blocks b (claim_group group (nth_block s.blocks b))

  claimed_pages : (c q : ℕ) → page_at claimed c q ≡ page_at s.blocks c q
  claimed_pages c q = page_at-set_same s.blocks b c q _ inside refl

  claimed_heads : (c : ℕ) → (nth_block claimed c).write_pos ≡ head_of s c
  claimed_heads c = field-set_same (λ y. y.write_pos) s.blocks b c _ inside refl

  claimed-Each : Each s.pages_per_block claimed
  claimed-Each = Each-set s.pages_per_block b s.blocks _ placed v.each
    where
      old : IsPlaced s.pages_per_block b (nth_block s.blocks b)
      old = v.each b inside

      placed : IsPlaced s.pages_per_block b (claim_group group (nth_block s.blocks b))
      placed = record {
        valid = record {
          sized = old.valid.sized;
          word = old.valid.word;
          within = old.valid.within;
          counted = old.valid.counted;
          clean = old.valid.clean;
        };
        same_size = old.same_size;
        own_id = old.own_id;
      }

  claimed-Consistent : Consistent s.pages_per_block claimed s.ltp_mapping
  claimed-Consistent =
      Consistent-ext s.pages_per_block s.blocks claimed s.ltp_mapping claimed_pages v.consistent

  claimed_total : sum_valid claimed ≡ sum_valid s.blocks
  claimed_total = omega (arith, sum_valid-set s.blocks b _ inside)

  length-claimed : length claimed ≡ length s.blocks
  length-claimed = length-set s.blocks b _

  -- The state that a write leaves, from the blocks in which the old copy is free.
  abbrev after : List Block → Ssd
  after bs = record s {
    blocks = set bs b (written l (nth_block bs b));
    ltp_mapping = set s.ltp_mapping l (b * s.pages_per_block + head_of s b);
    mapping_updated_cnt = bump l s.mapping_updated_cnt;
    phys_writes = add64 s.phys_writes 1;
  }

  -- The address of the head of the block.
  abbrev address : ℕ
  address = b * s.pages_per_block + head_of s b

  address_small : address < incache
  address_small = omega (
    arith,
    address-lt s.pages_per_block s.block_count b (head_of s b) block room,
    v.address_space,
  )

  module _ (bs : List Block) (f : Frees s.pages_per_block l claimed s.ltp_mapping bs) where
    module _ (small : l < incache) (at_block : b < length claimed)
        (space : (nth_block claimed b).write_pos < s.pages_per_block) where
      moves : Moves s.pages_per_block l b (head_of s b) s.blocks (after bs).blocks
      moves = Moves-ext s.pages_per_block l b (head_of s b) claimed s.blocks _ claimed_pages (
          subst (λ h. Moves s.pages_per_block l b h claimed (after bs).blocks) (claimed_heads b)
            (place-Moves s.pages_per_block l b claimed s.ltp_mapping bs small claimed-Each
              claimed-Consistent f at_block space))

      total : sum_valid (after bs).blocks ≡ sum_valid bs + 1
      total =
          place-total s.pages_per_block l b claimed s.ltp_mapping bs small claimed-Each
            claimed-Consistent f at_block space

      entry : l < length s.ltp_mapping
      entry = omega (arith, v.all_logical, logical)

      live : sum_valid (after bs).blocks ≡ count_mapped (after bs).ltp_mapping
      live = omega (
        arith,
        total,
        f.total,
        claimed_total,
        v.live,
        count_mapped-set s.ltp_mapping l address entry,
        mapped_bit-address address address_small,
      )

      after-IsValid : IsValid (after bs)
      after-IsValid = record {
        paged = v.paged;
        all_blocks = length-set bs b _ ∙ f.same_length ∙ length-claimed ∙ v.all_blocks;
        address_space = v.address_space;
        all_logical = length-set s.ltp_mapping l _ ∙ v.all_logical;
        logical_space = v.logical_space;
        each =
            place-Each s.pages_per_block l b claimed s.ltp_mapping bs small claimed-Each
              claimed-Consistent f at_block space;
        consistent =
            Moves-Consistent s.pages_per_block s.blocks _ s.ltp_mapping l b (head_of s b)
              (omega (arith, v.all_logical, v.logical_space)) entry room v.consistent moves;
        live = live;
        word = omega arith;
      }

      after-Writes : Writes l b s (after bs)
      after-Writes = record {
        shape = record {
          pages_per_block = refl;
          block_count = refl;
          logical_pages = refl;
          write_buffer_size = refl;
        };
        valid = after-IsValid;
        stored = get_or-set_self s.ltp_mapping l _ unused entry;
        kept = λ k h. get_or-set_ne s.ltp_mapping l k _ unused h;
        head =
            place-head s.pages_per_block l b claimed s.ltp_mapping bs small claimed-Each
              claimed-Consistent f at_block space
            ∙ ap (λ h. h + 1) (claimed_heads b);
        heads = λ d h.
            place-heads s.pages_per_block l b claimed s.ltp_mapping bs small claimed-Each
              claimed-Consistent f at_block space d h
            ∙ claimed_heads d;
        moves = moves;
        written = refl;
      }

      place-after : place l b (record s { blocks = bs }) ≡ ok (after bs)
      place-after =
          place-ok s.pages_per_block l b claimed s.ltp_mapping bs small claimed-Each
            claimed-Consistent f at_block space (record s { blocks = bs }) refl refl
            (rw length-claimed (rw v.all_blocks v.address_space))
          ∙ rw (claimed_heads b)

  small_page : l < incache
  small_page = omega (arith, v.logical_space, logical)

  claimed_inside : b < length claimed
  claimed_inside = omega (arith, length-claimed, inside)

  claimed_room : (nth_block claimed b).write_pos < s.pages_per_block
  claimed_room = omega (arith, claimed_heads b, room)

  claimed_space : length claimed * s.pages_per_block ≤ incache
  claimed_space = rw (length-claimed, v.all_blocks) v.address_space

  -- The write with its two look-ups done.
  write-steps : write_page_without_caching l b group s ≡ (
      (if is_address (mapped s.ltp_mapping l)
        then free_page (mapped s.ltp_mapping l) (record s { blocks = claimed })
        else ok (record s { blocks = claimed }))
      >>= place l b)
  unfolding write_page_without_caching
  write-steps = rw (
    fetch-in Fault.undefined_access s.blocks b no_block inside,
    fetch-in Fault.out_of_range s.ltp_mapping l unused (omega (arith, v.all_logical)),
  )

  -- On a valid SSD a write of a logical page to a block with room never throws, whatever the page had
  -- before. It stores the page at the head of the block, moves no other page, and keeps the SSD valid.
  pub write_page_without_caching-Writes :
      (s' : Ssd) × (write_page_without_caching l b group s ≡ ok s') × Writes l b s s'
  write_page_without_caching-Writes = elim (Bool-cases (is_address (mapped s.ltp_mapping l))) [
    | inl is ↦
        let f =
          mapped-Frees s.pages_per_block l claimed s.ltp_mapping claimed_space small_page
            claimed-Each claimed-Consistent is in
        (
          after _,
          rw
              (
                write-steps,
                is,
                free_page-ok s.pages_per_block l claimed s.ltp_mapping claimed_space small_page
                    claimed-Each claimed-Consistent is (record s { blocks = claimed }) refl refl,
              )
              (place-after _ f small_page claimed_inside claimed_room),
          after-Writes _ f small_page claimed_inside claimed_room,
        )
    | inr un ↦
        let f =
          unmapped-Frees s.pages_per_block l claimed s.ltp_mapping claimed_space small_page
            claimed-Each claimed-Consistent un in
        (
          after _,
          rw (write-steps, un) (place-after _ f small_page claimed_inside claimed_room),
          after-Writes _ f small_page claimed_inside claimed_room,
        )
  ]

  write_page-unbuffered :
      s.write_buffer_size ≡ 0 → write_page l b group s ≡ write_page_without_caching l b group s
  unfolding write_page
  write_page-unbuffered unbuffered = simp unbuffered

  -- The buffer has size 0 in every SSD that the constructor makes: a page is written at once.
  pub write_page-Writes :
      s.write_buffer_size ≡ 0 → (s' : Ssd) × (write_page l b group s ≡ ok s') × Writes l b s s'
  write_page-Writes unbuffered =
      rw (write_page-unbuffered unbuffered) write_page_without_caching-Writes
