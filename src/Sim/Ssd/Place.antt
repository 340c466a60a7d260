-- ===== src/Sim/Ssd/Place.antt =====
-- How a page enters the block that it is written to: the second half of
-- SSD::writePageWithoutCaching of sim/SSD.hpp.
use ssdiq.Prelude.{
  ℕ, ◌+◌, ◌*◌, ◌≤◌, ◌<◌, ◌≡◌, ◌≢◌, sym, ap, ◌∙◌, ◌⊎◌, inl, inr, List, arith, length, get_or, set,
  get_or-set_self, get_or-set_ne, ℕ_discrete, ok, Fault, fetch-in, add64, mul64,
}
use ssdiq.Sim.Block.{Block, unused, incache}
use ssdiq.Sim.Block.Valid as BlockValid
use ssdiq.Sim.Block.Valid.{cleared, written}
use ssdiq.Sim.Ssd.{Ssd, bump, place}
use ssdiq.Sim.Ssd.Pages.{nth_block, no_block, page_at, page_at-set_self, page_at-set_ne, address-lt}
use ssdiq.Sim.Ssd.Consistent.{Consistent, Moves}
use ssdiq.Sim.Ssd.Valid.{Each, Each-set, IsPlaced, sum_valid, sum_valid-set}
use ssdiq.Sim.Ssd.Free.{Frees}

module _ (n l bid : ℕ) (bs : List Block) (ltp : List ℕ) (bs' : List Block) (small : l < incache)
    (e : Each n bs) (c : Consistent n bs ltp) (f : Frees n l bs ltp bs') (inside : bid < length bs)
    (room : (nth_block bs bid).write_pos < n) where
  abbrev target : Block
  target = nth_block bs' bid

  abbrev head : ℕ
  head = (nth_block bs bid).write_pos

  inside' : bid < length bs'
  inside' = omega (arith, f.same_length)

  own : IsPlaced n bid target
  own = f.each bid inside'

  same_head : target.write_pos ≡ head
  same_head = f.heads bid

  room' : target.write_pos < target.pages_per_block
  room' = omega (arith, same_head, own.same_size)

  stored : List Block
  stored = set bs' bid (written l target)

  at_target : (q : ℕ) → page_at stored bid q ≡ get_or (set target.ptl target.write_pos l) q unused
  unfolding stored
  at_target q = page_at-set_self bs' bid q _ inside'

  stored_at : page_at stored bid head ≡ l
  stored_at =
      ap (λ q. page_at stored bid q) (sym same_head)
      ∙ at_target target.write_pos
      ∙ get_or-set_self target.ptl target.write_pos l unused (omega (arith, room', own.valid.sized))

  stored_ne : (d q : ℕ) → ¬ ((bid ≡ d) × (head ≡ q)) → page_at stored d q ≡ page_at bs' d q
  unfolding stored
  stored_ne d q h = elim (ℕ_discrete bid d) [
    | no other ↦ page_at-set_ne bs' bid d q _ other
    | yes same ↦
        ap (λ k. page_at stored k q) (sym same)
        ∙ at_target q
        ∙ get_or-set_ne target.ptl target.write_pos q l unused (λ k. h (same, sym same_head ∙ k))
        ∙ ap (λ k. page_at bs' k q) same
  ]

  at_head? : (d q : ℕ) → ((bid ≡ d) × (head ≡ q)) ⊎ (¬ ((bid ≡ d) × (head ≡ q)))
  at_head? d q = elim (ℕ_discrete bid d) [
    | no other ↦ inr (λ k. other k.0)
    | yes same ↦ elim (ℕ_discrete head q) [ yes k ↦ inl (same, k) | no k ↦ inr (λ m. k m.1) ]
  ]

  -- The position at the head of the block was free.
  head_free : page_at bs bid head ≡ unused
  head_free = (e bid inside).valid.clean head (omega arith)

  pub place-Moves : Moves n l bid head bs (set bs' bid (written l target))
  unfolding stored
  place-Moves = record {
    arrived = stored_at;
    others = λ d q. elim (at_head? d q) [
      | inl k ↦ inl (sym k.0, sym k.1)
      | inr k ↦ elim (f.pages d q) [
        | inl gone ↦ inr (inl (stored_ne d q k ∙ gone))
        | inr kept ↦ inr (inr (stored_ne d q k ∙ kept.0, kept.1))
      ]
    ];
    stays = λ d q u v. elim (at_head? d q) [
      | inl k ↦ absurd (u (rw (← k.0, ← k.1) head_free))
      | inr k ↦ stored_ne d q k ∙ f.stays d q u v
    ];
  }

  stored-IsPlaced : IsPlaced n bid (written l target)
  stored-IsPlaced = record {
    valid = BlockValid.written-IsValid l target (omega arith) own.valid room';
    same_size = own.same_size;
    own_id = own.own_id;
  }

  pub place-Each : Each n (set bs' bid (written l target))
  place-Each = Each-set n bid bs' (written l target) stored-IsPlaced f.each

  pub place-total : sum_valid (set bs' bid (written l target)) ≡ sum_valid bs' + 1
  place-total = omega (
    arith,
    sum_valid-set bs' bid (written l target) inside',
    BlockValid.valid_cnt-le-write_pos target own.valid,
    own.valid.word,
    room',
  )

  pub place-head : (nth_block (set bs' bid (written l target)) bid).write_pos ≡ head + 1
  place-head =
      ap (λ y. y.write_pos) (get_or-set_self bs' bid (written l target) no_block inside')
      ∙ omega (arith, same_head, own.valid.word, room')

  pub place-heads :
      (d : ℕ)
      → bid ≢ d
      → (nth_block (set bs' bid (written l target)) d).write_pos ≡ (nth_block bs d).write_pos
  place-heads d h =
      ap (λ y. y.write_pos) (get_or-set_ne bs' bid d (written l target) no_block h) ∙ f.heads d

  -- `block.write(logPage)` succeeds at the head, and the mapping gets the address of the head.
  pub place-ok :
      (s : Ssd)
      → s.blocks ≡ bs'
      → s.pages_per_block ≡ n
      → length bs * n ≤ incache
      → place l bid s
        ≡ ok (record s {
          blocks = set bs' bid (written l target);
          ltp_mapping = set s.ltp_mapping l (bid * n + head);
          mapping_updated_cnt = bump l s.mapping_updated_cnt;
          phys_writes = add64 s.phys_writes 1;
        })
  unfolding place
  place-ok s eb en space = rw (
    eb,
    fetch-in Fault.undefined_access bs' bid no_block inside',
    BlockValid.write-room l target own.valid room',
    en,
    own.own_id,
    same_head,
    address,
  )
    where
      address : add64 (mul64 bid n) head ≡ bid * n + head
      address = omega (arith, address-lt n (length bs) bid head inside room)
