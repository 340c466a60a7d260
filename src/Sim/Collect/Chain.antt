-- ===== src/Sim/Collect/Chain.antt =====
-- The loop of SSD::compactUntilFreeBlock of sim/SSD.hpp over a list of victims.
use ssdiq.Prelude.{
  ℕ, suc, ◌+◌, ◌*◌, ◌<◌, ◌≤◌, ◌≡◌, ◌≢◌, refl, sym, ap, ◌∙◌, ◌⊎◌, inl, inr, List, [], ◌∷◌, arith,
  length, ok, subst, In, All, Distinct, All-In, last_of, not,
}
use ssdiq.Sim.Block.{all_invalid}
use ssdiq.Sim.Block.Valid.{valid_cnt-le-write_pos}
use ssdiq.Sim.Ssd.{Ssd, compact_block}
use ssdiq.Sim.Ssd.Pages.{nth_block}
use ssdiq.Sim.Ssd.Valid.{IsValid}
use ssdiq.Sim.Ssd.Write.{SameShape-refl, head_of, valid_of}
use ssdiq.Sim.Ssd.Compact.{Compacts, compact_block-Compacts}
use ssdiq.Sim.Ssd.Erase.{Keeps, Keeps-trans}
use ssdiq.Sim.Collect.{move_valid_pages_to, compact_chain}
use ssdiq.Sim.Collect.Loop.{Moved}
use ssdiq.Sim.Collect.Move.{IsEmptied-valid_cnt, move_valid_pages_to-Moved}

-- The valid pages of the listed blocks.
unfoldable pub held : Ssd → List ℕ → ℕ
held s [] = 0
held s (b ∷ bs) = valid_of s b + held s bs

held-ext :
    (s s' : Ssd) (bs : List ℕ)
    → ((c : ℕ) → In c bs → valid_of s' c ≡ valid_of s c)
    → held s' bs ≡ held s bs
unfolding held
held-ext s s' [] h = refl
held-ext s s' (b ∷ bs) h = omega (arith, h b (inl refl), held-ext s s' bs (λ c k. h c (inr k)))

pub valid_of-le :
    (s : Ssd) (b : ℕ) → IsValid s → b < s.block_count → valid_of s b ≤ s.pages_per_block
valid_of-le s b v h =
    let own = v.each b (omega (arith, v.all_blocks)) in
    omega (
      arith,
      valid_cnt-le-write_pos (nth_block s.blocks b) own.valid,
      own.valid.within,
      own.same_size,
    )

held-le :
    (s : Ssd) (bs : List ℕ)
    → IsValid s
    → All (λ b. b < s.block_count) bs
    → held s bs ≤ length bs * s.pages_per_block
unfolding held
held-le s [] v h = omega arith
held-le s (b ∷ bs) v h = grind (arith, valid_of-le s b v h.0, held-le s bs v h.1)

-- One round: the destination is compacted and filled from the source.
pub record Round (dest source : ℕ) (s t : Ssd) : Type 0 where
  pub keeps : Keeps s t
  pub counts : (c : ℕ) → c < s.block_count → dest ≢ c → source ≢ c → valid_of t c ≡ valid_of s c
  pub heads : (c : ℕ) → dest ≢ c → head_of t c ≡ head_of s c
  pub rest :
      (valid_of t source + s.pages_per_block ≡ valid_of s source + valid_of s dest)
      ⊎ (valid_of t source ≡ 0)

module _ (dest source : ℕ) (s : Ssd) (apart : dest ≢ source) (v : IsValid s)
    (hd : dest < s.block_count) (hs : source < s.block_count) where
  round : (c t : Ssd) → Compacts dest s c → Moved source dest c t → Round dest source s t
  round c t p m = record {
    keeps = record {
      shape = record {
        pages_per_block = m.shape.pages_per_block ∙ p.shape.pages_per_block;
        block_count = m.shape.block_count ∙ p.shape.block_count;
        logical_pages = m.shape.logical_pages ∙ p.shape.logical_pages;
        write_buffer_size = m.shape.write_buffer_size ∙ p.shape.write_buffer_size;
      };
      valid = m.valid;
      same_pages = λ k. m.same_pages k ∙ p.same_pages k;
    };
    counts = λ b h kd ks.
        m.counts b (omega (arith, h, p.shape.block_count)) kd ks
        ∙ ap (λ y. y.valid_cnt) (p.others b kd);
    heads = λ b kd. m.heads b kd ∙ ap (λ y. y.write_pos) (p.others b kd);
    rest = elim m.outcome [
      | inl full ↦ inl (
          omega (
            arith, m.conserved, full, p.head, same_source, m.shape.pages_per_block,
            p.shape.pages_per_block,
          ))
      | inr empty ↦ inr (
          IsEmptied-valid_cnt t source m.valid
            (omega (arith, hs, m.shape.block_count, p.shape.block_count)) empty)
    ];
  }
    where
      same_source : valid_of c source ≡ valid_of s source
      same_source = ap (λ y. y.valid_cnt) (p.others source apart)

  round-ok :
      (c t : Ssd) (rest : List ℕ)
      → compact_block dest s ≡ ok c
      → move_valid_pages_to source dest c ≡ ok (t, not (all_invalid (nth_block t.blocks source)))
      → compact_chain dest (source ∷ rest) s ≡ compact_chain source rest t
  unfolding compact_chain
  round-ok c t rest ec em = rw (ec, em)

  pub chain-Round :
      (rest : List ℕ)
      → (t : Ssd) × (compact_chain dest (source ∷ rest) s ≡ compact_chain source rest t)
        × Round dest source s t
  chain-Round rest =
      let p = compact_block-Compacts dest s v hd in
      let m =
        move_valid_pages_to-Moved source dest p.0 apart p.2.valid
          (omega (arith, hs, p.2.shape.block_count)) (omega (arith, hd, p.2.shape.block_count)) in
      (m.0, round-ok p.0 m.0 rest p.1 m.1, round p.0 m.0 p.2 m.2)

Keeps-refl : (s : Ssd) → IsValid s → Keeps s s
Keeps-refl s v = record { shape = SameShape-refl s; valid = v; same_pages = λ k. refl }

All-cast : (n m : ℕ) (bs : List ℕ) → n ≡ m → All (λ b. b < n) bs → All (λ b. b < m) bs
All-cast n m bs e h = rw (sym e) h

-- What the lack of a block of valid pages becomes after a round.
lacking :
    (k n n' x y h y' h' : ℕ)
    → x + (y + h) ≤ suc k * n
    → h ≤ k * n
    → h' ≡ h
    → n' ≡ n
    → ((y' + n ≡ y + x) ⊎ (y' ≡ 0))
    → y' + h' ≤ k * n'
lacking k n n' x y h y' h' lack le e m (inl full) = rw (e, m) (grind arith)
lacking k n n' x y h y' h' lack le e m (inr empty) = rw (e, m, empty) (omega (arith, le))

-- If the victims lack a block of valid pages, the chain ends at an empty block: the last one.
pub chain-empties :
    (rest : List ℕ) (dest : ℕ) (s : Ssd)
    → IsValid s
    → All (λ b. b < s.block_count) (dest ∷ rest)
    → Distinct (dest ∷ rest)
    → valid_of s dest + held s rest ≤ length rest * s.pages_per_block
    → (t : Ssd) × (compact_chain dest rest s ≡ ok (t, last_of dest rest))
      × Keeps s t
      × (valid_of t (last_of dest rest) ≡ 0)
      × ((c : ℕ) → ¬ In c (dest ∷ rest) → head_of t c ≡ head_of s c)
unfolding compact_chain held
chain-empties [] dest s v a d lack = (s, refl, Keeps-refl s v, omega (arith, lack), λ c h. refl)
chain-empties (source ∷ rest) dest s v a d lack =
    let apart : dest ≢ source = λ e. d.0 (inl e) in
    let r = chain-Round dest source s apart v a.0 a.1.0 rest in
    let others : (c : ℕ) → In c rest → valid_of r.0 c ≡ valid_of s c = λ c k.
      r.2.counts c (All-In (λ b. b < s.block_count) rest c a.1.1 k)
        (λ e. d.0 (inr (subst (λ x. In x rest) (sym e) k)))
        (λ e. d.1.0 (subst (λ x. In x rest) (sym e) k)) in
    let same = held-ext s r.0 rest others in
    let ih =
      chain-empties rest source r.0 r.2.keeps.valid
        (All-cast s.block_count r.0.block_count (source ∷ rest) (sym r.2.keeps.shape.block_count)
          a.1)
        d.1
        (lacking (length rest) s.pages_per_block r.0.pages_per_block (valid_of s dest)
          (valid_of s source) (held s rest) (valid_of r.0 source) (held r.0 rest) lack
          (held-le s rest v a.1.1) same r.2.keeps.shape.pages_per_block r.2.rest) in
    (
      ih.0,
      r.1 ∙ ih.1,
      Keeps-trans s r.0 ih.0 r.2.keeps ih.2,
      ih.3,
      λ c h. ih.4 c (λ k. h (inr k)) ∙ r.2.heads c (λ e. h (inl (sym e))),
    )
