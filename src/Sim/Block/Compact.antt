-- ===== src/Sim/Block/Compact.antt =====
-- SSD::Block::compactNoMappingUpdate and SSD::Block::erase of sim/SSD.hpp: what they leave.
use mathlib.Core.List.{append-nil, append_assoc}
use ssdiq.Prelude.{
  ℕ, zero, suc, ◌+◌, ◌-◌, ◌∙◌, sym, ◌^◌, ◌≤◌, ◌<◌, ◌≡◌, ◌≢◌, refl, ap, true, false, List, [], ◌∷◌,
  ◌++◌, ◌==◌, if◌then◌else◌, arith, length, get_or, set, to_int64, minus_one, replicate,
  length-append, length-replicate, get_or-replicate, add64, ne→==, ℕ_discrete,
}
use ssdiq.Sim.Block.{Block, unused, compact_loop, compact_no_mapping_update, fill_unused, erase}
use ssdiq.Sim.Block.Valid.{IsValid, count_used, count_used-le, count_used-replicate}

-- The pages that a page table holds, in order: the reference for the compaction.
unfoldable pub used : List ℕ → List ℕ
used [] = []
used (x ∷ xs) = let rest = used xs in if x == unused then rest else x ∷ rest

pub length-used : (xs : List ℕ) → length (used xs) ≡ count_used xs
unfolding used count_used
length-used [] = refl
length-used (x ∷ xs) = ground (arith, length-used xs)

get_or-middle :
    (pre mid rest : List ℕ) (x : ℕ)
    → get_or (pre ++ (mid ++ x ∷ rest)) (length pre + length mid) unused ≡ x
get_or-middle [] [] rest x = refl
get_or-middle [] (m ∷ mid) rest x =
    let e : 0 + suc (length mid) ≡ suc (0 + length mid) = omega arith in
    rw e (get_or-middle [] mid rest x)
get_or-middle (y ∷ pre) mid rest x =
    let e : suc (length pre) + length mid ≡ suc (length pre + length mid) = omega arith in
    rw e (get_or-middle pre mid rest x)

-- A page is moved to the front of the gap, which slides on behind it.
slide : ℕ → List ℕ → List ℕ
slide x [] = []
slide x (m ∷ mid) = mid ++ x ∷ []

length-slide : (x : ℕ) (mid : List ℕ) → length (slide x mid) ≡ length mid
unfolding slide
length-slide x [] = refl
length-slide x (m ∷ mid) = omega (arith, length-append mid (x ∷ []))

set-slide :
    (pre mid rest : List ℕ) (x : ℕ)
    → set (pre ++ (mid ++ x ∷ rest)) (length pre) x ≡ (pre ++ x ∷ []) ++ (slide x mid ++ rest)
unfolding slide
set-slide [] [] rest x = refl
set-slide [] (m ∷ mid) rest x = ap (λ t. x ∷ t) (sym (append_assoc mid (x ∷ []) rest))
set-slide (y ∷ pre) mid rest x = ap (λ t. y ∷ t) (set-slide pre mid rest x)

-- What the loop computes from a table `pre ++ mid ++ rest`, `pre` being compacted already and `mid`
-- being free.
record Compacts (pre mid rest : List ℕ) (out : ℕ × List ℕ) : Type 0 where
  junk : List ℕ
  result : out ≡ (length (pre ++ used rest), (pre ++ used rest) ++ junk)
  size : length (pre ++ used rest) + length junk ≡ length pre + length mid + length rest

compact_loop-free :
    (n p w : ℕ) (ptl : List ℕ)
    → get_or ptl p unused ≡ unused
    → compact_loop (suc n) p w ptl ≡ compact_loop n (p + 1) w ptl
unfolding compact_loop
compact_loop-free n p w ptl e = rw e

compact_loop-page :
    (n p w x : ℕ) (ptl : List ℕ)
    → get_or ptl p unused ≡ x
    → x ≢ unused
    → compact_loop (suc n) p w ptl ≡ compact_loop n (p + 1) (add64 w 1) (set ptl w x)
unfolding compact_loop
compact_loop-page n p w x ptl e u = rw (e, ne→== _ _ u)

pub used-free : (x : ℕ) (xs : List ℕ) → x ≡ unused → used (x ∷ xs) ≡ used xs
unfolding used
used-free x xs e = rw e

pub used-page : (x : ℕ) (xs : List ℕ) → x ≢ unused → used (x ∷ xs) ≡ x ∷ used xs
unfolding used
used-page x xs u = rw (ne→== _ _ u)

compact_loop-done :
    (pre mid : List ℕ) (p w : ℕ)
    → w ≡ length pre
    → Compacts pre mid [] (compact_loop 0 p w (pre ++ (mid ++ [])))
unfolding compact_loop used
compact_loop-done pre mid p w e = record {
  junk = mid;
  result = rw (e, append-nil mid, append-nil pre);
  size = rw (append-nil pre) (omega arith);
}

compact_loop-Compacts :
    (rest pre mid : List ℕ) (p w : ℕ)
    → p ≡ length pre + length mid
    → w ≡ length pre
    → length pre + length mid + length rest < 2 ^ 64
    → Compacts pre mid rest (compact_loop (length rest) p w (pre ++ (mid ++ rest)))
compact_loop-Compacts [] pre mid p w ep ew h = compact_loop-done pre mid p w ew
compact_loop-Compacts (x ∷ rest) pre mid p w ep ew h = elim (ℕ_discrete x unused) [
  | yes free ↦
      rw
        (
          compact_loop-free (length rest) p w (pre ++ (mid ++ x ∷ rest))
              (rw ep (get_or-middle pre mid rest x ∙ free)),
          ← append_assoc mid (x ∷ []) rest,
        )
        (skip free (
          compact_loop-Compacts rest pre (mid ++ x ∷ []) (p + 1) w
            (omega (arith, length-append mid (x ∷ []))) ew
            (omega (arith, length-append mid (x ∷ [])))))
  | no page ↦
      rw
        (
          compact_loop-page (length rest) p w x (pre ++ (mid ++ x ∷ rest))
              (rw ep (get_or-middle pre mid rest x)) page,
          ew,
          set-slide pre mid rest x,
        )
        (move page (
          compact_loop-Compacts rest (pre ++ x ∷ []) (slide x mid) (p + 1) (add64 (length pre) 1)
            (omega (arith, length-append pre (x ∷ []), length-slide x mid))
            (omega (arith, length-append pre (x ∷ [])))
            (omega (arith, length-append pre (x ∷ []), length-slide x mid))))
]
  where
    skip :
        {out : ℕ × List ℕ}
        → x ≡ unused
        → Compacts pre (mid ++ x ∷ []) rest out
        → Compacts pre mid (x ∷ rest) out
    skip free c = record {
      junk = c.junk;
      result = rw (used-free x rest free) c.result;
      size = rw (used-free x rest free) (omega (arith, c.size, length-append mid (x ∷ [])));
    }

    move :
        {out : ℕ × List ℕ}
        → x ≢ unused
        → Compacts (pre ++ x ∷ []) (slide x mid) rest out
        → Compacts pre mid (x ∷ rest) out
    move page c = record {
      junk = c.junk;
      result = rw (used-page x rest page, ← append_assoc pre (x ∷ []) (used rest)) c.result;
      size =
          rw (used-page x rest page, ← append_assoc pre (x ∷ []) (used rest))
            (omega (arith, c.size, length-append pre (x ∷ []), length-slide x mid));
    }

fill_unused-append :
    (xs ys : List ℕ) → fill_unused (length xs) (xs ++ ys) ≡ xs ++ replicate (length ys) unused
unfolding fill_unused
fill_unused-append [] [] = refl
fill_unused-append [] (y ∷ ys) = ap (λ t. unused ∷ t) (fill_unused-append [] ys)
fill_unused-append (x ∷ xs) ys = ap (λ t. x ∷ t) (fill_unused-append xs ys)

-- The page table with its pages at the front, in their order, and nothing behind them.
abbrev pub packed : ℕ → List ℕ → List ℕ
packed n ptl = used ptl ++ replicate (n - length (used ptl)) unused

-- The block that the compaction leaves.
abbrev pub compacted : ℕ → Block → Block
compacted erase_age b = record b {
  write_pos = length (used b.ptl);
  valid_cnt = length (used b.ptl);
  ptl = packed b.pages_per_block b.ptl;
  erase_count = add64 b.erase_count 1;
  gc_age = to_int64 erase_age;
  written_by_gc = true;
}

compact_loop-packed :
    (n : ℕ) (ptl : List ℕ)
    → length ptl ≡ n
    → n < 2 ^ 64
    → let (w, moved) = compact_loop n 0 0 ptl in
      (w ≡ length (used ptl)) × (fill_unused w moved ≡ packed n ptl)
compact_loop-packed n ptl e h = packs (compact_loop-Compacts ptl [] [] 0 0 refl refl (omega arith))
  where
    packs :
        Compacts [] [] ptl (compact_loop (length ptl) 0 0 ptl)
        → let (w, moved) = compact_loop n 0 0 ptl in
          (w ≡ length (used ptl)) × (fill_unused w moved ≡ packed n ptl)
    packs c =
        let k : length c.junk ≡ n - length (used ptl) = omega (arith, c.size, e) in
        let r = ap (λ m. compact_loop m 0 0 ptl) (sym e) ∙ c.result in
        rw r (refl, rw (fill_unused-append (used ptl) c.junk, k))

-- `compactNoMappingUpdate` moves the valid pages of a valid block to its front, in their order, leaves the
-- rest unused, sets both counters to their number, and counts as an erase.
pub compact_no_mapping_update-eq :
    (erase_age : ℕ) (b : Block)
    → IsValid b
    → compact_no_mapping_update erase_age b ≡ (compacted erase_age b, add64 erase_age 1)
unfolding compact_no_mapping_update
compact_no_mapping_update-eq erase_age b v =
    let packs = compact_loop-packed b.pages_per_block b.ptl v.sized v.word in rw (packs.1, packs.0)

get_or-append_left :
    (xs ys : List ℕ) (i : ℕ) → i < length xs → get_or (xs ++ ys) i unused ≡ get_or xs i unused
get_or-append_left [] ys i h = absurd (omega arith)
get_or-append_left (x ∷ xs) ys zero h = refl
get_or-append_left (x ∷ xs) ys (suc i) h = get_or-append_left xs ys i (omega arith)

-- Behind its pages a packed table holds nothing.
pub get_or-packed_high :
    (xs : List ℕ) (n i : ℕ) → length xs ≤ i → get_or (xs ++ replicate n unused) i unused ≡ unused
get_or-packed_high [] n i h = get_or-replicate n i unused
get_or-packed_high (x ∷ xs) n zero h = absurd (omega arith)
get_or-packed_high (x ∷ xs) n (suc i) h = get_or-packed_high xs n i (omega arith)

-- At its front it holds the pages that were in use.
pub get_or-packed_low :
    (xs : List ℕ) (n i : ℕ)
    → i < length xs
    → get_or (xs ++ replicate n unused) i unused ≡ get_or xs i unused
get_or-packed_low xs n i h = get_or-append_left xs (replicate n unused) i h

count_used-packed :
    (xs : List ℕ) (n : ℕ) → count_used (used xs ++ replicate n unused) ≡ count_used xs
unfolding used count_used
count_used-packed [] zero = refl
count_used-packed [] (suc n) = omega (arith, count_used-packed [] n)
count_used-packed (x ∷ xs) n = ground (arith, count_used-packed xs n)

length-packed : (n : ℕ) (xs : List ℕ) → length xs ≡ n → length (packed n xs) ≡ n
length-packed n xs e = omega (
  arith,
  length-append (used xs) (replicate (n - length (used xs)) unused),
  length-replicate (n - length (used xs)) unused,
  length-used xs,
  count_used-le xs,
)

pub compacted-IsValid : (erase_age : ℕ) (b : Block) → IsValid b → IsValid (compacted erase_age b)
compacted-IsValid erase_age b v = record {
  sized = length-packed b.pages_per_block b.ptl v.sized;
  word = v.word;
  within = omega (arith, v.sized, length-used b.ptl, count_used-le b.ptl);
  counted =
      length-used b.ptl ∙ sym (count_used-packed b.ptl (b.pages_per_block - length (used b.ptl)));
  clean = λ i hi. get_or-packed_high (used b.ptl) _ i hi;
}

-- The compaction does not change how many pages are valid.
pub compacted-valid_cnt :
    (erase_age : ℕ) (b : Block) → IsValid b → (compacted erase_age b).valid_cnt ≡ b.valid_cnt
compacted-valid_cnt erase_age b v = length-used b.ptl ∙ sym v.counted

fill_unused-all : (xs : List ℕ) → fill_unused 0 xs ≡ replicate (length xs) unused
unfolding fill_unused
fill_unused-all [] = refl
fill_unused-all (x ∷ xs) = ap (λ t. unused ∷ t) (fill_unused-all xs)

-- The block that `erase` leaves.
abbrev pub erased : ℕ → Block → Block
erased erase_age b = record b {
  ptl = replicate b.pages_per_block unused;
  write_pos = 0;
  erase_count = add64 b.erase_count 1;
  gc_age = to_int64 erase_age;
  written_by_gc = false;
  valid_cnt = 0;
  group = minus_one;
}

pub erase-eq :
    (erase_age : ℕ) (b : Block)
    → IsValid b
    → erase erase_age b ≡ (erased erase_age b, add64 erase_age 1)
unfolding erase
erase-eq erase_age b v = rw (fill_unused-all b.ptl, v.sized)

pub erased-IsValid : (erase_age : ℕ) (b : Block) → IsValid b → IsValid (erased erase_age b)
erased-IsValid erase_age b v = record {
  sized = length-replicate b.pages_per_block unused;
  word = v.word;
  within = omega arith;
  counted = sym (count_used-replicate b.pages_per_block);
  clean = λ i hi. get_or-replicate b.pages_per_block i unused;
}
