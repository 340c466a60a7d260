-- ===== src/Sim/Block/Valid.antt =====
-- The counters of a block describe its page table, and each operation of sim/SSD.hpp keeps them so.
use ssdiq.Prelude.{
  ℕ, zero, suc, ◌+◌, ◌∙◌, sym, ◌^◌, ◌≤◌, ◌<◌, ◌≡◌, ◌≢◌, refl, ap, ◌⊎◌, inl, inr, List, [], ◌∷◌, ok,
  err, fetch-in, add64, sub64, ge→ltb, ◌==◌, if◌then◌else◌, arith, length, get_or, set, replicate,
  length-set, length-replicate, get_or-set_ne, get_or-replicate, ℕ_discrete, dec_lt, lt→ltb, ne→==,
  Fault,
}
use ssdiq.Sim.Block.{Block, unused, new_block, write, set_unused}

abbrev pub used_bit : ℕ → ℕ
used_bit x = if x == unused then 0 else 1

-- How many entries of a page table hold a logical page.
unfoldable pub count_used : List ℕ → ℕ
count_used [] = 0
count_used (x ∷ xs) = used_bit x + count_used xs

pub record IsValid (b : Block) : Type 0 where
  pub sized : length b.ptl ≡ b.pages_per_block
  pub word : b.pages_per_block < 2 ^ 64
  pub within : b.write_pos ≤ b.pages_per_block
  pub counted : b.valid_cnt ≡ count_used b.ptl
  pub clean : (i : ℕ) → b.write_pos ≤ i → get_or b.ptl i unused ≡ unused

pub count_used-le : (xs : List ℕ) → count_used xs ≤ length xs
unfolding count_used
count_used-le [] = omega arith
count_used-le (x ∷ xs) = ground (arith, count_used-le xs)

pub count_used-set :
    (xs : List ℕ) (i v : ℕ)
    → i < length xs
    → count_used (set xs i v) + used_bit (get_or xs i unused) ≡ count_used xs + used_bit v
unfolding count_used
count_used-set [] i v h = absurd (omega arith)
count_used-set (x ∷ xs) zero v h = omega arith
count_used-set (x ∷ xs) (suc i) v h = omega (arith, count_used-set xs i v (omega arith))

count_used-clean :
    (xs : List ℕ) (w : ℕ) → ((i : ℕ) → w ≤ i → get_or xs i unused ≡ unused) → count_used xs ≤ w
unfolding count_used
count_used-clean [] w h = omega arith
count_used-clean (x ∷ xs) zero h =
    let e : x ≡ unused = h 0 (omega arith) in
    rw e (omega (arith, count_used-clean xs 0 (λ i hi. h (suc i) (omega arith))))
count_used-clean (x ∷ xs) (suc w) h =
    ground (arith, count_used-clean xs w (λ i hi. h (suc i) (omega arith)))

-- No more pages are valid than have been written.
pub valid_cnt-le-write_pos : (b : Block) → IsValid b → b.valid_cnt ≤ b.write_pos
valid_cnt-le-write_pos b v = omega (arith, v.counted, count_used-clean b.ptl b.write_pos v.clean)

pub count_used-replicate : (n : ℕ) → count_used (replicate n unused) ≡ 0
unfolding count_used
count_used-replicate zero = refl
count_used-replicate (suc n) = omega (arith, count_used-replicate n)

pub new_block-IsValid : (n id : ℕ) → n < 2 ^ 64 → IsValid (new_block n id)
unfolding new_block
new_block-IsValid n id h = record {
  sized = length-replicate n unused;
  word = h;
  within = omega arith;
  counted = sym (count_used-replicate n);
  clean = λ i hi. get_or-replicate n i unused;
}

-- The block that `write` leaves.
abbrev pub written : ℕ → Block → Block
written l b = record b {
  ptl = set b.ptl b.write_pos l;
  valid_cnt = add64 b.valid_cnt 1;
  write_pos = add64 b.write_pos 1;
}

-- The block that `set_unused` leaves.
abbrev pub cleared : ℕ → Block → Block
cleared p b = record b { ptl = set b.ptl p unused; valid_cnt = sub64 b.valid_cnt 1 }

-- A valid block with room takes any page, at its write position.
pub write-room :
    (l : ℕ) (b : Block)
    → IsValid b
    → b.write_pos < b.pages_per_block
    → write l b ≡ ok (b.write_pos, written l b)
unfolding write
write-room l b v h = rw (
  lt→ltb _ _ h,
  fetch-in Fault.undefined_access b.ptl b.write_pos unused (omega (arith, v.sized)),
  v.clean b.write_pos (omega arith),
)

-- `ensure(canWrite())`.
pub write-full :
    (l : ℕ) (b : Block) → b.pages_per_block ≤ b.write_pos → write l b ≡ err Fault.ensure_failed
unfolding write
write-full l b h = rw (ge→ltb _ _ h)

pub set_unused-used :
    (p : ℕ) (b : Block)
    → p < length b.ptl
    → get_or b.ptl p unused ≢ unused
    → set_unused p b ≡ ok (cleared p b)
unfolding set_unused
set_unused-used p b h u = rw (fetch-in Fault.undefined_access b.ptl p unused h, ne→== _ _ u)

pub used_bit-used : (l : ℕ) → l ≢ unused → used_bit l ≡ 1
used_bit-used l h = ground arith

pub written-IsValid :
    (l : ℕ) (b : Block)
    → l ≢ unused
    → IsValid b
    → b.write_pos < b.pages_per_block
    → IsValid (written l b)
written-IsValid l b u v h = record {
  sized = length-set b.ptl b.write_pos l ∙ v.sized;
  word = v.word;
  within = omega (arith, v.word);
  counted = omega (
    arith,
    v.counted,
    v.word,
    v.sized,
    valid_cnt-le-write_pos b v,
    used_bit-used l u,
    ap used_bit (v.clean b.write_pos (omega arith)),
    count_used-set b.ptl b.write_pos l (omega (arith, v.sized)),
  );
  clean = λ i hi.
      get_or-set_ne b.ptl b.write_pos i l unused (omega (arith, v.word))
      ∙ v.clean i (omega (arith, v.word));
}

pub cleared-IsValid :
    (p : ℕ) (b : Block)
    → IsValid b
    → p < length b.ptl
    → get_or b.ptl p unused ≢ unused
    → IsValid (cleared p b)
cleared-IsValid p b v h u = record {
  sized = length-set b.ptl p unused ∙ v.sized;
  word = v.word;
  within = v.within;
  counted = omega (
    arith,
    v.counted,
    v.word,
    v.sized,
    count_used-le b.ptl,
    used_bit-used (get_or b.ptl p unused) u,
    count_used-set b.ptl p unused h,
  );
  clean = λ i hi. elim (ℕ_discrete p i) [
    | yes e ↦ absurd (u (rw e (v.clean i hi)))
    | no ne ↦ get_or-set_ne b.ptl p i unused unused ne ∙ v.clean i hi
  ];
}

-- A block with a page in use counts it.
pub valid_cnt-pos :
    (p : ℕ) (b : Block)
    → IsValid b
    → p < length b.ptl
    → get_or b.ptl p unused ≢ unused
    → (1 ≤ b.valid_cnt) × (b.valid_cnt < 2 ^ 64)
valid_cnt-pos p b v h u = omega (
  arith,
  v.counted,
  v.word,
  v.within,
  valid_cnt-le-write_pos b v,
  used_bit-used (get_or b.ptl p unused) u,
  count_used-set b.ptl p unused h,
)

-- On a valid block `write` either has room, stores the page at the write position and leaves a valid
-- block, or fails the check of `canWrite`.
pub write-cases :
    (l : ℕ) (b : Block)
    → l ≢ unused
    → IsValid b
    → ((b.write_pos < b.pages_per_block)
        × (write l b ≡ ok (b.write_pos, written l b))
        × IsValid (written l b))
      ⊎ ((b.write_pos ≡ b.pages_per_block) × (write l b ≡ err Fault.ensure_failed))
write-cases l b u v = elim (dec_lt b.write_pos b.pages_per_block) [
  | yes h ↦ inl (h, write-room l b v h, written-IsValid l b u v h)
  | no h ↦ inr (omega (arith, v.within), write-full l b (omega arith))
]

set_unused-unused :
    (p : ℕ) (b : Block)
    → p < length b.ptl
    → get_or b.ptl p unused ≡ unused
    → set_unused p b ≡ err Fault.ensure_failed
unfolding set_unused
set_unused-unused p b h u = rw (fetch-in Fault.undefined_access b.ptl p unused h, u)

-- At a position of a valid block `setUnused` either finds a page, removes it and leaves a valid block
-- with one valid page less, or finds none and fails its check.
pub set_unused-cases :
    (p : ℕ) (b : Block)
    → p < b.pages_per_block
    → IsValid b
    → ((get_or b.ptl p unused ≢ unused)
        × (set_unused p b ≡ ok (cleared p b))
        × IsValid (cleared p b)
        × ((cleared p b).valid_cnt + 1 ≡ b.valid_cnt))
      ⊎ ((get_or b.ptl p unused ≡ unused) × (set_unused p b ≡ err Fault.ensure_failed))
set_unused-cases p b h v = elim (ℕ_discrete (get_or b.ptl p unused) unused) [
  | yes e ↦ inr (e, set_unused-unused p b inside e)
  | no u ↦
      let some_page = valid_cnt-pos p b v inside u in
      inl
        (u, set_unused-used p b inside u, cleared-IsValid p b v inside u, omega (arith, some_page))
]
  where
    inside : p < length b.ptl
    inside = omega (arith, v.sized)
