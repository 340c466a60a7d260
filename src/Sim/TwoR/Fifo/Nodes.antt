-- ===== src/Sim/TwoR/Fifo/Nodes.antt =====
-- The nodes of the queue of the FIFO policy of sim/TwoR.hpp, and the iterators at them.
use ssdiq.Prelude.{
  ℕ, ◌+◌, ◌<◌, ◌≡◌, refl, sym, ap, ◌∙◌, inl, inr, true, false, Bool, ◌||◌, List, [], ◌∷◌, ◌++◌,
  Option, none, some, ok, arith, ◌==◌, ==→ne, ==→eq, ==-refl, ne→==, if◌then◌else◌, Bool-cases, All,
}
use ssdiq.Sim.Ssd.{Ssd}
use ssdiq.Sim.Block.{can_write}
use ssdiq.Sim.Ssd.Pages.{nth_block}
use ssdiq.Sim.TwoR.{TwoR, Node, Iterator}
use ssdiq.Sim.TwoR.Fifo.{begin, advance, insert_before, erase_node, find_block}

-- The nodes have the numbers that were given out.
abbrev pub Numbered : ℕ → List Node → Type 0
Numbered next ns = All (λ n. n.node < next) ns

unfoldable pub has_node : ℕ → List Node → Bool
has_node i [] = false
has_node i (n ∷ ns) = (n.node == i) || has_node i ns

-- No number is given twice.
unfoldable pub AreDistinct : List Node → Type 0
AreDistinct [] = Unit
AreDistinct (n ∷ ns) = (has_node n.node ns ≡ false) × AreDistinct ns

-- An iterator at the end, or at a node of the queue.
abbrev pub Points : Iterator → List Node → Type 0
Points none ns = Unit
Points (some i) ns = has_node i ns ≡ true

-- The cold position is the end of the queue, and the scan is at a node or at the end.
pub record AtEnd (t : TwoR) : Type 0 where
  pub numbered : Numbered t.next_node t.fifo_list
  pub distinct : AreDistinct t.fifo_list
  pub scan : Points t.cur_scan t.fifo_list
  pub cold_end : t.cur_cold_blk_ptr ≡ none

-- The blocks in the order of the queue, and the queue without the first entry for a block.
unfoldable pub blocks_of : List Node → List ℕ
blocks_of [] = []
blocks_of (n ∷ ns) = n.block ∷ blocks_of ns

unfoldable pub remove_first : ℕ → List ℕ → List ℕ
remove_first b [] = []
remove_first b (c ∷ cs) = let rest = remove_first b cs in if c == b then cs else c ∷ rest

module _ (ssd : Ssd) where
  -- The victims with room for a page, and those without.
  abbrev pub freed : ℕ → List ℕ
  freed v = if can_write (nth_block ssd.blocks v) then v ∷ [] else []

  abbrev pub cooled : ℕ → List ℕ
  cooled v = if can_write (nth_block ssd.blocks v) then [] else v ∷ []

  unfoldable pub all_freed : List ℕ → List ℕ
  all_freed [] = []
  all_freed (v ∷ vs) = freed v ++ all_freed vs

  unfoldable pub all_cooled : List ℕ → List ℕ
  all_cooled [] = []
  all_cooled (v ∷ vs) = cooled v ++ all_cooled vs

  -- A victim without room goes to the end of the queue; then its first entry leaves the queue.
  unfoldable pub requeued : List ℕ → List ℕ → List ℕ
  requeued [] queue = queue
  requeued (v ∷ vs) queue = requeued vs (remove_first v (queue ++ cooled v))

pub insert-end : (x : Node) (ns : List Node) → insert_before none x ns ≡ ns ++ (x ∷ [])
unfolding insert_before
insert-end x [] = refl
insert-end x (n ∷ ns) = ap (λ t. n ∷ t) (insert-end x ns)

-- The node at the end of the queue is followed by no other.
pub advance-end :
    (x : Node) (ns : List Node) → Numbered x.node ns → advance x.node (ns ++ (x ∷ [])) ≡ ok none
unfolding advance
advance-end x [] h = rw (==-refl x.node) refl
advance-end x (n ∷ ns) h = rw (ne→== n.node x.node (omega (arith, h.0))) (advance-end x ns h.1)

Numbered-more : (k : ℕ) (ns : List Node) → Numbered k ns → Numbered (k + 1) ns
Numbered-more k [] h = tt
Numbered-more k (n ∷ ns) h = (omega (arith, h.0), Numbered-more k ns h.1)

pub Numbered-end :
    (k : ℕ) (x : Node) (ns : List Node)
    → x.node ≡ k
    → Numbered k ns
    → Numbered (k + 1) (ns ++ (x ∷ []))
Numbered-end k x [] e h = (omega (arith, e), tt)
Numbered-end k x (n ∷ ns) e h = (omega (arith, h.0), Numbered-end k x ns e h.1)

-- Nodes that are looked for after one is added at the end, or one is erased.
has_node-end :
    (i : ℕ) (x : Node) (ns : List Node)
    → has_node i (ns ++ (x ∷ [])) ≡ (has_node i ns || (x.node == i))
unfolding has_node
has_node-end i x [] = elim (Bool-cases (x.node == i)) [ inl e ↦ rw e refl | inr e ↦ rw e refl ]
has_node-end i x (n ∷ ns) = elim (Bool-cases (n.node == i)) [
  | inl e ↦ rw e refl
  | inr e ↦ rw e (has_node-end i x ns)
]

Numbered-absent : (k : ℕ) (ns : List Node) → Numbered k ns → has_node k ns ≡ false
unfolding has_node
Numbered-absent k [] h = refl
Numbered-absent k (n ∷ ns) h = rw (ne→== n.node k (omega (arith, h.0))) (Numbered-absent k ns h.1)

pub AreDistinct-end :
    (x : Node) (ns : List Node) → Numbered x.node ns → AreDistinct ns → AreDistinct (ns ++ (x ∷ []))
unfolding AreDistinct has_node
AreDistinct-end x [] h d = (refl, tt)
AreDistinct-end x (n ∷ ns) h d = (
  rw (has_node-end n.node x ns, d.0, ne→== x.node n.node (omega (arith, h.0))) refl,
  AreDistinct-end x ns h.1 d.1,
)

pub has_node-erase_ne :
    (i j : ℕ) (ns : List Node) → (j == i) ≡ false → has_node i (erase_node j ns) ≡ has_node i ns
unfolding has_node erase_node
has_node-erase_ne i j [] h = refl
has_node-erase_ne i j (n ∷ ns) h = elim (Bool-cases (n.node == j)) [
  | inl e ↦ rw e (sym (ap (λ m. (m == i) || has_node i ns) (==→eq n.node j e) ∙ rw h refl))
  | inr e ↦ rw e (ap (λ b. (n.node == i) || b) (has_node-erase_ne i j ns h))
]

has_node-erase :
    (i j : ℕ) (ns : List Node) → has_node i ns ≡ false → has_node i (erase_node j ns) ≡ false
unfolding has_node erase_node
has_node-erase i j [] h = refl
has_node-erase i j (n ∷ ns) h = elim (Bool-cases (n.node == i)) [
  | inl e ↦ absurd (from (rw e at h))
  | inr e ↦ elim (Bool-cases (n.node == j)) [
    | inl f ↦ rw f (rw e at h)
    | inr f ↦ rw (f, e) (has_node-erase i j ns (rw e at h))
  ]
]
  where
    from : ¬ (true ≡ false)
    from e = cc

pub AreDistinct-erase : (j : ℕ) (ns : List Node) → AreDistinct ns → AreDistinct (erase_node j ns)
unfolding AreDistinct erase_node
AreDistinct-erase j [] d = tt
AreDistinct-erase j (n ∷ ns) d = elim (Bool-cases (n.node == j)) [
  | inl e ↦ rw e d.1
  | inr e ↦ rw e (has_node-erase n.node j ns d.0, AreDistinct-erase j ns d.1)
]

Points-begin : (ns : List Node) → Points (begin ns) ns
unfolding has_node
Points-begin [] = tt
Points-begin (n ∷ ns) = rw (==-refl n.node) refl

Points-behind : (it : Iterator) (n : Node) (ns : List Node) → Points it ns → Points it (n ∷ ns)
unfolding has_node
Points-behind none n ns h = tt
Points-behind (some i) n ns h = elim (Bool-cases (n.node == i)) [
  | inl e ↦ rw e refl
  | inr e ↦ rw e h
]

pub Points-end :
    (it : Iterator) (x : Node) (ns : List Node) → Points it ns → Points it (ns ++ (x ∷ []))
Points-end none x ns h = tt
Points-end (some i) x ns h = rw (has_node-end i x ns, h) refl

pub Numbered-erase : (k i : ℕ) (ns : List Node) → Numbered k ns → Numbered k (erase_node i ns)
unfolding erase_node
Numbered-erase k i [] h = tt
Numbered-erase k i (n ∷ ns) h = elim (Bool-cases (n.node == i)) [
  | inl e ↦ rw e h.1
  | inr e ↦ rw e (h.0, Numbered-erase k i ns h.1)
]

clash : (j k : ℕ) → (j == k) ≡ false → ¬ (some j ≡ some k)
clash j k e h = ==→ne j k e (ap (value j) h)
  where
    value : ℕ → Option ℕ → ℕ
    value d none = d
    value d (some a) = a

-- What is known of the node that holds a block: the iterator after it points into the queue that it has
-- left.
pub record Leaves (b i : ℕ) (ns : List Node) : Type 0 where
  pub after : Iterator
  pub advanced : advance i ns ≡ ok after
  pub points : Points after (erase_node i ns)

pub find-Leaves : (b : ℕ) (ns : List Node) (i : ℕ) → find_block b ns ≡ some i → Leaves b i ns
unfolding find_block advance erase_node
find-Leaves b [] i h = cc
find-Leaves b (n ∷ ns) i h = elim (Bool-cases (n.node == i)) [
  | inl e ↦ record { after = begin ns; advanced = rw e refl; points = rw e (Points-begin ns) }
  | inr e ↦ elim (Bool-cases (n.block == b)) [
    | inl f ↦ absurd (clash n.node i e (rw f at h))
    | inr f ↦
        let r = find-Leaves b ns i (rw f at h) in
        record {
          after = r.after;
          advanced = rw e r.advanced;
          points = rw e (Points-behind r.after n (erase_node i ns) r.points);
        }
  ]
]

find-has_node : (b : ℕ) (ns : List Node) (i : ℕ) → find_block b ns ≡ some i → has_node i ns ≡ true
unfolding find_block has_node
find-has_node b [] i h = cc
find-has_node b (n ∷ ns) i h = elim (Bool-cases (n.node == i)) [
  | inl e ↦ rw e refl
  | inr e ↦ elim (Bool-cases (n.block == b)) [
    | inl f ↦ absurd (clash n.node i e (rw f at h))
    | inr f ↦ rw e (find-has_node b ns i (rw f at h))
  ]
]

-- The node that is found is the one that is erased, since no other has its number.
pub erase-remove_first :
    (b : ℕ) (ns : List Node) (i : ℕ)
    → AreDistinct ns
    → find_block b ns ≡ some i
    → blocks_of (erase_node i ns) ≡ remove_first b (blocks_of ns)
unfolding find_block erase_node blocks_of remove_first AreDistinct
erase-remove_first b [] i d h = cc
erase-remove_first b (n ∷ ns) i d h = elim (Bool-cases (n.block == b)) [
  | inl f ↦ elim (Bool-cases (n.node == i)) [
    | inl e ↦ rw (f, e) refl
    | inr e ↦ absurd (clash n.node i e (rw f at h))
  ]
  | inr f ↦
      let g = rw f at h in
      elim (Bool-cases (n.node == i)) [
        | inl e ↦ absurd (
            from (
              sym (find-has_node b ns i g)
              ∙ ap (λ m. has_node m ns) (sym (==→eq n.node i e))
              ∙ d.0))
        | inr e ↦ rw (f, e) (ap (λ cs. n.block ∷ cs) (erase-remove_first b ns i d.1 g))
      ]
]
  where
    from : ¬ (true ≡ false)
    from e = cc

pub absent-remove_first :
    (b : ℕ) (ns : List Node) → find_block b ns ≡ none → remove_first b (blocks_of ns) ≡ blocks_of ns
unfolding find_block blocks_of remove_first
absent-remove_first b [] h = refl
absent-remove_first b (n ∷ ns) h = elim (Bool-cases (n.block == b)) [
  | inl f ↦ absurd (from n.node (rw f at h))
  | inr f ↦ rw f (ap (λ cs. n.block ∷ cs) (absent-remove_first b ns (rw f at h)))
]
  where
    from : (j : ℕ) → ¬ (some j ≡ none)
    from j e = cc

pub blocks_of-end :
    (x : Node) (ns : List Node) → blocks_of (ns ++ (x ∷ [])) ≡ blocks_of ns ++ (x.block ∷ [])
unfolding blocks_of
blocks_of-end x [] = refl
blocks_of-end x (n ∷ ns) = ap (λ cs. n.block ∷ cs) (blocks_of-end x ns)
