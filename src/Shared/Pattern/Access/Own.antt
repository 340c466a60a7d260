-- ===== src/Shared/Pattern/Access/Own.antt =====
-- The page that PatternGen of shared/PatternGen.hpp draws without zones, and its way through the shuffle
-- and the checks at the end of accessPatternGenerator.
use ssdiq.Prelude.{
  ℕ, ◌-◌, ◌%◌, ◌^◌, ◌<◌, ◌≤◌, ◌≡◌, refl, inl, inr, true, false, arith, ok, Result, Fault, lt→ltb,
  le→leb, ne→==, length, get_or, fetch-in, sub64, add64, Bool-cases,
}
use native.Mathlib.Nat.{mod-lt}
use ssdiq.Shared.Pattern.{Pattern, Numerics, Plain}
use ssdiq.Shared.Pattern.Access.{
  finish, beta_distribution, next_in_sequence, choose_plain, access_plain,
}

-- What the distributions promise: an integer between the bounds, a real that is not above its bound, if
-- this is positive, a rank between 1 and n, a beta sample of at most 1 for positive parameters, by which a
-- number that a `double` can hold is scaled to no larger one; and 0 added to x is x.
pub record IsLawful {D R : Type 0} (num : Numerics D R) : Type 0 where
  pub integer :
      (lo hi : ℕ) (r : R)
      → lo ≤ hi
      → (lo ≤ (num.uniform_int lo hi r).0) × ((num.uniform_int lo hi r).0 ≤ hi)
  pub real :
      (hi : D) (r : R)
      → num.less num.zero_real hi ≡ true
      → num.less hi (num.uniform_real hi r).0 ≡ false
  pub rank :
      (n : ℕ) (skew : D) (r : R)
      → 0 < n
      → (1 ≤ (num.zipf_sample n skew r).0) × ((num.zipf_sample n skew r).0 ≤ n)
  pub unit :
      (a b : D) (n : ℕ) (r : R)
      → num.less num.zero_real a ≡ true
      → num.less num.zero_real b ≡ true
      → n ≤ 2 ^ 53
      → num.scale (beta_distribution num a b r).0 n ≤ n
  pub zero_plus : (x : D) → num.plus num.zero_real x ≡ x

-- The patterns that need no zones, no trace and no parameters.
unfoldable pub IsSimple : Pattern → Type 0
IsSimple Pattern.sequential = Unit
IsSimple Pattern.uniform = Unit
IsSimple Pattern.zipf = Unit
IsSimple _ = ⊥

-- If pages are shuffled, then each has a place in the vector, and another page is there.
pub record IsShuffled {D : Type 0} (g : Plain D) : Type 0 where
  pub some_page : 0 < g.logical_pages
  pub word : g.logical_pages < 2 ^ 64
  pub sized : g.shuffle ≡ true → length g.shuffle_vector ≡ g.logical_pages
  pub inside :
      g.shuffle ≡ true
      → (i : ℕ) → i < g.logical_pages
      → get_or g.shuffle_vector i 0 < g.logical_pages

-- A page below the number of pages passes the checks and stays below it.
pub finish-ok :
    {D : Type 0} (g : Plain D) (page : ℕ)
    → IsShuffled g
    → page < g.logical_pages
    → (p : ℕ) × (finish g page ≡ ok p) × (p < g.logical_pages)
unfolding finish
finish-ok g page v h = elim (Bool-cases g.shuffle) [
  | inl e ↦
      let q = get_or g.shuffle_vector page 0 in
      let sized = v.sized e in
      let inside = v.inside e page h in
      (
        q,
        rw
            (
              e,
              lt→ltb page (length g.shuffle_vector) (omega (arith, h, sized)),
              fetch-in Fault.out_of_range g.shuffle_vector page 0 (omega (arith, h, sized)),
              le→leb q g.logical_pages (omega (arith, inside)),
              lt→ltb q g.logical_pages inside,
            )
            refl,
        inside,
      )
  | inr e ↦ (
    page,
    rw (e, le→leb page g.logical_pages (omega (arith, h)), lt→ltb page g.logical_pages h) refl,
    h,
  )
]

module _ {D R : Type 0} (num : Numerics D R) (lawful : IsLawful num) where
  -- What a generator without zones returns: a page of its own, and itself, perhaps one page on.
  pub record Draws (g : Plain D) (m : Result (ℕ × Plain D × R)) : Type 0 where
    pub page : ℕ
    pub next : Plain D
    pub rest : R
    pub runs : m ≡ ok (page, next, rest)
    pub inside : page < g.logical_pages
    pub pattern : next.pattern ≡ g.pattern
    pub logical_pages : next.logical_pages ≡ g.logical_pages
    pub kept : IsShuffled next

  sub64-one : (n : ℕ) → 0 < n → n < 2 ^ 64 → sub64 n 1 ≡ n - 1
  sub64-one n h k = omega (arith, h, k)

  abbrev drawn :
      (g : Plain D) (m : Result (ℕ × Plain D × R)) (page : ℕ) (rest : R)
      → m ≡ ok (page, g, rest)
      → page < g.logical_pages
      → IsShuffled g
      → Draws g m
  drawn g m page rest e h v = record {
    page = page;
    next = g;
    rest = rest;
    runs = e;
    inside = h;
    pattern = refl;
    logical_pages = refl;
    kept = v;
  }

  pub choose_plain-Draws :
      (alpha beta : D) (pattern : Pattern) (g : Plain D) (r : R)
      → IsSimple pattern
      → IsShuffled g
      → Draws g (choose_plain num alpha beta pattern g r)
  unfolding choose_plain next_in_sequence IsSimple
  choose_plain-Draws alpha beta Pattern.sequential g r h v = record {
    page = g.seq % g.logical_pages;
    next = record g { seq = add64 g.seq 1 };
    rest = r;
    runs = rw (ne→== g.logical_pages 0 (omega (arith, v.some_page))) refl;
    inside = mod-lt g.seq v.some_page;
    pattern = refl;
    logical_pages = refl;
    kept = record { some_page = v.some_page; word = v.word; sized = v.sized; inside = v.inside };
  }
  choose_plain-Draws alpha beta Pattern.uniform g r h v =
      let law = lawful.integer 0 (sub64 g.logical_pages 1) r (omega arith) in
      drawn g (choose_plain num alpha beta Pattern.uniform g r)
        (num.uniform_int 0 (sub64 g.logical_pages 1) r).0
        (num.uniform_int 0 (sub64 g.logical_pages 1) r).1 refl
        (omega (arith, law.1, sub64-one g.logical_pages v.some_page v.word, v.some_page)) v
  choose_plain-Draws alpha beta Pattern.beta g r h v = absurd h
  choose_plain-Draws alpha beta Pattern.zipf g r h v =
      let law = lawful.rank g.logical_pages g.skew_factor r v.some_page in
      drawn g (choose_plain num alpha beta Pattern.zipf g r)
        (sub64 (num.zipf_sample g.logical_pages g.skew_factor r).0 1)
        (num.zipf_sample g.logical_pages g.skew_factor r).1 refl
        (omega (arith, law.0, law.1, v.word)) v
  choose_plain-Draws alpha beta Pattern.zones g r h v = absurd h
  choose_plain-Draws alpha beta Pattern.fio_zipf g r h v = absurd h
  choose_plain-Draws alpha beta Pattern.traces g r h v = absurd h
  choose_plain-Draws alpha beta Pattern.db g r h v = absurd h
  choose_plain-Draws alpha beta Pattern.zns g r h v = absurd h
  choose_plain-Draws alpha beta Pattern.seq_zones g r h v = absurd h
  choose_plain-Draws alpha beta Pattern.undefined g r h v = absurd h

  pub choose_beta-Draws :
      (alpha beta : D) (g : Plain D) (r : R)
      → num.less num.zero_real alpha ≡ true
      → num.less num.zero_real beta ≡ true
      → g.logical_pages ≤ 2 ^ 53
      → IsShuffled g
      → Draws g (choose_plain num alpha beta Pattern.beta g r)
  unfolding choose_plain
  choose_beta-Draws alpha beta g r a b small v =
      let sample = beta_distribution num alpha beta r in
      let last = sub64-one g.logical_pages v.some_page v.word in
      drawn g (choose_plain num alpha beta Pattern.beta g r)
        (num.scale sample.0 (sub64 g.logical_pages 1)) sample.1 refl
        (omega (
          arith,
          lawful.unit alpha beta (sub64 g.logical_pages 1) r a b (omega (arith, last, small)),
          last,
          v.some_page,
        ))
        v

  pub access_plain-Draws :
      (alpha beta : D) (g : Plain D) (r : R)
      → IsSimple g.pattern
      → IsShuffled g
      → Draws g (access_plain num alpha beta g r)
  unfolding access_plain
  access_plain-Draws alpha beta g r h v =
      let c = choose_plain-Draws alpha beta g.pattern g r h v in
      let f = finish-ok g c.page v c.inside in
      record {
        page = f.0;
        next = c.next;
        rest = c.rest;
        runs = rw (c.runs, f.1) refl;
        inside = f.2;
        pattern = c.pattern;
        logical_pages = c.logical_pages;
        kept = c.kept;
      }
