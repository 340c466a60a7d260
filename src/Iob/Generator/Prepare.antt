-- ===== src/Iob/Generator/Prepare.antt =====
-- What prepareRequest of iob/RequestGenerator.hpp makes of a request: the addresses, the data and the
-- fsyncs.
use native.Mathlib.Nat.{div-add-mod, mul-add-mod_self_right}
use ssdiq.Prelude.{
  ℕ, ◌+◌, ◌-◌, ◌*◌, ◌/◌, ◌%◌, ◌^◌, ◌<◌, ◌≤◌, ◌≡◌, refl, sym, ap, ◌∙◌, ◌⊎◌, inl, inr, Bool, true,
  List, [], some, arith, ok, Result, Fault, ℤ, length, length-set, get_or, get_or-set_self,
  get_or-set_ne, set, fetch-in, ltb, lt→ltb, ◌==◌, ◌&&◌, if◌then◌else◌, Bool-cases, add64, sub64,
  mul64, subst, replicate, length-replicate, ℕ_discrete,
}
use ssdiq.Iob.Request.{IoRequestType, IoBaseRequest}
use ssdiq.Iob.PageState.{Page, page_size, check_buffer}
use ssdiq.Iob.PageState.RoundTrip.{IsBuffer}
use ssdiq.Iob.Generator.{
  JobOptions, Generator, total_minus_offset_blocks, track_access, pattern_generator,
}

-- A job that starts within its file, on whole sectors, with blocks of whole pages.
pub record IsJob (o : JobOptions) : Type 0 where
  pub some_byte : 0 < o.bs
  pub starts : o.offset ≤ o.filesize
  pub word : o.filesize < 2 ^ 63
  pub pages : o.bs % page_size ≡ 0
  pub sectors : o.bs % 512 ≡ 0
  pub sector : o.offset % 512 ≡ 0

-- Every request has its aligned buffer, and accesses are counted, if at all, for all logical pages.
pub record IsGenerator (g : Generator) : Type 0 where
  pub job : IsJob g.options
  pub buffers : length g.write_data ≡ g.options.iodepth
  pub aligned :
      (i : ℕ)
      → i < g.options.iodepth
      → IsBuffer (g.wd + g.options.bs * i) g.options.bs (get_or g.write_data i [])
  pub tracked : (length g.pattern_access ≡ 0) ⊎ (length g.pattern_access ≡ g.logical_pages)

-- The fsync is due after `fdatasync` writes.
abbrev pub due : Generator → Bool
due g = ltb 0 g.options.fdatasync && (sub64 g.prepared_writes g.last_fsync == g.options.fdatasync)

blocks-le : (b n c : ℕ) → b < n / c → b * c + c ≤ n
blocks-le b n c h = omega (arith, div-add-mod n c, more b (n / c) c h)
  where
    more : (x y z : ℕ) → x < y → x * z + z ≤ z * y
    more x y z h = grind arith

-- Where a block stands in the file.
block-inside :
    (o : JobOptions) (b : ℕ)
    → IsJob o
    → b < total_minus_offset_blocks o
    → b * o.bs + o.bs + o.offset ≤ o.filesize
block-inside o b j h =
    let e : sub64 o.filesize o.offset ≡ o.filesize - o.offset = omega (arith, j.starts, j.word) in
    omega
      (arith, j.starts, blocks-le b (o.filesize - o.offset) o.bs (subst (λ n. b < n / o.bs) e h))

pub block-aligned : (b c k : ℕ) → c % 512 ≡ 0 → k % 512 ≡ 0 → (b * c + k) % 512 ≡ 0
block-aligned b c k h e =
    ap (λ x. x % 512) (split b c (c / 512) k (omega (arith, div-add-mod c 512, h)))
    ∙ mul-add-mod_self_right (b * (c / 512)) 512 k
    ∙ e
  where
    regroup : (b q k : ℕ) → b * (512 * q) + k ≡ b * q * 512 + k
    regroup b q k = grind arith

    split : (b c q k : ℕ) → c ≡ 512 * q → b * c + k ≡ b * q * 512 + k
    split b c q k e = rw e (regroup b q k)

block-small : (b c n : ℕ) → b * c + c ≤ n → 0 < c → b < n
block-small b c n h k = omega (arith, h, more b c k)
  where
    more : (b c : ℕ) → 0 < c → b < b * c + c
    more b c h = grind arith

module _ {P : Type 0} (next_page : P → Result (ℕ × P)) where
  -- The pattern has a page for a block of the job, among the logical pages.
  pub record HasPage (g : Generator) (p : P) : Type 0 where
    pub block : ℕ
    pub rest : P
    pub drawn : next_page p ≡ ok (block, rest)
    pub inside : block < total_minus_offset_blocks g.options
    pub logical : block < g.logical_pages

  track-ok :
      (g : Generator) (b : ℕ)
      → b < g.logical_pages
      → (length g.pattern_access ≡ 0) ⊎ (length g.pattern_access ≡ g.logical_pages)
      → (xs : List ℕ) × ((if g.options.track_pattern_access then track_access b g else ok g)
          ≡ ok (record g { pattern_access = xs }))
        × ((length xs ≡ 0) ⊎ (length xs ≡ g.logical_pages))
  unfolding track_access
  track-ok g b h t = elim (Bool-cases g.options.track_pattern_access) [
    | inr e ↦ (g.pattern_access, rw e refl, t)
    | inl e ↦
        let sized =
          if length g.pattern_access == 0 then replicate g.logical_pages 0 else g.pattern_access in
        let n = made g.logical_pages g.pattern_access t in
        (
          set sized b (get_or sized b 0 + 1),
          rw (e, fetch-in Fault.out_of_range sized b 0 (omega (arith, h, n))) refl,
          inr (length-set sized b (get_or sized b 0 + 1) ∙ n),
        )
  ]
    where
      made :
          (n : ℕ) (xs : List ℕ)
          → (length xs ≡ 0) ⊎ (length xs ≡ n)
          → length (if length xs == 0 then replicate n 0 else xs) ≡ n
      made n xs (inl e) =
          let z : (length xs == 0) ≡ true = ap (λ m. m == 0) e in rw z (length-replicate n 0)
      made n xs (inr e) = elim (Bool-cases (length xs == 0)) [
        | inl z ↦ rw z (length-replicate n 0)
        | inr z ↦ rw z e
      ]

  pub pattern_generator-ok :
      (g : Generator) (p : P)
      → IsGenerator g
      → (h : HasPage g p)
      → (xs : List ℕ) × (pattern_generator next_page g p
          ≡ ok
              (h.block * g.options.bs + g.options.offset, record g { pattern_access = xs }, h.rest))
        × ((length xs ≡ 0) ⊎ (length xs ≡ g.logical_pages))
        × (h.block * g.options.bs + g.options.offset + g.options.bs ≤ g.options.filesize)
  unfolding pattern_generator
  pattern_generator-ok g p v h =
      let o = g.options in
      let b = h.block in
      let t = track-ok g b h.logical v.tracked in
      let inside = block-inside o b v.job h.inside in
      let small : b < 2 ^ 63 = omega (
        arith,
        v.job.word,
        inside,
        block-small b o.bs o.filesize (omega (arith, inside)) v.job.some_byte,
      ) in
      let e : add64 (mul64 b o.bs) o.offset ≡ b * o.bs + o.offset =
        omega (arith, inside, v.job.word) in
      (
        t.0,
        rw
            (
              h.drawn,
              t.1,
              lt→ltb b (2 ^ 63) small,
              lt→ltb b (total_minus_offset_blocks o) h.inside,
              e,
            )
            refl,
        t.2,
        omega (arith, inside),
      )

  module _ (xxh32 : ℤ → ℤ → List ℕ → ℤ → ℕ) where
    -- A block of the job within the file, as the request has it.
    pub record IsBlock (g : Generator) (r : IoBaseRequest) : Type 0 where
      pub len : r.len ≡ g.options.bs
      pub after : g.options.offset ≤ r.addr
      pub within : r.addr + r.len ≤ g.options.filesize
      pub sector : r.addr % 512 ≡ 0
      pub own_buffer : r.data_buffer ≡ some r.id

    -- The request that comes out: an fsync when it is due, else a write of a buffer that passes its
    -- checks, or a read.
    pub record Prepared (writes : Bool) (req : IoBaseRequest) (g : Generator) (p : P)
        (m : Result (IoBaseRequest × Generator × P)) : Type 0 where
      pub made : IoBaseRequest
      pub next : Generator
      pub rest : P
      pub runs : m ≡ ok (made, next, rest)
      pub same_id : made.id ≡ req.id
      pub same_write_back : made.write_back ≡ req.write_back
      pub valid : IsGenerator next
      pub same_options : next.options ≡ g.options
      pub same_pages : next.logical_pages ≡ g.logical_pages
      pub supplied : (rest ≡ p) ⊎ ((b : ℕ) × (next_page p ≡ ok (b, rest)))
      pub same_stack : next.available_req_stack ≡ g.available_req_stack
      pub same_cnt : next.available_req_stack_cnt ≡ g.available_req_stack_cnt
      pub outcome :
          if due g
          then ((made.type ≡ IoRequestType.fsync)
              × (made.len ≡ 0)
              × (next.last_fsync ≡ g.prepared_writes)
              × (next.prepared_writes ≡ g.prepared_writes))
          else if writes
          then ((made.type ≡ IoRequestType.write)
              × IsBlock g made
              × (check_buffer xxh32 g.file_state
                    (g.wd + g.options.bs * req.id)
                    (get_or next.write_data req.id [])
                    made.addr
                    made.len
                  ≡ ok tt)
              × (next.last_fsync ≡ g.last_fsync)
              × (next.prepared_writes ≡ add64 g.prepared_writes 1))
          else ((made.type ≡ IoRequestType.read)
              × IsBlock g made
              × (next.last_fsync ≡ g.last_fsync)
              × (next.prepared_writes ≡ g.prepared_writes))

    module _ (rand : ℕ → ℕ) (req : IoBaseRequest) (g : Generator) (p : P) (v : IsGenerator g)
        (h : HasPage g p) (own : req.id < g.options.iodepth) where
      pub write-ok :
          (filled : List Page) (xs : List ℕ)
          → (length xs ≡ 0) ⊎ (length xs ≡ g.logical_pages)
          → length filled ≡ length (get_or g.write_data req.id [])
          → IsGenerator (record g {
            pattern_access = xs;
            write_data = set g.write_data req.id filled;
            prepared_writes = add64 g.prepared_writes 1;
          })
      write-ok filled xs t same = record {
        job = v.job;
        buffers = length-set g.write_data req.id filled ∙ v.buffers;
        aligned = λ i k. elim (ℕ_discrete req.id i) [
          | yes e ↦
              let b = v.aligned i k in
              record {
                whole = b.whole;
                aligned = b.aligned;
                holds = omega (
                  arith,
                  b.holds,
                  same,
                  ap (λ j. length (get_or g.write_data j [])) e,
                  ap (λ j. length (get_or (set g.write_data req.id filled) j [])) (sym e),
                  ap length (get_or-set_self g.write_data req.id filled [] listed),
                );
              }
          | no ne ↦
              subst (IsBuffer (g.wd + g.options.bs * i) g.options.bs)
                (sym (get_or-set_ne g.write_data req.id i filled [] ne)) (v.aligned i k)
        ];
        tracked = t;
      }
        where
          listed : req.id < length g.write_data
          listed = omega (arith, own, v.buffers)
