-- ===== src/Iob/Generator/Flight.antt =====
-- Each request of a generator of iob/RequestGenerator.hpp is available or in flight: its buffers are used
-- for one request at a time.
use ssdiq.Prelude.{
  ℕ, ◌+◌, ◌-◌, ◌<◌, ◌≤◌, ◌≡◌, refl, sym, ap, ◌∙◌, true, List, [], ◌∷◌, arith, ok, Fault, length,
  length-set, get_or, get_or-set_self, get_or-set_ne, set, fetch-in, store-in, ℕ_discrete, subst,
  zero, suc, ◌==◌, ==-refl, ne→==,
}
use ssdiq.Iob.Generator.{Generator, all_ids}
use ssdiq.Iob.Generator.Complete.{put_id}
use ssdiq.Iob.Generator.Run.{take_id}
use ssdiq.Iob.Generator.Ids.{
  is_id, count_id, occurs_id, remove_id, count_id-last, count_id-set_last, occurs_id-remove_id,
  is_id_self,
}

-- `flight` are the numbers of the requests that the channel has.
pub record IsHeld (flight : List ℕ) (g : Generator) : Type 0 where
  pub room : length g.available_req_stack ≡ g.options.iodepth
  pub total : g.available_req_stack_cnt + length flight ≡ g.options.iodepth
  pub one :
      (r : ℕ)
      → r < g.options.iodepth
      → count_id r g.available_req_stack_cnt g.available_req_stack + occurs_id r flight ≡ 1
  pub ids :
      (i : ℕ) → i < g.available_req_stack_cnt → get_or g.available_req_stack i 0 < g.options.iodepth

module _ (flight : List ℕ) (g : Generator) (h : IsHeld flight g) where
  pub take_id-IsHeld :
      0 < g.available_req_stack_cnt
      → (id : ℕ) × (take_id g
          ≡ ok (id, record g { available_req_stack_cnt = g.available_req_stack_cnt - 1 }))
        × (id < g.options.iodepth)
        × (occurs_id id flight ≡ 0)
        × IsHeld
            (id ∷ flight)
            (record g { available_req_stack_cnt = g.available_req_stack_cnt - 1 })
  unfolding take_id occurs_id
  take_id-IsHeld left =
      let n = g.available_req_stack_cnt - 1 in
      let stack = g.available_req_stack in
      let id = get_or stack n 0 in
      let listed : n < length stack = omega (arith, left, h.room, h.total) in
      let small : id < g.options.iodepth = h.ids n (omega (arith, left)) in
      let top : (r : ℕ)
          → count_id r g.available_req_stack_cnt stack ≡ count_id r n stack + is_id r id =
        λ r. ap (λ m. count_id r m stack) (omega (arith, left)) ∙ count_id-last r n stack listed in
      (
        id,
        rw (fetch-in Fault.undefined_access stack n 0 listed) refl,
        small,
        omega (arith, h.one id small, top id, is_id_self id),
        record {
          room = h.room;
          total = omega (arith, h.total, left);
          one = λ r k. omega (arith, h.one r k, top r);
          ids = λ i k. h.ids i (omega (arith, k));
        },
      )

  -- A request in flight that is given back.
  pub put_id-IsHeld :
      (id : ℕ)
      → 0 < occurs_id id flight
      → id < g.options.iodepth
      → (stack : List ℕ) × (put_id id g
          ≡ ok (record g {
            available_req_stack = stack;
            available_req_stack_cnt = g.available_req_stack_cnt + 1;
          }))
        × IsHeld (remove_id id flight) (record g {
          available_req_stack = stack;
          available_req_stack_cnt = g.available_req_stack_cnt + 1;
        })
  unfolding put_id
  put_id-IsHeld id flies small =
      let n = g.available_req_stack_cnt in
      let stack = g.available_req_stack in
      let listed : n < length stack =
        omega (arith, h.room, h.total, (occurs_id-remove_id 0 id flight flies).1) in
      (
        set stack n id,
        rw (store-in Fault.undefined_access stack n id listed) refl,
        record {
          room = length-set stack n id ∙ h.room;
          total = omega (arith, h.total, (occurs_id-remove_id 0 id flight flies).1);
          one = λ r k. omega (
            arith,
            h.one r k,
            (occurs_id-remove_id r id flight flies).0,
            count_id-last r n (set stack n id) (omega (arith, listed, length-set stack n id)),
            count_id-set_last r n stack id,
            ap (is_id r) (get_or-set_self stack n id 0 listed),
          );
          ids = λ i k. elim (ℕ_discrete n i) [
            | yes e ↦
                subst (λ j. get_or (set stack n id) j 0 < g.options.iodepth) e
                  (subst (λ x. x < g.options.iodepth) (sym (get_or-set_self stack n id 0 listed))
                    small)
            | no ne ↦
                subst (λ x. x < g.options.iodepth) (sym (get_or-set_ne stack n i id 0 ne))
                  (h.ids i (omega (arith, k, ne)))
          ];
        },
      )

get_or-all_ids : (n i k : ℕ) → k < n → get_or (all_ids n i) k 0 ≡ i + k
unfolding all_ids
get_or-all_ids zero i k h = absurd (omega (arith, h))
get_or-all_ids (suc n) i zero h = omega arith
get_or-all_ids (suc n) i (suc k) h = omega (arith, get_or-all_ids n (i + 1) k (omega (arith, h)))

length-all_ids : (n i : ℕ) → length (all_ids n i) ≡ n
unfolding all_ids
length-all_ids zero i = refl
length-all_ids (suc n) i = ap suc (length-all_ids n (i + 1))

count-below : (r n i : ℕ) → r < i → count_id r n (all_ids n i) ≡ 0
unfolding count_id all_ids
count-below r zero i h = refl
count-below r (suc n) i h =
    rw (ne→== i r (λ e. absurd (omega (arith, e, h))))
      (omega (arith, count-below r n (i + 1) (omega (arith, h))))

count-all_ids : (r n i : ℕ) → i ≤ r → r < i + n → count_id r n (all_ids n i) ≡ 1
unfolding count_id all_ids
count-all_ids r zero i h k = absurd (omega (arith, h, k))
count-all_ids r (suc n) i h k = elim (ℕ_discrete i r) [
  | yes e ↦
      let m : (i == r) ≡ true = ap (λ t. t == r) e ∙ ==-refl r in
      rw m (omega (arith, count-below r n (i + 1) (omega (arith, e))))
  | no ne ↦
      rw (ne→== i r ne)
        (omega (arith, count-all_ids r n (i + 1) (omega (arith, h, ne)) (omega (arith, k))))
]

-- A new generator has all of its requests.
pub all_ids-IsHeld :
    (g : Generator)
    → g.available_req_stack ≡ all_ids g.options.iodepth 0
    → g.available_req_stack_cnt ≡ g.options.iodepth
    → IsHeld [] g
unfolding occurs_id
all_ids-IsHeld g e n =
    let m = g.options.iodepth in
    record {
      room = ap length e ∙ length-all_ids m 0;
      total = omega (arith, n);
      one = λ r h. rw (n, e) (omega (arith, count-all_ids r m 0 (omega arith) (omega (arith, h))));
      ids = λ i h. rw e (omega (arith, get_or-all_ids m 0 i (omega (arith, h, n)), h, n));
    }
