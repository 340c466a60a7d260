-- ===== src/Sim/TwoR/Settle.antt =====
-- Where TwoR of sim/TwoR.hpp puts the victims of a collection.
use mathlib.Core.List.{append_assoc}
use ssdiq.Prelude.{
  ℕ, ◌≡◌, refl, ap, ◌∙◌, ◌⊎◌, inl, inr, true, false, List, [], ◌∷◌, ◌++◌, ok, Bool-cases, subst, In,
  if◌then◌else◌,
}
use ssdiq.Sim.Block.{can_write}
use ssdiq.Sim.Ssd.{Ssd}
use ssdiq.Sim.Ssd.Pages.{nth_block}
use ssdiq.Sim.Ssd.Valid.{IsValid}
use ssdiq.Sim.TwoR.{TwoR, settle}
use ssdiq.Sim.TwoR.Region.{Inside, block_at-ok}

-- The listed blocks that can still be written, and those that cannot.
unfoldable pub with_room : Ssd → List ℕ → List ℕ
with_room s [] = []
with_room s (b ∷ bs) =
    let rest = with_room s bs in if can_write (nth_block s.blocks b) then b ∷ rest else rest

unfoldable pub without_room : Ssd → List ℕ → List ℕ
without_room s [] = []
without_room s (b ∷ bs) =
    let rest = without_room s bs in if can_write (nth_block s.blocks b) then rest else b ∷ rest

append-nil_right : (xs : List ℕ) → xs ++ [] ≡ xs
append-nil_right [] = refl
append-nil_right (x ∷ xs) = ap (λ t. x ∷ t) (append-nil_right xs)

pub settle-eq :
    (vs : List ℕ) (t : TwoR)
    → IsValid t.ssd
    → Inside t.ssd vs
    → settle vs t
      ≡ ok (record t {
        cold_blocks = t.cold_blocks ++ without_room t.ssd vs;
        free_blocks = t.free_blocks ++ with_room t.ssd vs;
      })
unfolding settle with_room without_room
settle-eq [] t v i = rw (append-nil_right t.cold_blocks, append-nil_right t.free_blocks) refl
settle-eq (b ∷ bs) t v i = elim (Bool-cases (can_write (nth_block t.ssd.blocks b))) [
  | inl room ↦
      rw (block_at-ok t.ssd b v i.0, room)
        (settle-eq bs (record t { free_blocks = t.free_blocks ++ (b ∷ []) }) v i.1
          ∙ rw (append_assoc t.free_blocks (b ∷ []) (with_room t.ssd bs)) refl)
  | inr full ↦
      rw (block_at-ok t.ssd b v i.0, full)
        (settle-eq bs (record t { cold_blocks = t.cold_blocks ++ (b ∷ []) }) v i.1
          ∙ rw (append_assoc t.cold_blocks (b ∷ []) (without_room t.ssd bs)) refl)
]

pub In-with_room :
    (s : Ssd) (bs : List ℕ) (c : ℕ)
    → In c (with_room s bs)
    → (can_write (nth_block s.blocks c) ≡ true) × In c bs
unfolding with_room
In-with_room s [] c h = absurd h
In-with_room s (b ∷ bs) c h = elim (Bool-cases (can_write (nth_block s.blocks b))) [
  | inl room ↦ elim (subst (λ r. In c (if r then b ∷ with_room s bs else with_room s bs)) room h) [
    | inl e ↦ (ap (λ x. can_write (nth_block s.blocks x)) e ∙ room, inl e)
    | inr k ↦ let r = In-with_room s bs c k in (r.0, inr r.1)
  ]
  | inr full ↦
      let r =
        In-with_room s bs c
          (subst (λ r. In c (if r then b ∷ with_room s bs else with_room s bs)) full h) in
      (r.0, inr r.1)
]

-- Each listed block is on one side.
pub In-sides :
    (s : Ssd) (bs : List ℕ) (c : ℕ)
    → In c bs
    → ((can_write (nth_block s.blocks c) ≡ true) × In c (with_room s bs))
      ⊎ ((can_write (nth_block s.blocks c) ≡ false) × In c (without_room s bs))
unfolding with_room without_room
In-sides s [] c h = absurd h
In-sides s (b ∷ bs) c h = elim (Bool-cases (can_write (nth_block s.blocks b))) [
  | inl room ↦ elim h [
    | inl e ↦ inl (ap (λ x. can_write (nth_block s.blocks x)) e ∙ room, rw room (inl e))
    | inr k ↦ elim (In-sides s bs c k) [
      | inl r ↦ inl (r.0, rw room (inr r.1))
      | inr r ↦ inr (r.0, rw room r.1)
    ]
  ]
  | inr full ↦ elim h [
    | inl e ↦ inr (ap (λ x. can_write (nth_block s.blocks x)) e ∙ full, rw full (inl e))
    | inr k ↦ elim (In-sides s bs c k) [
      | inl r ↦ inl (r.0, rw full r.1)
      | inr r ↦ inr (r.0, rw full (inr r.1))
    ]
  ]
]
