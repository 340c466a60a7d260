-- ===== src/Prelude/Errors.antt =====
-- What a call of the program ends in: a value, or the reason why it does not return.
use mathlib.Core.Path.{◌≡◌, refl}
use mathlib.Core.Bool.{Bool, true, false}
use mathlib.Core.Option.{Option, none, some}
use mathlib.Core.List.{List}
use Prim.Native.Nat.{ℕ, ◌<◌}
use ssdiq.Prelude.Tests.{ltb, if◌then◌else◌, lt→ltb}
use ssdiq.Prelude.Lists.{length, set, get_elem?, get_or, get_elem?-some, get_elem?-get_or}

-- `ensure` and `ensurem` throw EnsureFailed, `vector::at` throws std::out_of_range. An access by
-- `operator[]` outside a vector has no defined meaning, and is a fault of its own here. `out_of_fuel`
-- says that a loop has not ended within the rounds that it was given, `assertion` that an `assert` has
-- failed, `interrupted` that the program has raised SIGINT, for which it has no handler.
pub data Fault : Type 0 where
  ensure_failed out_of_range invalid_argument runtime_error undefined_access out_of_fuel assertion
        logic_error interrupted :
      Fault

pub data Result {ℓ} (A : Type ℓ) : Type ℓ where
  ok : A → Result A
  err : Fault → Result A

-- `ensure(e)`.
abbrev pub ensure : Bool → Result (Unit {0})
ensure false = err ensure_failed
ensure true = ok tt

-- `assert(e)`, in a build without NDEBUG.
abbrev pub assert : Bool → Result (Unit {0})
assert false = err assertion
assert true = ok tt

infixl 5 ◌>>=◌
abbrev pub ◌>>=◌ {ℓ κ} : {A : Type ℓ} {B : Type κ} → Result A → (A → Result B) → Result B
err fault >>= next = err fault
ok value >>= next = next value

abbrev pub or_fault {ℓ} : {A : Type ℓ} → Fault → Option A → Result A
or_fault f none = err f
or_fault f (some a) = ok a

-- `v.at(i)` with `out_of_range`, `v[i]` with `undefined_access`.
abbrev pub fetch {ℓ} : {A : Type ℓ} → Fault → List A → ℕ → Result A
fetch f xs i = or_fault f (get_elem? xs i)

infixl 5 ◌>>◌
abbrev pub ◌>>◌ {κ} : {B : Type κ} → Result (Unit {0}) → Result B → Result B
first >> second = first >>= λ done. second

-- `v[i] = a`.
abbrev pub store {ℓ} : {A : Type ℓ} → Fault → List A → ℕ → A → Result (List A)
store f xs i a = if ltb i (length xs) then ok (set xs i a) else err f

pub store-in {ℓ} :
    {A : Type ℓ} (f : Fault) (xs : List A) (i : ℕ) (a : A)
    → i < length xs
    → store f xs i a ≡ ok (set xs i a)
store-in f xs i a h = rw (lt→ltb i (length xs) h) refl

-- Inversion of a successful bind.
pub bind-ok {ℓ κ} :
    {A : Type ℓ} {B : Type κ} {b : B} (m : Result A) (next : A → Result B)
    → (m >>= next) ≡ ok b
    → (value : A) × (m ≡ ok value) × (next value ≡ ok b)
bind-ok (err fault) next h = cc
bind-ok (ok value) next h = (value, refl, h)

pub ensure-ok : (b : Bool) {u : Unit {0}} → ensure b ≡ ok u → b ≡ true
ensure-ok true h = refl
ensure-ok false h = cc

or_fault-ok {ℓ} : {A : Type ℓ} (f : Fault) (o : Option A) (a : A) → or_fault f o ≡ ok a → o ≡ some a
or_fault-ok f none a h = cc
or_fault-ok f (some b) a h = cc

pub fetch-ok {ℓ} :
    {A : Type ℓ} (f : Fault) (xs : List A) (i : ℕ) (a d : A)
    → fetch f xs i ≡ ok a
    → (i < length xs) × (get_or xs i d ≡ a)
fetch-ok f xs i a d h = get_elem?-some xs i a d (or_fault-ok f (get_elem? xs i) a h)

pub fetch-in {ℓ} :
    {A : Type ℓ} (f : Fault) (xs : List A) (i : ℕ) (d : A)
    → i < length xs
    → fetch f xs i ≡ ok (get_or xs i d)
fetch-in f xs i d h = rw (get_elem?-get_or xs i d h)
