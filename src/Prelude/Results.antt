-- ===== src/Prelude/Results.antt =====
-- `Result<A, E>`: its bind (the `?` operator), the guards that the programs write, and inversion.
use mathlib.Core.Path.{◌≡◌, refl, ap}
use mathlib.Core.Logic.{◌⊎◌, inl, inr}
use mathlib.Core.Bool.{Bool, true, false, not}
use mathlib.Core.Option.{Option, none, some}

pub data Result {ℓ κ} (E : Type κ) (A : Type ℓ) : Type (ℓ ⊔ κ) where
  ok : A → Result E A
  err : E → Result E A

-- `o.ok_or(e)`.
abbrev pub ok_or {ℓ κ} : {E : Type κ} {A : Type ℓ} → Option A → E → Result E A
ok_or (some a) e = ok a
ok_or none e = err e

-- `if b { return Err(e) }`.
abbrev pub reject_if {κ} : {E : Type κ} → Bool → E → Result E (Unit {0})
reject_if false e = ok tt
reject_if true e = err e

-- `require!(b, e)`, and `if !b { return Err(e) }`.
abbrev pub guard {κ} : {E : Type κ} → Bool → E → Result E (Unit {0})
guard b e = reject_if (not b) e

-- The `?` operator: the rest of the body runs on the value, an error is returned at once.
infixl 5 ◌>>=◌
abbrev pub ◌>>=◌ {ℓ κ ι} :
    {E : Type κ} {A : Type ℓ} {B : Type ι} → Result E A → (A → Result E B) → Result E B
(err error) >>= body = err error
(ok value) >>= body = body value

infixl 5 ◌>>◌
abbrev pub ◌>>◌ {ℓ κ} : {E : Type κ} {B : Type ℓ} → Result E (Unit {0}) → Result E B → Result E B
check >> body = check >>= λ passed. body

pub ok-inj {ℓ κ} : {E : Type κ} {A : Type ℓ} {a b : A} → ◌≡◌ {A = Result E A} (ok a) (ok b) → a ≡ b
ok-inj h = cc

-- Inversion of a successful step, for proofs where the parts stay shut.
pub guard-eq-ok {ℓ κ} :
    {E : Type κ} {B : Type ℓ} (c : Bool) (e : E) (k : Result E B) {b : B}
    → (guard c e >> k) ≡ ok b
    → (c ≡ true) × (k ≡ ok b)
guard-eq-ok true e k h = (refl, h)
guard-eq-ok false e k h = cc

pub reject_if-eq-ok {ℓ κ} :
    {E : Type κ} {B : Type ℓ} (c : Bool) (e : E) (k : Result E B) {b : B}
    → (reject_if c e >> k) ≡ ok b
    → (c ≡ false) × (k ≡ ok b)
reject_if-eq-ok true e k h = cc
reject_if-eq-ok false e k h = (refl, h)

pub ok_or-eq-ok {ℓ κ ι} :
    {E : Type κ} {A : Type ℓ} {B : Type ι} (o : Option A) (e : E) (f : A → Result E B) {b : B}
    → (ok_or o e >>= f) ≡ ok b
    → (a : A) × (o ≡ some a) × (f a ≡ ok b)
ok_or-eq-ok none e f h = cc
ok_or-eq-ok (some a) e f h = (a, refl, h)

pub Result-cases {ℓ κ} :
    {E : Type κ} {A : Type ℓ} (r : Result E A) → ((a : A) × (r ≡ ok a)) ⊎ ((e : E) × (r ≡ err e))
Result-cases (ok a) = inl (a, refl)
Result-cases (err e) = inr (e, refl)

-- The same as a data type, so that a match binds the value and the equations as variables.
pub data Through {ℓ κ ι} {E : Type κ} {A : Type ℓ} {B : Type ι} (m : Result E A)
    (f : A → Result E B) (b : B) : Type (ℓ ⊔ κ ⊔ ι) where
  via : (a : A) → m ≡ ok a → f a ≡ ok b → Through m f b

pub through {ℓ κ ι} :
    {E : Type κ} {A : Type ℓ} {B : Type ι} (m : Result E A) (f : A → Result E B) {b : B}
    → (m >>= f) ≡ ok b
    → Through m f b
through (ok a) f h = via a refl h
through (err e) f h = cc

-- The converse: a step that succeeds hands its value to the rest.
pub ok_then {ℓ κ ι} :
    {E : Type κ} {A : Type ℓ} {B : Type ι} (m : Result E A) (f : A → Result E B) {a : A} {b : B}
    → m ≡ ok a
    → f a ≡ ok b
    → (m >>= f) ≡ ok b
ok_then (ok x) f h k = cc
ok_then (err e) f h k = cc

pub guard_then {ℓ κ} :
    {E : Type κ} {B : Type ℓ} (c : Bool) (e : E) (k : Result E B) {b : B}
    → c ≡ true
    → k ≡ ok b
    → (guard c e >> k) ≡ ok b
guard_then true e k h q = q
guard_then false e k h q = cc

-- An error that no step reports is not reported.
pub bind_avoids {ℓ κ ι} :
    {E : Type κ} {A : Type ℓ} {B : Type ι} (m : Result E A) (f : A → Result E B) {e : E}
    → ¬ (m ≡ err e)
    → ((a : A) → m ≡ ok a → ¬ (f a ≡ err e))
    → ¬ ((m >>= f) ≡ err e)
bind_avoids (ok a) f first rest h = rest a refl h
bind_avoids (err x) f {e} first rest h = let same : x ≡ e = cc in first (ap err same)

pub guard_avoids {κ} : {E : Type κ} (c : Bool) {x e : E} → ¬ (x ≡ e) → ¬ (guard c x ≡ err e)
guard_avoids true n h = cc
guard_avoids false n h = n (cc)
