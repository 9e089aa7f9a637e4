-- ===== src/Common/Results.antt =====
-- A call that returns a value or throws.
use mathlib.Core.Path.{◌≡◌, refl}
use mathlib.Core.Logic.{◌⊎◌, inl, inr}
use mathlib.Core.Bool.{Bool, true, false, not}
use mathlib.Core.Option.{Option, none, some}
use relay_settlement.Common.Tests.{if◌then◌else◌}

pub data Result {ℓ} (E : Type 0) (A : Type ℓ) : Type ℓ where
  ok : A → Result E A
  err : E → Result E A

-- Named apart from the binds of the monads, which stand beside each monad. It is shut, so that a
-- proof can take a chain of calls apart by `and_then-eq-ok`.
unfoldable pub and_then {ℓ κ} :
    {E : Type 0} {A : Type ℓ} {B : Type κ} → Result E A → (A → Result E B) → Result E B
and_then (ok a) f = f a
and_then (err e) f = err e

abbrev pub require : {E : Type 0} → Bool → E → Result E (Unit {0})
require true e = ok tt
require false e = err e

pub and_then-eq-ok {ℓ κ} :
    {E : Type 0} {A : Type ℓ} {B : Type κ} (m : Result E A) (f : A → Result E B) {b : B}
    → and_then m f ≡ ok b
    → (a : A) × (m ≡ ok a) × (f a ≡ ok b)
unfolding and_then
and_then-eq-ok (ok a) f h = (a, refl, h)
and_then-eq-ok (err e) f h = cc

pub Result-cases {ℓ} :
    {E : Type 0} {A : Type ℓ} (r : Result E A) → ((a : A) × (r ≡ ok a)) ⊎ ((e : E) × (r ≡ err e))
Result-cases (ok a) = inl (a, refl)
Result-cases (err e) = inr (e, refl)

pub require-eq-ok : {E : Type 0} (b : Bool) (e : E) {u : Unit {0}} → require b e ≡ ok u → b ≡ true
require-eq-ok true e h = refl
require-eq-ok false e h = absurd (cc)

-- A guard that was passed.
pub guard-eq-ok {ℓ} :
    {E : Type 0} {A : Type ℓ} (b : Bool) (e : E) (m : Result E A) {a : A}
    → (if not b then err e else m) ≡ ok a
    → (b ≡ true) × (m ≡ ok a)
guard-eq-ok true e m h = (refl, h)
guard-eq-ok false e m h = absurd (cc)

pub passed-eq-ok {ℓ} :
    {E : Type 0} {A : Type ℓ} (b : Bool) (e : E) (m : Result E A) {a : A}
    → (if b then err e else m) ≡ ok a
    → m ≡ ok a
passed-eq-ok true e m h = absurd (cc)
passed-eq-ok false e m h = h

pub if-eq-ok {ℓ} :
    {E : Type 0} {A : Type ℓ} (b : Bool) (x : A) (e : E) {a : A}
    → (if b then ok x else err e) ≡ ok a
    → (b ≡ true) × (x ≡ a)
if-eq-ok true x e h = (refl, cc)
if-eq-ok false x e h = absurd (cc)

-- A missing value is thrown as `e`.
abbrev pub or_throw {ℓ} : {E : Type 0} {A : Type ℓ} → E → Option A → Result E A
or_throw e none = err e
or_throw e (some a) = ok a

pub or_throw-eq-ok {ℓ} :
    {E : Type 0} {A : Type ℓ} (e : E) (o : Option A) (a : A) → or_throw e o ≡ ok a → o ≡ some a
or_throw-eq-ok e none a h = cc
or_throw-eq-ok e (some b) a h = cc

pub ok_same {ℓ} : {E : Type 0} {A : Type ℓ} {a b : A} → ◌≡◌ {A = Result E A} (ok a) (ok b) → a ≡ b
ok_same h = cc

pub and_then-ok-eq {ℓ κ} :
    {E : Type 0} {A : Type ℓ} {B : Type κ} (m : Result E A) (f : A → Result E B) (a : A)
    {r : Result E B}
    → m ≡ ok a
    → f a ≡ r
    → and_then m f ≡ r
unfolding and_then
and_then-ok-eq m f a h k = rw h k
