-- ===== src/Prelude/Result.antt =====
-- `Result<A, E>`, and its chaining by `?`.
use mathlib.Core.Path.{◌≡◌, refl}
use mathlib.Core.Option.{Option, none, some}
use mathlib.Core.Bool.{Bool, true, false}
use rust_mono.Prelude.Tests.{if◌then◌else◌}

pub data Result {ℓ κ} (E : Type ℓ) (A : Type κ) : Type (ℓ ⊔ κ) where
  ok : A → Result E A
  err : E → Result E A

infixl 5 ◌>>=◌
abbrev pub ◌>>=◌ {ℓ κ μ} :
    {E : Type ℓ} {A : Type κ} {B : Type μ} → Result E A → (A → Result E B) → Result E B
ok a >>= f = f a
err e >>= f = err e

-- A chain succeeds by a first step that succeeds and a second one from its value.
pub >>=-eq-ok {ℓ κ μ} :
    {E : Type ℓ} {A : Type κ} {B : Type μ} (first : Result E A) (next : A → Result E B) {last : B}
    → (first >>= next) ≡ ok last
    → (value : A) × (first ≡ ok value) × (next value ≡ ok last)
>>=-eq-ok (err e) next chained = cc
>>=-eq-ok (ok value) next chained = (value, refl, chained)

pub ok-injective {ℓ κ} :
    {E : Type ℓ} {A : Type κ} {a b : A} → ◌≡◌ {A = Result E A} (ok a) (ok b) → a ≡ b
ok-injective h = cc

-- `map_err`
abbrev pub map_err {ℓ κ μ} :
    {A : Type ℓ} {E : Type κ} {F : Type μ} → (E → F) → Result E A → Result F A
map_err f (ok a) = ok a
map_err f (err e) = err (f e)

-- The error of a missing value: `ok_or_else`.
abbrev pub ok_or {ℓ κ} : {A : Type ℓ} {E : Type κ} → E → Option A → Result E A
ok_or e none = err e
ok_or e (some a) = ok a

-- `?` where a state is passed on, also by the step that fails.
abbrev pub and_then {ℓ κ μ ν} :
    {S : Type ℓ} {E : Type κ} {A : Type μ} {B : Type ν}
    → S × Result E A
    → (A → S → S × Result E B)
    → S × Result E B
and_then (s, ok a) next = next a s
and_then (s, err e) next = (s, err e)

pub and_then-eq-ok {ℓ κ μ ν} :
    {S : Type ℓ} {E : Type κ} {A : Type μ} {B : Type ν} (first : S × Result E A)
    (next : A → S → S × Result E B) {last : B}
    → (and_then first next).1 ≡ ok last
    → (value : A) × (first.1 ≡ ok value) × ((next value first.0).1 ≡ ok last)
and_then-eq-ok (s, err e) next chained = cc
and_then-eq-ok (s, ok value) next chained = (value, refl, chained)

pub map_err-eq-ok {ℓ κ μ} :
    {A : Type ℓ} {E : Type κ} {F : Type μ} (f : E → F) (o : Result E A) {a : A}
    → map_err f o ≡ ok a
    → o ≡ ok a
map_err-eq-ok f (ok b) h = cc h
map_err-eq-ok f (err e) h = cc h

-- A guard that was passed.
pub guard-eq-ok {ℓ κ μ} :
    {S : Type ℓ} {E : Type κ} {A : Type μ} (refused : Bool) (s : S) (e : E) (rest : S × Result E A)
    {a : A}
    → (if refused then (s, err e) else rest).1 ≡ ok a
    → (refused ≡ false) × (rest.1 ≡ ok a)
guard-eq-ok true s e rest h = cc h
guard-eq-ok false s e rest h = (refl, h)

pub refused-eq-ok {ℓ κ} :
    {E : Type ℓ} {A : Type κ} (refused : Bool) (e : E) (rest : Result E A) {a : A}
    → (if refused then err e else rest) ≡ ok a
    → (refused ≡ false) × (rest ≡ ok a)
refused-eq-ok true e rest h = cc h
refused-eq-ok false e rest h = (refl, h)
