-- ===== src/Base/Outcomes.antt =====
-- The outcome of a Go call that may return an error or panic.
use mathlib.Core.Path.{◌≡◌, refl}
use mathlib.Core.Bool.{Bool, true, false}
use mathlib.Core.Option.{Option, none, some}
use native.Mathlib.Omega.{arith}
use distrust_core.Base.Tests.{if◌then◌else◌}

pub data Outcome {ℓ} (E : Type 0) (A : Type ℓ) : Type ℓ where
  ok : A → Outcome E A
  err : E → Outcome E A
  panic : Outcome E A

-- Only a call that returned goes on to what follows it.
infixl 5 ◌>>=◌ ◌>>◌
abbrev pub ◌>>=◌ {ℓ κ} :
    {Error : Type 0} {A : Type ℓ} {B : Type κ}
    → Outcome Error A
    → (A → Outcome Error B)
    → Outcome Error B
call >>= next = elim call [ ok answer ↦ next answer | err failure ↦ err failure | panic ↦ panic ]

abbrev pub ◌>>◌ {ℓ} :
    {Error : Type 0} {B : Type ℓ} → Outcome Error (Unit {0}) → Outcome Error B → Outcome Error B
call >> next = elim call [ ok _ ↦ next | err failure ↦ err failure | panic ↦ panic ]

-- `if bad { return failure }`: the guard takes the good case.
abbrev pub guard : {Error : Type 0} → Bool → Error → Outcome Error (Unit {0})
guard good failure = if good then ok tt else err failure

-- An index or a slice out of range panics.
abbrev pub or_panic {ℓ} : {E : Type 0} {A : Type ℓ} → Option A → Outcome E A
or_panic none = panic
or_panic (some a) = ok a

abbrev pub or_err {ℓ} : {E : Type 0} {A : Type ℓ} → Option A → E → Outcome E A
or_err none e = err e
or_err (some a) e = ok a

-- A fallible call that read a byte, a number or a slice: `none` is a panic.
abbrev pub then_some {ℓ κ} : {A : Type ℓ} {B : Type κ} → Option A → (A → Option B) → Option B
then_some none f = none
then_some (some a) f = f a

-- A chain that gave a value: what its first call gave, and what followed.
pub then_some_gave {ℓ κ} :
    {A : Type ℓ} {B : Type κ} (o : Option A) (f : A → Option B) {b : B}
    → then_some o f ≡ some b
    → (a : A) × (o ≡ some a) × (f a ≡ some b)
then_some_gave none f h = cc
then_some_gave (some a) f h = (a, refl, h)

-- The same of a call that may also fail.
pub chain_gave {ℓ κ} :
    {Error : Type 0} {A : Type ℓ} {B : Type κ} (call : Outcome Error A) (next : A → Outcome Error B)
    {answer : B}
    → (call >>= next) ≡ ok answer
    → (a : A) × (call ≡ ok a) × (next a ≡ ok answer)
chain_gave panic next gave = cc
chain_gave (err failure) next gave = cc
chain_gave (ok a) next gave = (a, refl, gave)

pub or_panic_gave {ℓ} :
    {Error : Type 0} {A : Type ℓ} (read : Option A) {a : A}
    → or_panic {E = Error} read ≡ ok a
    → read ≡ some a
or_panic_gave none gave = cc
or_panic_gave (some b) gave = ground arith

-- Two chains that begin with the same call: if what follows in the one succeeds only where what
-- follows in the other does, the chains do.
pub >>=-implies {ℓ κ μ} :
    {E : Type 0} {A : Type ℓ} {B : Type κ} {C : Type μ} (m : Outcome E A) (f : A → Outcome E B)
    (g : A → Outcome E C) {b : B} {c : C}
    → ((a : A) → m ≡ ok a → f a ≡ ok b → g a ≡ ok c)
    → (m >>= f) ≡ ok b
    → (m >>= g) ≡ ok c
>>=-implies (ok a) f g k h = k a refl h
>>=-implies (err e) f g k h = cc
>>=-implies panic f g k h = cc

pub guard-eq-ok {ℓ} :
    {E : Type 0} {B : Type ℓ} (c : Bool) (e : E) (k : Outcome E B) (b : B)
    → (guard c e >> k) ≡ ok b
    → (c ≡ true) × (k ≡ ok b)
guard-eq-ok true e k b h = (refl, h)
guard-eq-ok false e k b h = cc
