-- ===== src/Base/Result.antt =====
-- Go's `(value, error)` results. An error is the format text of `fmt.Errorf` with its arguments; one
-- that wraps another by %w keeps it, so that `errors.Is` can walk the chain.
use Prim.Native.Nat.{ℕ}
use Prim.Native.String.{String}
use mathlib.Core.Bool.{Bool, false}
use mathlib.Core.List.{List}
use mathlib.Core.Path.{ap, refl, ◌≡◌}
use omnicatena.Base.Equality.{string_eq, ◌==◌}
use omnicatena.Base.Int.{ℤ}

pub data Arg : Type 0 where
  str : String → Arg
  int : ℤ → Arg
  bytes : List ℕ → Arg

-- `sentinel` is an error value of a library, such as `pgx.ErrNoRows`, by its name.
pub data Error : Type 0 where
  sentinel : String → Error
  errorf : String → List Arg → Error
  wrapf : String → List Arg → Error → Error

-- `errors.Is`
unfoldable pub is_error : Error → String → Bool
is_error (sentinel n) m = n == m
is_error (errorf f args) m = false
is_error (wrapf f args e) m = is_error e m

pub data Result {ℓ} (A : Type ℓ) : Type ℓ where
  ok : A → Result A
  err : Error → Result A

infixl 5 ◌>>=◌ ◌>>◌ ◌|>◌
abbrev pub ◌>>=◌ {ℓ κ} : {X : Type ℓ} {Y : Type κ} → Result X → (X → Result Y) → Result Y
err e >>= k = err e
ok x >>= k = k x

abbrev pub ◌|>◌ {ℓ κ} : {A : Type ℓ} {B : Type κ} → Result A → (A → B) → Result B
ok a |> f = ok (f a)
err e |> f = err e

abbrev pub ◌>>◌ {ℓ} : {Y : Type ℓ} → Result (Unit {0}) → Result Y → Result Y
r >> next = r >>= λ _. next

-- `if err != nil { return fmt.Errorf("…: %w", err) }`
abbrev pub wrap {ℓ} : {A : Type ℓ} → String → List Arg → Result A → Result A
wrap f args (ok a) = ok a
wrap f args (err e) = err (wrapf f args e)

pub >>=-eq-ok {ℓ κ} :
    {X : Type ℓ} {Y : Type κ} (r : Result X) (k : X → Result Y) {y : Y}
    → (r >>= k) ≡ ok y
    → (x : X) × (r ≡ ok x) × (k x ≡ ok y)
>>=-eq-ok (err e) k h = cc
>>=-eq-ok (ok x) k h = (x, refl, h)

pub wrap-eq-ok {ℓ} :
    {A : Type ℓ} (f : String) (args : List Arg) (m : Result A) {a : A}
    → wrap f args m ≡ ok a
    → m ≡ ok a
wrap-eq-ok f args (ok a) h = h
wrap-eq-ok f args (err e) h = cc

pub |>-inv {ℓ κ} :
    {A : Type ℓ} {B : Type κ} (r : Result A) (f : A → B) {b : B}
    → (r |> f) ≡ ok b
    → (a : A) × (f a ≡ b)
|>-inv (ok a) f {b} h = (a, ap (λ x. elim x [ ok y ↦ y | err _ ↦ b ]) h)
|>-inv (err e) f h = absurd (cc)

-- The same with the parts handed on, for long chains.
pub >>=-inv {ℓ κ μ} :
    {A : Type ℓ} {B : Type κ} {C : Type μ} (m : Result A) (f : A → Result B) {b : B}
    → (m >>= f) ≡ ok b
    → ((a : A) → m ≡ ok a → f a ≡ ok b → C)
    → C
>>=-inv (ok a) f h k = k a refl h
>>=-inv (err e) f h k = absurd (cc)

pub wrap-inv {ℓ κ μ} :
    {A : Type ℓ} {B : Type κ} {C : Type μ} (t : String) (args : List Arg) (m : Result A)
    (f : A → Result B) {b : B}
    → (wrap t args m >>= f) ≡ ok b
    → ((a : A) → m ≡ ok a → f a ≡ ok b → C)
    → C
wrap-inv t args (ok a) f h k = k a refl h
wrap-inv t args (err e) f h k = absurd (cc)
