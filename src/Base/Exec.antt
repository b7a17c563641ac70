-- ===== src/Base/Exec.antt =====
-- Code with effects that may return an error: an action on the state of what it talks to (a node, a
-- database, a store). What was done before an error stays done, so the state comes back with it.
use Prim.Native.String.{String}
use mathlib.Core.List.{List}
use mathlib.Core.Path.{fun_ext, refl, ◌∙◌, ◌≡◌}
use omnicatena.Base.Result.{Arg, Error, Result, err, ok, wrap}

abbrev pub Exec {ℓ} : Type 0 → Type ℓ → Type ℓ
Exec S A = S → Result A × S

abbrev pub pure {ℓ} : {S : Type 0} {A : Type ℓ} → A → Exec S A
pure a s = (ok a, s)

abbrev pub fail {ℓ} : {S : Type 0} {A : Type ℓ} → Error → Exec S A
fail e s = (err e, s)

abbrev pub lift {ℓ} : {S : Type 0} {A : Type ℓ} → Result A → Exec S A
lift r s = (r, s)

abbrev pub continue {ℓ κ} :
    {S : Type 0} {A : Type ℓ} {B : Type κ} → Result A × S → (A → Exec S B) → Result B × S
continue (ok a, s) f = f a s
continue (err e, s) f = (err e, s)

infixl 5 ◌>>=◌ ◌>>◌
abbrev pub ◌>>=◌ {ℓ κ} :
    {S : Type 0} {A : Type ℓ} {B : Type κ} → Exec S A → (A → Exec S B) → Exec S B
◌>>=◌ m f s = continue (m s) f

abbrev pub ◌>>◌ {ℓ} : {S : Type 0} {B : Type ℓ} → Exec S (Unit {0}) → Exec S B → Exec S B
m >> k = m >>= λ _. k

abbrev pub wrapped {ℓ} : {S : Type 0} {A : Type ℓ} → String → List Arg → Exec S A → Exec S A
wrapped f args m s = let (r, s') = m s in (wrap f args r, s')

-- `r, err := m; if err != nil { … } else { … }`
abbrev pub attempt {ℓ} : {S : Type 0} {A : Type ℓ} → Exec S A → Exec S (Result A)
attempt m s = let (r, s') = m s in (ok r, s')

-- An action on one part of the state.
abbrev pub on_left {ℓ} : {S T : Type 0} {A : Type ℓ} → Exec S A → Exec (S × T) A
on_left m (s, t) = let (r, s') = m s in (r, (s', t))

abbrev pub on_right {ℓ} : {S T : Type 0} {A : Type ℓ} → Exec T A → Exec (S × T) A
on_right m (s, t) = let (r, t') = m t in (r, (s, t'))

pub >>-assoc {ℓ} :
    {S : Type 0} {A : Type ℓ} (m k : Exec S (Unit {0})) (n : Exec S A)
    → ((m >> k) >> n) ≡ (m >> (k >> n))
>>-assoc {S = S} {A} m k n = fun_ext (λ s. go (m s))
  where
    go :
        (r : Result (Unit {0}) × S)
        → continue (continue r (λ _. k)) (λ _. n) ≡ continue r (λ _. k >> n)
    go (ok u, t) = refl
    go (err e, t) = refl

-- An action that succeeded, taken apart into its steps.
pub bind-inv {ℓ κ μ} :
    {S : Type 0} {A : Type ℓ} {B : Type κ} {C : Type μ} (m : Exec S A) (f : A → Exec S B) {s t : S}
    {b : B}
    → (m >>= f) s ≡ (ok b, t)
    → ((a : A) (s' : S) → m s ≡ (ok a, s') → f a s' ≡ (ok b, t) → C)
    → C
bind-inv {S = S} {A} {B} {C} m f {s} {t} {b} h k = go (m s) refl h
  where
    go : (x : Result A × S) → m s ≡ x → continue x f ≡ (ok b, t) → C
    go (ok a, s') e e' = k a s' e e'
    go (err er, s') e e' = absurd (cc)

pub wrapped-inv {ℓ} :
    {S : Type 0} {A : Type ℓ} (f : String) (args : List Arg) (m : Exec S A) {s t : S} {a : A}
    → wrapped f args m s ≡ (ok a, t)
    → m s ≡ (ok a, t)
wrapped-inv {S = S} {A} f args m {s} {t} {a} h = go (m s) refl h
  where
    go :
        (x : Result A × S)
        → m s ≡ x
        → ◌≡◌ {A = Result A × S} (wrap f args x.0, x.1) (ok a, t)
        → m s ≡ (ok a, t)
    go (ok b, s') e e' = e ∙ e'
    go (err er, s') e e' = absurd (cc)

pub lift-inv {ℓ κ μ} :
    {S : Type 0} {A : Type ℓ} {B : Type κ} {C : Type μ} (r : Result A) (f : A → Exec S B) {s t : S}
    {b : B}
    → (lift r >>= f) s ≡ (ok b, t)
    → ((a : A) → r ≡ ok a → f a s ≡ (ok b, t) → C)
    → C
lift-inv (ok a) f h k = k a refl h
lift-inv (err e) f h k = absurd (cc)

-- The same of a step that cannot change the state, and of one that may, with a wrapped error.
pub pure-inv {ℓ κ μ} :
    {S : Type 0} {A : Type ℓ} {B : Type κ} {C : Type μ} (t : String) (args : List Arg)
    (r : Result A) (f : A → Exec S B) {s u : S} {b : B}
    → (wrapped t args (lift r) >>= f) s ≡ (ok b, u)
    → ((a : A) → r ≡ ok a → f a s ≡ (ok b, u) → C)
    → C
pure-inv t args (ok a) f h k = k a refl h
pure-inv t args (err e) f h k = absurd (cc)

pub call-inv {ℓ κ μ} :
    {S : Type 0} {A : Type ℓ} {B : Type κ} {C : Type μ} (t : String) (args : List Arg)
    (m : Exec S A) (f : A → Exec S B) {s u : S} {b : B}
    → (wrapped t args m >>= f) s ≡ (ok b, u)
    → ((a : A) (s' : S) → m s ≡ (ok a, s') → f a s' ≡ (ok b, u) → C)
    → C
call-inv t args m f {s} h k =
    bind-inv (wrapped t args m) f {s = s} h λ a s' e e'. k a s' (wrapped-inv t args m {s = s} e) e'
