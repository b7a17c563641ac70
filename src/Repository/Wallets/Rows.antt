-- ===== src/Repository/Wallets/Rows.antt =====
-- What an update of the rows of a key does to the selection of rows by that key and by another.
use mathlib.Core.Bool.{Bool, false, not, true}
use mathlib.Core.List.{List, [], ◌++◌, ◌∷◌}
use mathlib.Core.Logic.{inl, inr}
use mathlib.Core.Option.{Option, none, some, some-injective}
use mathlib.Core.Path.{ap, refl, subst, ◌∙◌, ◌≡◌}
use omnicatena.Base.{Bool-cases}
use omnicatena.Repository.Wallets.{find_row, replace_rows, rows_where}

module _ {ℓ} {A : Type ℓ} (p : A → Bool) where
  pub find_row-append :
      (xs ys : List A) → find_row p xs ≡ none → find_row p (xs ++ ys) ≡ find_row p ys
  unfolding find_row
  find_row-append [] ys h = refl
  find_row-append (x ∷ xs) ys h = elim (Bool-cases (p x)) [
    | inl e ↦ absurd (let bad : ◌≡◌ {A = Option A} (some x) none = (rw e at h) in cc)
    | inr e ↦ rw e (find_row-append xs ys (rw e at h))
  ]

  pub find_row-append_found :
      (xs ys : List A) {r : A} → find_row p xs ≡ some r → find_row p (xs ++ ys) ≡ some r
  unfolding find_row
  find_row-append_found [] ys h = absurd (cc)
  find_row-append_found (x ∷ xs) ys h = elim (Bool-cases (p x)) [
    | inl e ↦ rw e (rw e at h)
    | inr e ↦ rw e (find_row-append_found xs ys (rw e at h))
  ]

  pub find_row-holds : (xs : List A) {r : A} → find_row p xs ≡ some r → p r ≡ true
  unfolding find_row
  find_row-holds [] h = absurd (cc)
  find_row-holds (x ∷ xs) {r} h = elim (Bool-cases (p x)) [
    | inl e ↦ let f : x ≡ r = some-injective x r (rw e at h) in subst (λ y. p y ≡ true) f e
    | inr e ↦ find_row-holds xs (rw e at h)
  ]

  pub find_row-others : (xs : List A) → find_row p (rows_where (λ r. not (p r)) xs) ≡ none
  unfolding find_row rows_where
  find_row-others [] = refl
  find_row-others (x ∷ xs) = elim (Bool-cases (p x)) [
    | inl e ↦ rw e (find_row-others xs)
    | inr e ↦ rw (e, e) (find_row-others xs)
  ]

  pub find_row-replace_rows :
      (r : A) (xs : List A) → p r ≡ true → find_row p (replace_rows p r xs) ≡ some r
  unfolding replace_rows find_row
  find_row-replace_rows r xs h =
      find_row-append (rows_where (λ x. not (p x)) xs) (r ∷ []) (find_row-others xs) ∙ rw h refl

  module _ (q : A → Bool) (apart : (x : A) → p x ≡ true → q x ≡ false) where
    pub find_row-kept :
        (r : A) (xs : List A) → p r ≡ false → find_row p (replace_rows q r xs) ≡ find_row p xs
    unfolding replace_rows find_row rows_where
    find_row-kept r [] h = rw h refl
    find_row-kept r (x ∷ xs) h = elim (Bool-cases (p x)) [
      | inl e ↦ rw (apart x e, e) refl
      | inr e ↦ elim (Bool-cases (q x)) [
        | inl f ↦ rw (f, e) (find_row-kept r xs h)
        | inr f ↦ rw (f, e) (find_row-kept r xs h)
      ]
    ]

    pub rows_where-kept :
        (r : A) (xs : List A) → p r ≡ false → rows_where p (replace_rows q r xs) ≡ rows_where p xs
    unfolding replace_rows rows_where
    rows_where-kept r [] h = rw h refl
    rows_where-kept r (x ∷ xs) h = elim (Bool-cases (p x)) [
      | inl e ↦ rw (apart x e, e) (ap (◌∷◌ x) (rows_where-kept r xs h))
      | inr e ↦ elim (Bool-cases (q x)) [
        | inl f ↦ rw (f, e) (rows_where-kept r xs h)
        | inr f ↦ rw (f, e) (rows_where-kept r xs h)
      ]
    ]
