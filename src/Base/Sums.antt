-- ===== src/Base/Sums.antt =====
-- Sums over a list, and the best that k of its elements can sum to.
use Prim.Native.Nat.{suc, zero, ℕ, ◌*◌, ◌+◌, ◌-◌, ◌≤◌}
use mathlib.Core.List.{List, Perm, [], foldr, ◌++◌, ◌∷◌}
use mathlib.Core.List.Perm
use mathlib.Core.Path.{ap, refl, subst, sym, ◌∙◌, ◌≡◌}
use native.Mathlib.Nat.{ℕ_set}
use native.Mathlib.Omega.{arith}
use omnicatena.Base.Lists.{All, drop, length, take, take-append-drop}

module _ {ℓ} {A : Type ℓ} where
  abbrev pub sum : (A → ℕ) → List A → ℕ
  sum f [] = 0
  sum f (x ∷ xs) = f x + sum f xs

  pub sum-append : (f : A → ℕ) (xs ys : List A) → sum f (xs ++ ys) ≡ sum f xs + sum f ys
  sum-append f [] ys = omega arith
  sum-append f (x ∷ xs) ys = omega (arith, sum-append f xs ys)

  sum-foldr : (f : A → ℕ) (xs : List A) → foldr (λ x n. f x + n) 0 xs ≡ sum f xs
  sum-foldr f [] = refl
  sum-foldr f (x ∷ xs) = ap (λ (n : ℕ). f x + n) (sum-foldr f xs)

  pub sum-perm : (f : A → ℕ) {xs ys : List A} → Perm xs ys → sum f xs ≡ sum f ys
  sum-perm f {xs} {ys} p =
      sym (sum-foldr f xs)
      ∙ Perm.foldr-eq ℕ_set (λ x n. f x + n) (λ a b x. omega arith) p 0
      ∙ sum-foldr f ys

  pub sum-eq-zero : (f : A → ℕ) (xs : List A) → All (λ x. f x ≡ 0) xs → sum f xs ≡ 0
  sum-eq-zero f [] h = refl
  sum-eq-zero f (x ∷ xs) (hx, hxs) = omega (arith, sum-eq-zero f xs hxs)

  pub All-of_sum : (f : A → ℕ) (xs : List A) → sum f xs ≡ 0 → All (λ x. f x ≡ 0) xs
  All-of_sum f [] h = tt
  All-of_sum f (x ∷ xs) h = (omega arith, All-of_sum f xs (omega arith))

  module _ (f : A → ℕ) where
    -- largest first
    abbrev pub Descending : List A → Type 0
    Descending [] = Unit
    Descending (x ∷ xs) = All (λ y. f y ≤ f x) xs × Descending xs

    le-add_excess : (t : ℕ) (xs : List A) → sum f xs ≤ length xs * t + sum (λ x. f x - t) xs
    le-add_excess t [] = omega arith
    le-add_excess t (x ∷ xs) = omega (arith, le-add_excess t xs)

    add_excess_above :
        (t : ℕ) (xs : List A)
        → All (λ x. t ≤ f x) xs
        → sum f xs ≡ length xs * t + sum (λ x. f x - t) xs
    add_excess_above t [] h = omega arith
    add_excess_above t (x ∷ xs) (hx, hxs) = omega (arith, add_excess_above t xs hxs)

    no_excess_below : (t : ℕ) (xs : List A) → All (λ x. f x ≤ t) xs → sum (λ x. f x - t) xs ≡ 0
    no_excess_below t [] h = refl
    no_excess_below t (x ∷ xs) (hx, hxs) = omega (arith, no_excess_below t xs hxs)

    -- An element of the tail splits a descending list at its own value.
    All-take :
        (k : ℕ) (t : ℕ) (xs : List A) → All (λ y. f y ≤ t) xs → All (λ y. f y ≤ t) (drop k xs)
    All-take zero t xs h = h
    All-take (suc k) t [] h = tt
    All-take (suc k) t (x ∷ xs) h = All-take k t xs h.1

    above_drop :
        (k : ℕ) (xs : List A) {d : A} {ds : List A}
        → Descending xs
        → drop k xs ≡ d ∷ ds
        → All (λ y. f d ≤ f y) (take k xs) × (length (take k xs) ≡ k)
    above_drop zero xs h e = (tt, refl)
    above_drop (suc k) [] h e = cc
    above_drop (suc k) (x ∷ xs) {d} {ds} h e =
        let ih = above_drop k xs h.1 e in
        let b : All (λ y. f y ≤ f x) (d ∷ ds) =
          subst (All (λ y. f y ≤ f x)) e (All-take k (f x) xs h.0) in
        ((b.0, ih.0), ap suc ih.1)

    abbrev BelowHead : List A → Type 0
    BelowHead [] = Unit
    BelowHead (d ∷ ds) = All (λ y. f y ≤ f d) (d ∷ ds)

    below_drop : (k : ℕ) (xs : List A) → Descending xs → BelowHead (drop k xs)
    below_drop zero [] h = tt
    below_drop zero (x ∷ xs) h = (omega arith, h.0)
    below_drop (suc k) [] h = tt
    below_drop (suc k) (x ∷ xs) h = below_drop k xs h.1

    sum_split : (g : A → ℕ) (k : ℕ) (xs : List A) → sum g xs ≡ sum g (take k xs) + sum g (drop k xs)
    sum_split g k xs =
        ap (sum g) (sym (take-append-drop k xs)) ∙ sum-append g (take k xs) (drop k xs)

    -- No choice of elements sums to more than as many of the largest.
    pub sum-le-take :
        (xs chosen others : List A)
        → Descending xs
        → Perm (chosen ++ others) xs
        → sum f chosen ≤ sum f (take (length chosen) xs)
    sum-le-take xs chosen others h p = go (drop k xs) refl
      where
        k : ℕ
        k = length chosen

        go : (tail : List A) → drop k xs ≡ tail → sum f chosen ≤ sum f (take k xs)
        go [] e =
            omega (arith, sum-perm f p, sum-append f chosen others, sum_split f k xs, ap (sum f) e)
        go (d ∷ ds) e =
            let t = f d in
            let g : A → ℕ = λ x. f x - t in
            let above = above_drop k xs h e in
            omega (
              arith,
              le-add_excess t chosen,
              sum-append g chosen others,
              sum-perm g p,
              sum_split g k xs,
              ap (sum g) e,
              no_excess_below t (d ∷ ds) (subst BelowHead e (below_drop k xs h)),
              add_excess_above t (take k xs) above.0,
              ap (λ (n : ℕ). n * t) above.1,
            )
