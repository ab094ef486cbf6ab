-- ===== src/Common/Sums.antt =====
-- Sums, sorts and selections of lists, and membership in them.
use src_visual.Common.Tests.{Bool-cases}
use src_visual.Common.Lists.{length, select, any, all, insert_by, sort_by}
use Prim.Native.Nat.{◌≤◌, ℕ, ◌+◌}
use mathlib.Core.Path.{subst, sym, ◌≡◌, refl, ap, ◌∙◌}
use mathlib.Core.Bool.{Bool, true, ◌||◌}
use mathlib.Core.Logic.{◌⊎◌, inl, inr}
use mathlib.Core.List.{List, [], ◌∷◌, map}
use native.Mathlib.Omega.{arith}

module _ {ℓ} {A : Type ℓ} where
  -- `sum(f(x) for x in xs)`
  abbrev pub sum : (A → ℕ) → List A → ℕ
  sum f [] = 0
  sum f (x ∷ xs) = f x + sum f xs

  pub sum-insert_by :
      (f : A → ℕ) (le : A → A → Bool) (x : A) (xs : List A)
      → sum f (insert_by le x xs) ≡ f x + sum f xs
  sum-insert_by f le x [] = refl
  sum-insert_by f le x (y ∷ ys) = elim (Bool-cases (le x y)) [
    | inl before ↦ rw before
    | inr after ↦ rw after (omega (arith, sum-insert_by f le x ys))
  ]

  pub sum-sort_by : (f : A → ℕ) (le : A → A → Bool) (xs : List A) → sum f (sort_by le xs) ≡ sum f xs
  sum-sort_by f le [] = refl
  sum-sort_by f le (x ∷ xs) =
      omega (arith, sum-insert_by f le x (sort_by le xs), sum-sort_by f le xs)

  pub length-sum : (xs : List A) → length xs ≡ sum (λ x. 1) xs
  length-sum [] = refl
  length-sum (x ∷ xs) = omega (arith, length-sum xs)

  pub length-sort_by : (le : A → A → Bool) (xs : List A) → length (sort_by le xs) ≡ length xs
  length-sort_by le xs =
      omega (arith, length-sum (sort_by le xs), length-sum xs, sum-sort_by (λ x. 1) le xs)

  pub any-insert_by :
      (p : A → Bool) (le : A → A → Bool) (x : A) (xs : List A)
      → any p (insert_by le x xs) ≡ (p x || any p xs)
  any-insert_by p le x [] = refl
  any-insert_by p le x (y ∷ ys) = elim (Bool-cases (le x y)) [
    | inl before ↦ rw before
    | inr after ↦ rw after (ground (arith, any-insert_by p le x ys))
  ]

  pub any-sort_by :
      (p : A → Bool) (le : A → A → Bool) (xs : List A) → any p (sort_by le xs) ≡ any p xs
  any-sort_by p le [] = refl
  any-sort_by p le (x ∷ xs) =
      any-insert_by p le x (sort_by le xs) ∙ ap (λ b. p x || b) (any-sort_by p le xs)

module _ {A : Type 0} where
  -- `x in xs`
  abbrev pub Has : A → List A → Type 0
  Has x [] = ⊥
  Has x (y ∷ ys) = (x ≡ y) ⊎ Has x ys

  Has-insert_by :
      (z : A) (le : A → A → Bool) (x : A) (xs : List A)
      → Has z (insert_by le x xs)
      → (z ≡ x) ⊎ Has z xs
  Has-insert_by z le x [] = λ h. h
  Has-insert_by z le x (y ∷ ys) = elim (Bool-cases (le x y)) [
    | inl before ↦ rw before (λ h. h)
    | inr after ↦ rw after (λ h. swapped (Has-insert_by z le x ys) h)
  ]
    where
      swapped :
          (Has z (insert_by le x ys) → (z ≡ x) ⊎ Has z ys)
          → (z ≡ y) ⊎ Has z (insert_by le x ys)
          → (z ≡ x) ⊎ Has z (y ∷ ys)
      swapped f (inl h) = inr (inl h)
      swapped f (inr h) = elim (f h) [ inl e ↦ inl e | inr k ↦ inr (inr k) ]

  pub Has-sort_by : (z : A) (le : A → A → Bool) (xs : List A) → Has z (sort_by le xs) → Has z xs
  Has-sort_by z le [] h = absurd h
  Has-sort_by z le (x ∷ xs) h = elim (Has-insert_by z le x (sort_by le xs) h) [
    | inl e ↦ inl e
    | inr k ↦ inr (Has-sort_by z le xs k)
  ]

  pub Has-select :
      (p : A → Bool) (x : A) (xs : List A) → Has x (select p xs) → (p x ≡ true) × Has x xs
  Has-select p x [] = λ h. absurd h
  Has-select p x (y ∷ ys) = elim (Bool-cases (p y)) [
    | inl kept ↦ rw kept (λ h. chosen (Has-select p x ys) kept h)
    | inr left ↦ rw left (λ h. let (c, k) = Has-select p x ys h in (c, inr k))
  ]
    where
      chosen :
          (Has x (select p ys) → (p x ≡ true) × Has x ys)
          → p y ≡ true
          → (x ≡ y) ⊎ Has x (select p ys)
          → (p x ≡ true) × Has x (y ∷ ys)
      chosen f kept (inl e) = (ap p e ∙ kept, inl e)
      chosen f kept (inr h) = let (c, k) = f h in (c, inr k)

  pub all-Has : (p : A → Bool) (xs : List A) → ((x : A) → Has x xs → p x ≡ true) → all p xs ≡ true
  all-Has p [] h = refl
  all-Has p (x ∷ xs) h = ground (arith, h x (inl refl), all-Has p xs (λ y k. h y (inr k)))

  pub select-Has :
      (p : A → Bool) (x : A) (xs : List A) → Has x xs → p x ≡ true → Has x (select p xs)
  select-Has p x [] k h = absurd k
  select-Has p x (y ∷ ys) (inl e) h = rw (ap p (sym e) ∙ h) (inl e)
  select-Has p x (y ∷ ys) (inr k) h = elim (Bool-cases (p y)) [
    | inl kept ↦ rw kept (inr (select-Has p x ys k h))
    | inr left ↦ rw left (select-Has p x ys k h)
  ]

  insert_by-Has_new : (le : A → A → Bool) (x : A) (xs : List A) → Has x (insert_by le x xs)
  insert_by-Has_new le x [] = inl refl
  insert_by-Has_new le x (y ∷ ys) = elim (Bool-cases (le x y)) [
    | inl before ↦ rw before (inl refl)
    | inr after ↦ rw after (inr (insert_by-Has_new le x ys))
  ]

  insert_by-Has :
      (z : A) (le : A → A → Bool) (x : A) (xs : List A) → Has z xs → Has z (insert_by le x xs)
  insert_by-Has z le x [] h = absurd h
  insert_by-Has z le x (y ∷ ys) h = elim (Bool-cases (le x y)) [
    | inl before ↦ rw before (inr h)
    | inr after ↦ rw after (elim h [ inl e ↦ inl e | inr k ↦ inr (insert_by-Has z le x ys k) ])
  ]

  pub sort_by-Has : (z : A) (le : A → A → Bool) (xs : List A) → Has z xs → Has z (sort_by le xs)
  sort_by-Has z le [] h = absurd h
  sort_by-Has z le (x ∷ xs) (inl e) =
      subst (λ (y : A). Has y (insert_by le x (sort_by le xs))) (sym e)
        (insert_by-Has_new le x (sort_by le xs))
  sort_by-Has z le (x ∷ xs) (inr k) = insert_by-Has z le x (sort_by le xs) (sort_by-Has z le xs k)

  pub sum-select-le : (f : A → ℕ) (p : A → Bool) (xs : List A) → sum f (select p xs) ≤ sum f xs
  sum-select-le f p [] = omega arith
  sum-select-le f p (x ∷ xs) = ground (arith, sum-select-le f p xs)

  pub select-same :
      (p q : A → Bool) (xs : List A) → ((x : A) → Has x xs → p x ≡ q x) → select p xs ≡ select q xs
  select-same p q [] h = refl
  select-same p q (x ∷ xs) h =
      ground (arith, h x (inl refl), select-same p q xs (λ y k. h y (inr k)))

  -- A condition that follows from another adds nothing to it.
  pub select-select :
      (p q : A → Bool) (xs : List A)
      → ((x : A) → Has x xs → p x ≡ true → q x ≡ true)
      → select p (select q xs) ≡ select p xs
  select-select p q [] h = refl
  select-select p q (x ∷ xs) h =
      ground (arith, h x (inl refl), select-select p q xs (λ y k. h y (inr k)))

module _ {A B : Type 0} where
  pub Has-map :
      (f : A → B) (z : B) (xs : List A) → Has z (map f xs) → (x : A) × Has x xs × (z ≡ f x)
  Has-map f z [] h = absurd h
  Has-map f z (x ∷ xs) (inl e) = (x, inl refl, e)
  Has-map f z (x ∷ xs) (inr k) = let (y, h, e) = Has-map f z xs k in (y, inr h, e)

  pub sum-map : (g : B → ℕ) (f : A → B) (xs : List A) → sum g (map f xs) ≡ sum (λ x. g (f x)) xs
  sum-map g f [] = refl
  sum-map g f (x ∷ xs) = omega (arith, sum-map g f xs)
