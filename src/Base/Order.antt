-- ===== src/Base/Order.antt =====
-- `order_by`: a stable sort of the rows of a query.
use mathlib.Core.Path.{◌≡◌, refl, ap, ◌∙◌}
use mathlib.Core.Bool.{Bool, true, false, ◌||◌}
use mathlib.Core.Option.{some}
use mathlib.Core.Logic.{inl, inr}
use aleyacloud_relay.Base.Tests.{Bool-cases}
use mathlib.Core.List.{List, [], ◌∷◌, map}
use native.Mathlib.Omega.{arith}
use aleyacloud_relay.Base.Tests.{if◌then◌else◌}
use aleyacloud_relay.Base.Rows.{find, select, any}

module _ {ℓ} {A : Type ℓ} (before : A → A → Bool) where
  unfoldable pub insert_by : A → List A → List A
  insert_by x [] = x ∷ []
  insert_by x (y ∷ ys) = if before x y then x ∷ y ∷ ys else y ∷ insert_by x ys

  unfoldable pub sort_by : List A → List A
  sort_by [] = []
  sort_by (x ∷ xs) = insert_by x (sort_by xs)

  any-insert_by : (q : A → Bool) (x : A) (ys : List A) → any q (insert_by x ys) ≡ (q x || any q ys)
  unfolding any insert_by
  any-insert_by q x [] = refl
  any-insert_by q x (y ∷ ys) = ground (arith, any-insert_by q x ys)

  -- Sorting keeps the rows.
  pub any-sort_by : (q : A → Bool) (xs : List A) → any q (sort_by xs) ≡ any q xs
  unfolding any sort_by
  any-sort_by q [] = refl
  any-sort_by q (x ∷ xs) = ground (arith, any-insert_by q x (sort_by xs), any-sort_by q xs)

-- Rows of a selection.
module _ {ℓ} {A : Type ℓ} where
  -- A row that a query finds and that meets two tests is there for the second among those of the first.
  pub any-select_found :
      (r p q : A → Bool) (a : A) (xs : List A)
      → find r xs ≡ some a
      → p a ≡ true
      → q a ≡ true
      → any q (select p xs) ≡ true
  unfolding find any select
  any-select_found r p q a [] h hp hq = ground arith
  any-select_found r p q a (x ∷ xs) h hp hq = ground (arith, any-select_found r p q a xs)

  -- What is there is found.
  pub any-find : (q : A → Bool) (xs : List A) → any q xs ≡ true → (a : A) × (find q xs ≡ some a)
  unfolding any find
  any-find q [] h = ground arith
  any-find q (x ∷ xs) h = elim (Bool-cases (q x)) [
    | inl hit ↦ (x, ground arith)
    | inr miss ↦ let (a, found) = any-find q xs (ground arith) in (a, ground arith)
  ]

  -- A selection has no row that does not meet its test.
  pub any_not-select :
      (p q : A → Bool) (xs : List A)
      → ((x : A) → p x ≡ true → q x ≡ false)
      → any q (select p xs) ≡ false
  unfolding any select
  any_not-select p q [] h = refl
  any_not-select p q (x ∷ xs) h = ground (arith, h x, any_not-select p q xs h)

-- Rows that look the same to an order and to a view of them are sorted alike.
module _ {ℓ κ} {A : Type ℓ} {B : Type κ} (f : A → B) where
  map-insert_by :
      (b : A → A → Bool) (c : B → B → Bool)
      → ((x y : A) → c (f x) (f y) ≡ b x y)
      → (x : A) (ys : List A) → map f (insert_by b x ys) ≡ insert_by c (f x) (map f ys)
  unfolding insert_by
  map-insert_by b c h x [] = refl
  map-insert_by b c h x (y ∷ ys) = ground (arith, h x y, map-insert_by b c h x ys)

  pub map-sort_by :
      (b : A → A → Bool) (c : B → B → Bool)
      → ((x y : A) → c (f x) (f y) ≡ b x y)
      → (xs : List A) → map f (sort_by b xs) ≡ sort_by c (map f xs)
  unfolding sort_by
  map-sort_by b c h [] = refl
  map-sort_by b c h (x ∷ xs) =
      map-insert_by b c h x (sort_by b xs) ∙ ap (insert_by c (f x)) (map-sort_by b c h xs)

  pub map-select :
      (p : A → Bool) (q : B → Bool)
      → ((x : A) → q (f x) ≡ p x)
      → (xs : List A) → map f (select p xs) ≡ select q (map f xs)
  unfolding select
  map-select p q h [] = refl
  map-select p q h (x ∷ xs) = ground (arith, h x, map-select p q h xs)
