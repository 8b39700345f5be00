-- ===== src/Base/Rows.antt =====
-- Tables as lists of rows, newest first: the queries and updates that the services make of them.
use Prim.Native.Nat.{ℕ, suc}
use mathlib.Core.Path.{◌≡◌, refl}
use mathlib.Core.Logic.{◌≢◌}
use mathlib.Core.Bool.{Bool, true, false, ◌||◌}
use mathlib.Core.Option.{Option, none, some}
use mathlib.Core.List.{List, [], ◌∷◌}
use native.Mathlib.Omega.{arith}
use aleyacloud_relay.Base.Tests.{◌==◌, if◌then◌else◌, is_some}

module _ {ℓ} {A : Type ℓ} where
  abbrev pub length : List A → ℕ
  length [] = 0
  length (x ∷ xs) = suc (length xs)

  -- `filter(...).first()`
  unfoldable pub find : (A → Bool) → List A → Option A
  find p [] = none
  find p (x ∷ xs) = if p x then some x else find p xs

  -- `filter(...)`
  unfoldable pub select : (A → Bool) → List A → List A
  select p [] = []
  select p (x ∷ xs) = let rest = select p xs in if p x then x ∷ rest else rest

  unfoldable pub any : (A → Bool) → List A → Bool
  any p [] = false
  any p (x ∷ xs) = p x || any p xs

  -- `filter(...).exists()`
  unfoldable pub exists : (A → Bool) → List A → Bool
  exists p xs = is_some (find p xs)

  unfoldable pub count : (A → Bool) → List A → ℕ
  count p [] = 0
  count p (x ∷ xs) = let rest = count p xs in if p x then suc rest else rest

  -- `row.save()`: the row with the same primary key is written over.
  unfoldable pub save : (A → ℕ) → A → List A → List A
  save key row [] = []
  save key row (x ∷ xs) = (if key x == key row then row else x) ∷ save key row xs

  -- A saved row is what a query finds that found it before and that it still meets.
  pub find-save :
      (p : A → Bool) (key : A → ℕ) (old row : A) (xs : List A)
      → key row ≡ key old
      → p row ≡ true
      → find p xs ≡ some old
      → find p (save key row xs) ≡ some row
  unfolding find save
  find-save p key old row [] k pr e = ground arith
  find-save p key old row (x ∷ xs) k pr e = ground (arith, find-save p key old row xs k pr)

  -- A query that neither the saved row nor the rows of its key meet is not changed.
  pub find-save_other :
      (p : A → Bool) (key : A → ℕ) (row : A) (xs : List A)
      → ((x : A) → key x ≡ key row → p x ≡ false)
      → find p (save key row xs) ≡ find p xs
  unfolding find save
  find-save_other p key row [] h = refl
  find-save_other p key row (x ∷ xs) h =
      ground (arith, h row refl, h x, find-save_other p key row xs h)

  pub length-save : (key : A → ℕ) (row : A) (xs : List A) → length (save key row xs) ≡ length xs
  unfolding save
  length-save key row [] = refl
  length-save key row (x ∷ xs) = omega (arith, length-save key row xs)

  -- No row is found that would have to be the saved row, which the query does not meet.
  pub find-save-none :
      (p : A → Bool) (key : A → ℕ) (row : A) (xs : List A)
      → p row ≡ false
      → ((x : A) → p x ≡ true → key x ≡ key row)
      → find p (save key row xs) ≡ none
  unfolding find save
  find-save-none p key row [] miss h = refl
  find-save-none p key row (x ∷ xs) miss h = ground (arith, h x, find-save-none p key row xs miss h)

  -- A query that the saved row does not meet finds nothing new.
  pub find-save_less :
      (p : A → Bool) (key : A → ℕ) (row : A) (xs : List A)
      → p row ≡ false
      → find p xs ≡ none
      → find p (save key row xs) ≡ none
  unfolding find save
  find-save_less p key row [] miss e = refl
  find-save_less p key row (x ∷ xs) miss e = ground (arith, find-save_less p key row xs miss)

  -- A saved row stays found by its key.
  pub find-save_key :
      (key : A → ℕ) (i : ℕ) (row : A) (xs : List A)
      → find (λ x. key x == i) xs ≢ none
      → find (λ x. key x == i) (save key row xs) ≢ none
  unfolding find save
  find-save_key key i row [] h = h
  find-save_key key i row (x ∷ xs) h = ground (arith, find-save_key key i row xs)

  -- A row that meets a stronger query meets the weaker one.
  pub find-weaken :
      (p q : A → Bool) (xs : List A)
      → ((x : A) → p x ≡ true → q x ≡ true)
      → find q xs ≡ none
      → find p xs ≡ none
  unfolding find
  find-weaken p q [] h e = refl
  find-weaken p q (x ∷ xs) h e = ground (arith, h x, find-weaken p q xs h)

  -- A row of a stronger query is a row of the weaker one.
  pub find-exists :
      (p q : A → Bool) (a : A) (xs : List A)
      → ((x : A) → q x ≡ true → p x ≡ true)
      → find q xs ≡ some a
      → exists p xs ≡ true
  unfolding find exists
  find-exists p q a [] h e = ground arith
  find-exists p q a (x ∷ xs) h e = ground (arith, h x, find-exists p q a xs h)

  -- Where no row meets the weaker query, none meets the stronger one.
  pub exists-find :
      (p q : A → Bool) (xs : List A)
      → ((x : A) → q x ≡ true → p x ≡ true)
      → exists p xs ≡ false
      → find q xs ≡ none
  unfolding find exists
  exists-find p q [] h e = refl
  exists-find p q (x ∷ xs) h e = ground (arith, h x, exists-find p q xs h)

  -- What a query finds meets it.
  pub find_sound : (p : A → Bool) (a : A) (xs : List A) → find p xs ≡ some a → p a ≡ true
  unfolding find
  find_sound p a [] e = ground arith
  find_sound p a (x ∷ xs) e = ground (arith, find_sound p a xs)

  -- A found row that meets another query is a row of it.
  pub find-exists_at :
      (p q : A → Bool) (a : A) (xs : List A) → find q xs ≡ some a → p a ≡ true → exists p xs ≡ true
  unfolding find exists
  find-exists_at p q a [] e h = ground arith
  find-exists_at p q a (x ∷ xs) e h = ground (arith, find-exists_at p q a xs)

  -- A found row that is not the saved one stays found, unless the query meets the saved row.
  pub find-save_apart :
      (p : A → Bool) (key : A → ℕ) (found row : A) (xs : List A)
      → p row ≡ false
      → (key found == key row) ≡ false
      → find p xs ≡ some found
      → find p (save key row xs) ≡ some found
  unfolding find save
  find-save_apart p key found row [] miss apart e = ground arith
  find-save_apart p key found row (x ∷ xs) miss apart e =
      ground (arith, find-save_apart p key found row xs miss apart)
