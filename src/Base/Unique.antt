-- ===== src/Base/Unique.antt =====
-- Tables of rows with unique keys.
use Prim.Native.Nat.{ℕ, ◌≤◌, ◌<◌}
use mathlib.Core.Path.{◌≡◌, refl, subst}
use mathlib.Core.Bool.{Bool, true}
use mathlib.Core.Option.{none, some}
use mathlib.Core.List.{List, [], ◌∷◌}
use native.Mathlib.Omega.{arith}
use aleyacloud_relay.Base.Tests.{◌==◌}
use aleyacloud_relay.Base.Rows.{find, count, save, exists}

module _ {ℓ} {A : Type ℓ} (key : A → ℕ) where
  count_found :
      (q : A → Bool) (a : A) (xs : List A) → find q xs ≡ some a → 0 < count (λ x. key x == key a) xs
  unfolding find count
  count_found q a [] h = ground arith
  count_found q a (x ∷ xs) h = ground (arith, count_found q a xs)

  -- Where a key stands once, whatever query finds its row finds the same row.
  pub find_unique :
      (q : A → Bool) (a b : A) (xs : List A)
      → count (λ x. key x == key a) xs ≤ 1
      → find q xs ≡ some a
      → find (λ x. key x == key a) xs ≡ some b
      → a ≡ b
  unfolding find count
  find_unique q a b [] once h k = ground arith
  find_unique q a b (x ∷ xs) once h k = ground (arith, count_found q a xs, find_unique q a b xs)

  pub count-save_keys :
      (j : ℕ) (row : A) (xs : List A)
      → count (λ x. key x == j) (save key row xs) ≡ count (λ x. key x == j) xs
  unfolding count save
  count-save_keys j row [] = refl
  count-save_keys j row (x ∷ xs) = ground (arith, count-save_keys j row xs)

  pub count_missing :
      (j : ℕ) (xs : List A) → find (λ x. key x == j) xs ≡ none → count (λ x. key x == j) xs ≡ 0
  unfolding find count
  count_missing j [] h = refl
  count_missing j (x ∷ xs) h = ground (arith, count_missing j xs)

  found_at :
      (r : A → Bool) (a b : A) (xs : List A)
      → key b ≡ key a
      → find r xs ≡ some b
      → 0 < count (λ x. key x == key a) xs
  found_at r a b xs same h =
      subst (λ (k : ℕ). 0 < count (λ x. key x == k) xs) same (count_found r b xs h)

  -- Where a key stands once, two queries that find rows of it find the same row.
  pub find_same :
      (q r : A → Bool) (a b : A) (xs : List A)
      → count (λ x. key x == key a) xs ≤ 1
      → key b ≡ key a
      → find q xs ≡ some a
      → find r xs ≡ some b
      → a ≡ b
  unfolding find count
  find_same q r a b [] once same h k = ground arith
  find_same q r a b (x ∷ xs) once same h k =
      ground (arith, count_found q a xs, found_at r a b xs same, find_same q r a b xs)

  save_absent :
      (old row : A) (xs : List A)
      → key row ≡ key old
      → count (λ x. key x == key old) xs ≡ 0
      → save key row xs ≡ xs
  unfolding count save
  save_absent old row [] same absent = refl
  save_absent old row (x ∷ xs) same absent = ground (arith, save_absent old row xs same)

  -- Where a key stands once, a query that meets the saved row where it met the old one still finds a row.
  pub exists-save :
      (p q : A → Bool) (old row : A) (xs : List A)
      → key row ≡ key old
      → count (λ x. key x == key old) xs ≤ 1
      → find q xs ≡ some old
      → (p old ≡ true → p row ≡ true)
      → exists p xs ≡ true
      → exists p (save key row xs) ≡ true
  unfolding find count save exists
  exists-save p q old row [] same once hit keeps there = ground arith
  exists-save p q old row (x ∷ xs) same once hit keeps there =
      ground
        (arith, count_found q old xs, save_absent old row xs same, exists-save p q old row xs same)
