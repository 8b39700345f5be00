-- ===== src/Base/Keys.antt =====
-- Ids and the rows that they name: `in`, `dict.fromkeys` and the look-up of a list of ids.
use Prim.Native.Nat.{ℕ}
use mathlib.Core.Path.{◌≡◌, refl}
use mathlib.Core.Logic.{inl, inr}
use mathlib.Core.Bool.{Bool, true, false, not, ◌&&◌, ◌||◌}
use mathlib.Core.Option.{Option, none, some}
use mathlib.Core.List.{List, [], ◌∷◌, map}
use native.Mathlib.Omega.{arith}
use aleyacloud_relay.Base.Tests.{◌==◌, if◌then◌else◌, Option-cases, Bool-cases}
use aleyacloud_relay.Base.Rows.{find, select, count, find_sound}

-- `a in ids`
unfoldable pub elem : ℕ → List ℕ → Bool
elem a [] = false
elem a (x ∷ xs) = a == x || elem a xs

-- `list(dict.fromkeys(ids))`: each id once, where it stands first.
unfoldable pub from_keys : List ℕ → List ℕ
from_keys [] = []
from_keys (x ∷ xs) = x ∷ select (λ y. not (y == x)) (from_keys xs)

-- `[rows_by_id[id] for id in ids]`; `none` is a KeyError.
unfoldable pub get_all {ℓ} : {A : Type ℓ} → (A → ℕ) → List A → List ℕ → Option (List A)
get_all key rows [] = some []
get_all key rows (i ∷ is) =
    let rest = get_all key rows is in
    elim (find (λ x. key x == i) rows) [
      | none ↦ none
      | some row ↦ elim rest [ none ↦ none | some found ↦ some (row ∷ found) ]
    ]

-- Every element has the property.
abbrev pub All {ℓ κ} : {A : Type ℓ} → (A → Type κ) → List A → Type κ
All P [] = Unit
All P (x ∷ xs) = P x × All P xs

module _ {ℓ} {A : Type ℓ} where
  -- What is found among the selected rows meets the selection.
  pub find-select :
      (p q : A → Bool) (a : A) (xs : List A) → find q (select p xs) ≡ some a → p a ≡ true
  unfolding find select
  find-select p q a [] e = ground arith
  find-select p q a (x ∷ xs) e = ground (arith, find-select p q a xs)

  -- The rows that `get_all` returns are those asked for, in the order asked for, and selected ones.
  pub get_all_sound :
      (key : A → ℕ) (p : A → Bool) (rows found : List A) (ids : List ℕ)
      → get_all key (select p rows) ids ≡ some found
      → (map key found ≡ ids) × All (λ a. p a ≡ true) found
  unfolding get_all
  get_all_sound key p rows [] [] e = (refl, tt)
  get_all_sound key p rows (f ∷ fs) [] e = cc
  get_all_sound key p rows found (i ∷ ids) e =
      elim (Option-cases (find (λ x. key x == i) (select p rows))) [
        | inl miss ↦ ground arith
        | inr (row, hit) ↦ elim (Option-cases (get_all key (select p rows) ids)) [
          | inl miss ↦ ground arith
          | inr (rest, more) ↦
              let ih = get_all_sound key p rows rest ids more in
              let whole : row ∷ rest ≡ found = ground arith in
              rw (← whole) (
                ground (arith, ih.0, find_sound (λ x. key x == i) row (select p rows) hit),
                (find-select p (λ x. key x == i) row rows hit, ih.1),
              )
        ]
      ]

-- `from_keys` keeps the ids that it is given, each once.
pub elem-select :
    (a x : ℕ) (xs : List ℕ) → elem a (select (λ y. not (y == x)) xs) ≡ (not (a == x) && elem a xs)
unfolding elem select
elem-select a x [] = ground arith
elem-select a x (y ∷ xs) = ground (arith, elem-select a x xs)

pub elem-from_keys : (a : ℕ) (xs : List ℕ) → elem a (from_keys xs) ≡ elem a xs
unfolding elem from_keys
elem-from_keys a [] = refl
elem-from_keys a (x ∷ xs) = ground (arith, elem-select a x (from_keys xs), elem-from_keys a xs)

-- How often an id is listed.
abbrev pub occurrences : ℕ → List ℕ → ℕ
occurrences a xs = count (λ x. x == a) xs

pub occurrences-select :
    (a x : ℕ) (xs : List ℕ)
    → occurrences a (select (λ y. not (y == x)) xs) ≡ (if a == x then 0 else occurrences a xs)
unfolding count select
occurrences-select a x [] = ground arith
occurrences-select a x (y ∷ xs) = ground (arith, occurrences-select a x xs)

pub occurrences-from_keys :
    (a : ℕ) (xs : List ℕ) → occurrences a (from_keys xs) ≡ (if elem a xs then 1 else 0)
unfolding count from_keys elem
occurrences-from_keys a [] = refl
occurrences-from_keys a (x ∷ xs) =
    ground (arith, occurrences-select a x (from_keys xs), occurrences-from_keys a xs)

module _ {ℓ} {A : Type ℓ} where
  -- The selected rows are rows.
  pub elem-map-select :
      (i : ℕ) (key : A → ℕ) (p : A → Bool) (rows : List A)
      → elem i (map key (select p rows)) ≡ true
      → elem i (map key rows) ≡ true
  unfolding elem select
  elem-map-select i key p [] h = h
  elem-map-select i key p (x ∷ xs) h = ground (arith, elem-map-select i key p xs)

  find→elem :
      (i : ℕ) (key : A → ℕ) (row : A) (rows : List A)
      → find (λ x. key x == i) rows ≡ some row
      → elem i (map key rows) ≡ true
  unfolding elem find
  find→elem i key row [] h = ground arith
  find→elem i key row (x ∷ xs) h = ground (arith, find→elem i key row xs)

  -- Every id that `get_all` looks up is the id of a row.
  pub get_all-elem :
      (key : A → ℕ) (rows found : List A) (ids : List ℕ) (i : ℕ)
      → get_all key rows ids ≡ some found
      → elem i ids ≡ true
      → elem i (map key rows) ≡ true
  unfolding get_all elem
  get_all-elem key rows found [] i e h = cc
  get_all-elem key rows found (j ∷ ids) i e h = elim (Option-cases (find (λ x. key x == j) rows)) [
    | inl miss ↦ ground arith
    | inr (row, hit) ↦ elim (Option-cases (get_all key rows ids)) [
      | inl miss ↦ ground arith
      | inr (rest, more) ↦ elim (Bool-cases (i == j)) [
        | inl here ↦ let same : j ≡ i = ground arith in rw (← same) (find→elem j key row rows hit)
        | inr there ↦ get_all-elem key rows rest ids i more (ground arith)
      ]
    ]
  ]
