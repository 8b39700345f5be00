-- ===== src/Media/Filenames.antt =====
-- `_safe_filename` of relay/content/services.py.
use aleyacloud_relay.Base.{
  ℕ, Bool, true, false, not, List, [], ◌∷◌, ◌≡◌, refl, inl, inr, arith, leb, select, any, length,
  is_empty, strip, split_slash, Bool-cases,
}
use aleyacloud_relay.Media.Upload.{take_text, image_name, is_safe, safe_filename, last_part}

unsafe_in : (ℕ → Bool) → List ℕ → Bool
unsafe_in isalnum = any (λ c. not (is_safe isalnum c))

any-select : (p : ℕ → Bool) (s : List ℕ) → any (λ c. not (p c)) (select p s) ≡ false
unfolding any select
any-select p [] = refl
any-select p (c ∷ s) = ground (arith, any-select p s)

any-take_text :
    (p : ℕ → Bool) (n : ℕ) (s : List ℕ) → any p s ≡ false → any p (take_text n s) ≡ false
unfolding any take_text
any-take_text p ℕ.zero s h = refl
any-take_text p (ℕ.suc n) [] h = refl
any-take_text p (ℕ.suc n) (c ∷ s) h = ground (arith, any-take_text p n s)

length-take_text : (n : ℕ) (s : List ℕ) → leb (length (take_text n s)) n ≡ true
unfolding take_text
length-take_text ℕ.zero s = ground arith
length-take_text (ℕ.suc n) [] = ground arith
length-take_text (ℕ.suc n) (c ∷ s) = ground (arith, length-take_text n s)

module _ (isalnum isspace : ℕ → Bool) where
  image_name-safe :
      ((c : ℕ) → leb b'a' c ≡ true → leb c b'z' ≡ true → isalnum c ≡ true)
      → any (λ c. not (is_safe isalnum c)) image_name ≡ false
  unfolding any is_safe
  image_name-safe letters =
      rw
        (
          letters b'i' refl refl,
          letters b'm' refl refl,
          letters b'a' refl refl,
          letters b'g' refl refl,
          letters b'e' refl refl,
        )
        refl

  -- The name that a file is stored under is not empty, has at most 120 characters, and each of them is
  -- alphanumeric, a dot, a dash or an underscore; so where a slash is not alphanumeric the name adds
  -- no folder to the key. This takes that the letters a to z are alphanumeric.
  pub safe_filename-safe :
      (filename : List ℕ)
      → ((c : ℕ) → leb b'a' c ≡ true → leb c b'z' ≡ true → isalnum c ≡ true)
      → (any (λ c. not (is_safe isalnum c)) (safe_filename isalnum isspace filename) ≡ false)
        × (is_empty (safe_filename isalnum isspace filename) ≡ false)
        × (leb (length (safe_filename isalnum isspace filename)) 120 ≡ true)
  unfolding safe_filename
  safe_filename-safe filename letters =
      let name : List ℕ = strip isspace (last_part (split_slash filename)) in
      let kept : List ℕ = take_text 120 (select (is_safe isalnum) name) in
      let fallback = image_name-safe letters in
      let safe =
        any-take_text (λ c. not (is_safe isalnum c)) 120 (select (is_safe isalnum) name)
          (any-select (is_safe isalnum) name) in
      let short = length-take_text 120 (select (is_safe isalnum) name) in
      elim (Bool-cases (is_empty name)) [
        | inl e ↦ rw e (fallback, refl, refl)
        | inr e ↦ elim (Bool-cases (is_empty kept)) [
          | inl k ↦ rw (e, k) (fallback, refl, refl)
          | inr k ↦ rw (e, k) (safe, k, short)
        ]
      ]
