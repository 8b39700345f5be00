-- ===== src/Urls/Read.antt =====
-- `urllib.parse.urlencode` against the reading of a query: the parts between `&`, each a name and a
-- value around its first `=`, unquoted.
use aleyacloud_relay.Base.{
  ℕ, ◌+◌, ◌-◌, ◌*◌, ◌/◌, ◌%◌, ◌<◌, List, [], ◌∷◌, ◌++◌, map, ◌≡◌, ◌≢◌, refl, ap, ◌∙◌, arith, leb,
  ◌==◌, if◌then◌else◌, before, All,
}
use aleyacloud_relay.Urls.{
  utf8_char, utf8, is_safe, hex_digit, quote_byte, quote_bytes, quote_plus, encode_pair, urlencode,
}

unfoldable pub unhex : ℕ → ℕ
unhex d = if leb d b'9' then d - b'0' else d - b'A' + 10

plain : ℕ → ℕ
plain c = if c == b'+' then b' ' else c

-- `%XY` is a byte, and `+` a space.
unfoldable pub unquote : List ℕ → List ℕ
unfolding plain
unquote [] = []
unquote (c ∷ []) = plain c ∷ []
unquote (c ∷ x ∷ []) = plain c ∷ unquote (x ∷ [])
unquote (c ∷ x ∷ y ∷ s) =
    let coded = (unhex x * 16 + unhex y) ∷ unquote s in
    let other = plain c ∷ unquote (x ∷ y ∷ s) in if c == b'%' then coded else other

unfoldable pub after : ℕ → List ℕ → List ℕ
after c [] = []
after c (d ∷ s) = if d == c then s else after c s

unfoldable pub split_on : ℕ → List ℕ → List (List ℕ)
split_on c [] = [] ∷ []
split_on c (d ∷ s) = elim (split_on c s) [
  | [] ↦ [] ∷ []
  | part ∷ parts ↦ if d == c then [] ∷ part ∷ parts else (d ∷ part) ∷ parts
]

unfoldable pub read_pair : List ℕ → List ℕ × List ℕ
read_pair part = (unquote (before b'=' part), unquote (after b'=' part))

unfoldable pub read_query : List ℕ → List (List ℕ × List ℕ)
read_query query = map read_pair (split_on b'&' query)

-- A character that ends neither a part nor a name.
abbrev IsInner : ℕ → Type 0
IsInner c = (c ≢ b'&') × (c ≢ b'=')

unquote_plain : (c : ℕ) (s : List ℕ) → c ≢ b'%' → c ≢ b'+' → unquote (c ∷ s) ≡ c ∷ unquote s
unfolding unquote
unquote_plain c [] h k = ground arith
unquote_plain c (x ∷ []) h k = ground arith
unquote_plain c (x ∷ y ∷ s) h k = ground arith

unquote_space : (s : List ℕ) → unquote (b'+' ∷ s) ≡ b' ' ∷ unquote s
unfolding unquote
unquote_space [] = refl
unquote_space (x ∷ []) = refl
unquote_space (x ∷ y ∷ s) = ground arith

unhex-hex_digit : (n : ℕ) → n < 16 → unhex (hex_digit n) ≡ n
unfolding unhex hex_digit
unhex-hex_digit n h = ground arith

unquote-quote_byte : (b : ℕ) (s : List ℕ) → b < 256 → unquote (quote_byte b ++ s) ≡ b ∷ unquote s
unfolding quote_byte unquote is_safe
unquote-quote_byte b s h =
    ground (
      arith,
      unquote_plain b s,
      unquote_space s,
      unhex-hex_digit (b / 16),
      unhex-hex_digit (b % 16),
    )

unquote-quote_bytes : (s : List ℕ) → All (λ b. b < 256) s → unquote (quote_bytes s) ≡ s
unfolding quote_bytes
unquote-quote_bytes [] h = unfold unquote in refl
unquote-quote_bytes (b ∷ s) h =
    unquote-quote_byte b (quote_bytes s) h.0
    ∙ ap (λ (t : List ℕ). b ∷ t) (unquote-quote_bytes s h.1)

-- The UTF-8 of code points is bytes.
utf8_char-All : (c : ℕ) → c < 0x110000 → All (λ b. b < 256) (utf8_char c)
unfolding utf8_char
utf8_char-All c h = ground arith

pub All-append : (P : ℕ → Type 0) (s t : List ℕ) → All P s → All P t → All P (s ++ t)
All-append P [] t h k = k
All-append P (x ∷ s) t h k = (h.0, All-append P s t h.1 k)

pub utf8-All : (s : List ℕ) → All (λ c. c < 0x110000) s → All (λ b. b < 256) (utf8 s)
unfolding utf8
utf8-All [] h = tt
utf8-All (c ∷ s) h =
    All-append (λ b. b < 256) (utf8_char c) (utf8 s) (utf8_char-All c h.0) (utf8-All s h.1)

quote_byte-All : (b : ℕ) → b < 256 → All IsInner (quote_byte b)
unfolding quote_byte is_safe hex_digit
quote_byte-All b h = ground arith

quote_bytes-All : (s : List ℕ) → All (λ b. b < 256) s → All IsInner (quote_bytes s)
unfolding quote_bytes
quote_bytes-All [] h = tt
quote_bytes-All (b ∷ s) h =
    All-append IsInner (quote_byte b) (quote_bytes s) (quote_byte-All b h.0) (quote_bytes-All s h.1)

-- Text without the sign is read up to it.
module _ (c : ℕ) where
  abbrev Avoids : List ℕ → Type 0
  Avoids s = All (λ d. d ≢ c) s

  before_lem : (s t : List ℕ) → Avoids s → before c (s ++ (c ∷ t)) ≡ s
  unfolding before
  before_lem [] t h = ground arith
  before_lem (d ∷ s) t h = ground (arith, before_lem s t h.1)

  after_lem : (s t : List ℕ) → Avoids s → after c (s ++ (c ∷ t)) ≡ t
  unfolding after
  after_lem [] t h = ground arith
  after_lem (d ∷ s) t h = ground (arith, after_lem s t h.1)

  split_on_last : (s : List ℕ) → Avoids s → split_on c s ≡ s ∷ []
  unfolding split_on
  split_on_last [] h = refl
  split_on_last (d ∷ s) h = ground (arith, split_on_last s h.1)

  split_on-ne-nil : (s : List ℕ) → split_on c s ≢ []
  unfolding split_on
  split_on-ne-nil [] h = cc
  split_on-ne-nil (d ∷ s) h = ground arith

  split_on_lem : (s t : List ℕ) → Avoids s → split_on c (s ++ (c ∷ t)) ≡ s ∷ split_on c t
  unfolding split_on
  split_on_lem [] t h = ground (arith, split_on-ne-nil t)
  split_on_lem (d ∷ s) t h = ground (arith, split_on_lem s t h.1)

All-map_weaken : (P Q : ℕ → Type 0) → ((d : ℕ) → P d → Q d) → (s : List ℕ) → All P s → All Q s
All-map_weaken P Q f [] h = tt
All-map_weaken P Q f (d ∷ s) h = (f d h.0, All-map_weaken P Q f s h.1)

-- The code points of both texts are in range.
abbrev pub IsText : List ℕ × List ℕ → Type 0
IsText (name, value) = All (λ c. c < 0x110000) name × All (λ c. c < 0x110000) value

abbrev pub utf8_pair : List ℕ × List ℕ → List ℕ × List ℕ
utf8_pair (name, value) = (utf8 name, utf8 value)

quote_plus-All : (s : List ℕ) → All (λ c. c < 0x110000) s → All IsInner (quote_plus s)
unfolding quote_plus
quote_plus-All s h = quote_bytes-All (utf8 s) (utf8-All s h)

unquote-quote_plus : (s : List ℕ) → All (λ c. c < 0x110000) s → unquote (quote_plus s) ≡ utf8 s
unfolding quote_plus
unquote-quote_plus s h = unquote-quote_bytes (utf8 s) (utf8-All s h)

read_pair-encode_pair : (p : List ℕ × List ℕ) → IsText p → read_pair (encode_pair p) ≡ utf8_pair p
unfolding read_pair encode_pair
read_pair-encode_pair (name, value) (h, k) =
    let inner =
      All-map_weaken IsInner (λ d. d ≢ b'=') (λ d i. i.1) (quote_plus name)
        (quote_plus-All name h) in
    rw
      (
        before_lem b'=' (quote_plus name) (quote_plus value) inner,
        after_lem b'=' (quote_plus name) (quote_plus value) inner,
        unquote-quote_plus name h,
        unquote-quote_plus value k,
      )
      refl

encode_pair-All : (p : List ℕ × List ℕ) → IsText p → All (λ d. d ≢ b'&') (encode_pair p)
unfolding encode_pair
encode_pair-All (name, value) (h, k) =
    let part = λ (s : List ℕ) (t : All (λ c. c < 0x110000) s).
      All-map_weaken IsInner (λ d. d ≢ b'&') (λ d i. i.0) (quote_plus s) (quote_plus-All s t) in
    All-append (λ d. d ≢ b'&') (quote_plus name) (b'=' ∷ quote_plus value) (part name h)
      (omega arith, part value k)

-- A query that `urlencode` writes for at least one parameter reads back as those parameters, in their
-- order, each name and each value in UTF-8. The code points are those of Unicode.
pub read_query-urlencode :
    (p : List ℕ × List ℕ) (ps : List (List ℕ × List ℕ))
    → IsText p
    → All IsText ps
    → read_query (urlencode (p ∷ ps)) ≡ map utf8_pair (p ∷ ps)
unfolding read_query urlencode
read_query-urlencode p [] h hs =
    rw (split_on_last b'&' (encode_pair p) (encode_pair-All p h), read_pair-encode_pair p h) refl
read_query-urlencode p (q ∷ qs) h hs =
    rw
      (
        split_on_lem b'&' (encode_pair p) (urlencode (q ∷ qs)) (encode_pair-All p h),
        read_pair-encode_pair p h,
      )
      (ap (λ (r : List (List ℕ × List ℕ)). utf8_pair p ∷ r) (read_query-urlencode q qs hs.0 hs.1))
