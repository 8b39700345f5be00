-- ===== src/Base/Text.antt =====
-- Texts whose characters are read, as lists of code points.
use Prim.Native.Nat.{ℕ, ◌+◌}
use Prim.Native.Char.{code}
use Prim.Native.String.{String}
use mathlib.Core.Bool.{Bool, true, false, ◌&&◌}
use mathlib.Core.List.{List, [], ◌∷◌, map}
use aleyacloud_relay.Base.Tests.{leb, ◌==◌, if◌then◌else◌}

abbrev pub codes : String → List ℕ
codes String.[] = []
codes (String.◌∷◌ c s) = code c ∷ codes s

abbrev pub is_empty {ℓ} : {A : Type ℓ} → List A → Bool
is_empty [] = true
is_empty (x ∷ xs) = false

-- Equality of texts.
unfoldable pub same_text : List ℕ → List ℕ → Bool
same_text [] [] = true
same_text (c ∷ s) (d ∷ t) = c == d && same_text s t
same_text _ _ = false

-- `s.rstrip("/")`
unfoldable pub rstrip_slash : List ℕ → List ℕ
rstrip_slash [] = []
rstrip_slash (c ∷ s) =
    let rest = rstrip_slash s in if c == b'/' && is_empty rest then [] else c ∷ rest

-- `s.lower()`, whose results among the ASCII letters come from ASCII letters alone, but for the
-- Kelvin sign; other characters stay.
unfoldable pub lower_code : ℕ → ℕ
lower_code c = if leb b'A' c && leb c b'Z' then c + 32 else if c == 0x212a then b'k' else c

unfoldable pub lower : List ℕ → List ℕ
lower = map lower_code

-- `s.split(c, 1)[0]`
unfoldable pub before : ℕ → List ℕ → List ℕ
before c [] = []
before c (d ∷ s) = if d == c then [] else d ∷ before c s

-- `s.split("/")`: the last part is there also where the text is empty.
unfoldable pub split_slash : List ℕ → List (List ℕ)
split_slash [] = [] ∷ []
split_slash (c ∷ s) = elim (split_slash s) [
  | [] ↦ [] ∷ []
  | part ∷ parts ↦ if c == b'/' then [] ∷ part ∷ parts else (c ∷ part) ∷ parts
]

-- `s.lstrip()` for the characters that `blank` names.
unfoldable pub lstrip : (ℕ → Bool) → List ℕ → List ℕ
lstrip blank [] = []
lstrip blank (c ∷ s) = if blank c then lstrip blank s else c ∷ s

unfoldable pub rstrip : (ℕ → Bool) → List ℕ → List ℕ
rstrip blank [] = []
rstrip blank (c ∷ s) =
    let rest = rstrip blank s in if blank c && is_empty rest then [] else c ∷ rest

unfoldable pub strip : (ℕ → Bool) → List ℕ → List ℕ
strip blank s = rstrip blank (lstrip blank s)
