-- ===== src/Tests/Tokens.antt =====
-- A plain encoding of the payloads of tokens, which meets what PyJWT documents.
use Prim.Native.Char.{Char, char, code, nul, IsScalar}
use mathlib.Core.Logic.{dite}
use native.Mathlib.Decide.{dec_lt}
use text.Mathlib.TextEquality.{Char-path}
use aleyacloud_relay.Base.{
  ℕ, zero, suc, ◌≤◌, ◌<◌, ◌&&◌, String, List, [], ◌∷◌, ◌++◌, Option, none, some, ◌≡◌, refl, arith,
  ltb, leb, if◌then◌else◌, length, codes,
}
use mathlib.Core.List.{append_assoc}
use aleyacloud_relay.Access.Credentials.{Claims}
use aleyacloud_relay.Commands.Issue.{TokenPayload}
use aleyacloud_relay.Commands.Issued.{Jwt, IsJwt, claims_of}

low : (n : ℕ) → n < 55296 → IsScalar n
low n h = ground arith

high : (n : ℕ) → 57343 < n → n < 1114112 → IsScalar n
high n a b = ground arith

char_of : ℕ → Char
char_of n =
    dite (dec_lt n 55296) (λ h. char n (low n h))
      (λ _.
        dite (dec_lt 57343 n) (λ a. dite (dec_lt n 1114112) (λ b. char n (high n a b)) (λ _. nul))
          (λ _. nul))

code-char_of : (c : Char) → code (char_of (code c)) ≡ code c
unfolding char_of
code-char_of (char n p) = ground arith

char_of-code : (c : Char) → char_of (code c) ≡ c
char_of-code c = Char-path (char_of (code c)) c (code-char_of c)

put_text : String → List ℕ
put_text s = length (codes s) ∷ codes s

get_chars : ℕ → List ℕ → String × List ℕ
get_chars zero r = ("", r)
get_chars (suc n) [] = ("", [])
get_chars (suc n) (c ∷ r) = let (s, q) = get_chars n r in (String.◌∷◌ (char_of c) s, q)

get_text : List ℕ → String × List ℕ
get_text [] = ("", [])
get_text (n ∷ r) = get_chars n r

get_chars-codes : (s : String) (r : List ℕ) → get_chars (length (codes s)) (codes s ++ r) ≡ (s, r)
unfolding get_chars
get_chars-codes String.[] r = refl
get_chars-codes (String.◌∷◌ c s) r = ground (arith, get_chars-codes s r, char_of-code c)

put_texts : List String → List ℕ
put_texts [] = []
put_texts (s ∷ ss) = put_text s ++ put_texts ss

get_texts : ℕ → List ℕ → List String × List ℕ
get_texts zero r = ([], r)
get_texts (suc n) r = let (s, q) = get_text r in let (ss, q') = get_texts n q in (s ∷ ss, q')

get_text-put_text : (s : String) (r : List ℕ) → get_text (put_text s ++ r) ≡ (s, r)
unfolding get_text put_text
get_text-put_text s r = get_chars-codes s r

get_texts-put_texts :
    (ss : List String) (r : List ℕ) → get_texts (length ss) (put_texts ss ++ r) ≡ (ss, r)
unfolding get_texts put_texts
get_texts-put_texts [] r = refl
get_texts-put_texts (s ∷ ss) r =
    rw (append_assoc (put_text s) (put_texts ss) r, get_text-put_text s (put_texts ss ++ r))
      (rw (get_texts-put_texts ss r) refl)

pub put_payload : TokenPayload → List ℕ
put_payload p =
    p.workspace_id
    ∷ p.iat
    ∷ p.exp
    ∷ length p.scopes
    ∷ (put_text p.sub ++ (put_texts p.scopes ++ p.brand_ids))

get_claims : (workspace scopes : ℕ) → List ℕ → Claims
get_claims workspace scopes r =
    let (sub, q) = get_text r in
    let (ss, q') = get_texts scopes q in
    record { sub = sub; workspace_id = some workspace; brand_ids = some q'; scopes = some ss }

pub get_payload : (issuer audience : String) (now : ℕ) → List ℕ → Option Claims
get_payload issuer audience now (workspace ∷ iat ∷ exp ∷ scopes ∷ r) =
    if leb iat now && ltb now exp then some (get_claims workspace scopes r) else none
get_payload issuer audience now _ = none

abbrev pub plain_jwt : Jwt
plain_jwt = record { encode = put_payload; decode = get_payload }

claims-put :
    (p : TokenPayload)
    → get_claims p.workspace_id
        (length p.scopes)
        (put_text p.sub ++ (put_texts p.scopes ++ p.brand_ids))
      ≡ claims_of p
unfolding get_claims
claims-put p =
    rw (get_text-put_text p.sub (put_texts p.scopes ++ p.brand_ids))
      (rw (get_texts-put_texts p.scopes p.brand_ids) refl)

pub decode_lem :
    (p : TokenPayload) (now : ℕ)
    → p.iat ≤ now
    → now < p.exp
    → get_payload p.iss p.aud now (put_payload p) ≡ some (claims_of p)
unfolding get_payload put_payload
decode_lem p now old young = ground (arith, claims-put p)

abbrev pub plain_jwt-IsJwt : IsJwt plain_jwt
plain_jwt-IsJwt = record { decode-encode = decode_lem }
