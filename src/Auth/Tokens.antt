-- ===== src/Auth/Tokens.antt =====
-- auth.py: the bearer token of an Authorization header, the format of an API key's token, and the
-- methods of `str` and `bytes` that they use.
use ai_agent_security_lab.Prelude.{
  ℕ, ◌+◌, ◌-◌, ◌*◌, ◌/◌, ◌%◌, ◌<◌, ◌≤◌, ◌≡◌, refl, ◌||◌, ◌&&◌, not, Bool, true, false, List, [],
  ◌∷◌, ◌++◌, Option, none, some, Text, text, text_eq, lower, truthy, length, Result, ok, err,
  authentication_error, all, arith, leb, ltb, ◌==◌, if◌then◌else◌, Error,
}
use ai_agent_security_lab.Domain.Artifacts.{is_hex}

-- `str.partition`: the text before the first separator, whether there is one, and the text after.
unfoldable pub partition : ℕ → Text → Text × Bool × Text
partition sep [] = ([], false, [])
partition sep (c ∷ s) =
    let (before, found, after) = partition sep s in
    if c == sep then ([], true, s) else (c ∷ before, found, after)

cons_head : ℕ → List Text → List Text
cons_head c [] = (c ∷ []) ∷ []
cons_head c (part ∷ parts) = (c ∷ part) ∷ parts

-- `str.split` at a single character.
unfoldable pub split : ℕ → Text → List Text
unfolding cons_head
split sep [] = [] ∷ []
split sep (c ∷ s) = let rest = split sep s in if c == sep then [] ∷ rest else cons_head c rest

-- The character does not occur in the text.
abbrev pub free_of : ℕ → Text → Bool
free_of sep s = all (λ c. not (c == sep)) s

-- `_KEY_ID_RE.fullmatch`: 32 lower-case hexadecimal digits.
unfoldable pub is_key_id : Text → Bool
unfolding is_hex
is_key_id s = length s == 32 && all is_hex s

abbrev pub invalid_credentials : Error
invalid_credentials = authentication_error "invalid credentials"

abbrev pub max_bearer_token_length : ℕ
max_bearer_token_length = 8192

bearer_parts : Text × Bool × Text → Result Text
bearer_parts (scheme, separator, token) =
    if not (text_eq (lower scheme) (text "bearer"))
      || not separator
      || not (truthy token)
      || not (free_of b' ' token)
    then err invalid_credentials
    else if ltb max_bearer_token_length (length token)
    then err invalid_credentials
    else ok token

-- `_bearer_token`
unfoldable pub bearer_token : Option Text → Result Text
unfolding bearer_parts partition truthy
bearer_token none = err invalid_credentials
bearer_token (some authorization) =
    if not (truthy authorization) || ltb (max_bearer_token_length + 7) (length authorization)
    then err invalid_credentials
    else bearer_parts (partition b' ' authorization)

-- `bytes.hex`
hex_digit : ℕ → ℕ
hex_digit n = if ltb n 10 then n + 48 else n + 87

unfoldable pub hex : List ℕ → Text
unfolding hex_digit
hex [] = []
hex (b ∷ bytes) = hex_digit (b / 16) ∷ hex_digit (b % 16) ∷ hex bytes

digit_value : ℕ → Option ℕ
digit_value c =
    if leb b'0' c && leb c b'9'
    then some (c - 48)
    else if leb b'a' c && leb c b'f'
    then some (c - 87)
    else if leb b'A' c && leb c b'F'
    then some (c - 55)
    else none

pair_value : Option ℕ → Option ℕ → Option (List ℕ) → Option (List ℕ)
pair_value (some high) (some low) (some rest) = some ((high * 16 + low) ∷ rest)
pair_value _ _ _ = none

-- `bytes.fromhex`, on texts without spaces; `none` is its ValueError.
unfoldable pub from_hex : Text → Option (List ℕ)
unfolding digit_value pair_value
from_hex [] = some []
from_hex (c ∷ []) = none
from_hex (c ∷ d ∷ s) = pair_value (digit_value c) (digit_value d) (from_hex s)

-- `str.encode("utf-8")`
unfoldable pub utf8 : Text → List ℕ
utf8 [] = []
utf8 (c ∷ s) =
    let rest = utf8 s in
    if ltb c 128
    then c ∷ rest
    else if ltb c 2048
    then (192 + c / 64) ∷ (128 + c % 64) ∷ rest
    else if ltb c 65536
    then (224 + c / 4096) ∷ (128 + c / 64 % 64) ∷ (128 + c % 64) ∷ rest
    else (240 + c / 262144) ∷ (128 + c / 4096 % 64) ∷ (128 + c / 64 % 64) ∷ (128 + c % 64) ∷ rest

pub split-free : (sep : ℕ) (s : Text) → free_of sep s ≡ true → split sep s ≡ s ∷ []
unfolding split
split-free sep [] h = refl
split-free sep (c ∷ s) h = ground (arith, split-free sep s)

pub split-append :
    (sep : ℕ) (s t : Text) → free_of sep s ≡ true → split sep (s ++ sep ∷ t) ≡ s ∷ split sep t
unfolding split
split-append sep [] t h = ground arith
split-append sep (c ∷ s) t h = ground (arith, split-append sep s t)

pub partition-append :
    (sep : ℕ) (s t : Text) → free_of sep s ≡ true → partition sep (s ++ sep ∷ t) ≡ (s, true, t)
unfolding partition
partition-append sep [] t h = ground arith
partition-append sep (c ∷ s) t h = ground (arith, partition-append sep s t)

-- A text that is a token: not too long, not empty and without a space.
pub bearer_token_lem :
    (token : Text)
    → truthy token ≡ true
    → free_of b' ' token ≡ true
    → length token ≤ max_bearer_token_length
    → bearer_token (some (text "Bearer " ++ token)) ≡ ok token
unfolding bearer_token text lower text_eq
bearer_token_lem token t f l = ground arith

digit_round : (n : ℕ) → n < 16 → digit_value (hex_digit n) ≡ some n
unfolding digit_value hex_digit
digit_round n h = ground arith

abbrev pub Bytes : List ℕ → Type 0
Bytes [] = Unit
Bytes (b ∷ bytes) = (b < 256) × Bytes bytes

pub from_hex-hex : (bytes : List ℕ) → Bytes bytes → from_hex (hex bytes) ≡ some bytes
unfolding from_hex hex
from_hex-hex [] h = refl
from_hex-hex (b ∷ bytes) h =
    rw
      (
        digit_round (b / 16) (omega arith),
        digit_round (b % 16) (omega arith),
        from_hex-hex bytes h.1,
      )
      (ground arith)
