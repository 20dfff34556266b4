-- ===== src/Values.antt =====
-- The values of JSON, which are the arguments of tool calls and the replies of models, with
-- `json.dumps`, `repr` and `str` of them. A number is the text that Python prints for it.
-- Characters beyond ASCII count as printable.
use ai_agent_security_lab.Prelude.{
  ℕ, zero, suc, ◌+◌, ◌-◌, ◌/◌, ◌%◌, ◌&&◌, ◌||◌, not, Bool, true, false, [], ◌∷◌, ◌++◌, Option, none,
  some, Text, text, text_eq, any, leb, ltb, ◌==◌, if◌then◌else◌, truthy, ◌≡◌, refl,
}

mutual
  pub data Json : Type 0 where
    null : Json
    boolean : Bool → Json
    number string : Text → Json
    array : Items → Json
    object : Fields → Json

  pub data Items : Type 0 where
    no_items : Items
    item : Json → Items → Items

  -- a dict, its entries in the order of their insertion
  pub data Fields : Type 0 where
    no_fields : Fields
    field : Text → Json → Fields → Fields

hex_digit : ℕ → ℕ
hex_digit d = if ltb d 10 then b'0' + d else b'a' + (d - 10)

hex2 : ℕ → Text
unfolding hex_digit
hex2 c = hex_digit (c / 16 % 16) ∷ hex_digit (c % 16) ∷ []

-- `\uXXXX`
hex4 : ℕ → Text
unfolding hex2
hex4 c = b'\\' ∷ b'u' ∷ hex2 (c / 256) ++ hex2 (c % 256)

wide_escape : ℕ → Text
unfolding hex4
wide_escape c =
    if ltb c 0x10000
    then hex4 c
    else hex4 (0xd800 + (c - 0x10000) / 0x400) ++ hex4 (0xdc00 + (c - 0x10000) % 0x400)

json_escape : (ensure_ascii : Bool) → ℕ → Text
unfolding wide_escape
json_escape ensure_ascii c =
    if c == b'"' || c == b'\\'
    then b'\\' ∷ c ∷ []
    else if c == 10
    then text "\\n"
    else if c == 13
    then text "\\r"
    else if c == 9
    then text "\\t"
    else if c == 12
    then text "\\f"
    else if c == 8
    then text "\\b"
    else if ltb c 32 || (ensure_ascii && ltb 126 c)
    then wide_escape c
    else c ∷ []

escape_all : (ℕ → Text) → Text → Text
escape_all escape [] = []
escape_all escape (c ∷ s) = escape c ++ escape_all escape s

dump_text : Bool → Text → Text
unfolding escape_all json_escape text
dump_text ensure_ascii s = b'"' ∷ escape_all (json_escape ensure_ascii) s ++ b'"' ∷ []

-- `repr` of a `str`
repr_quote : Text → ℕ
repr_quote s = if any (λ c. c == b'\'') s && not (any (λ c. c == b'"') s) then b'"' else b'\''

repr_escape : ℕ → ℕ → Text
unfolding hex2 text
repr_escape quote c =
    if c == quote || c == b'\\'
    then b'\\' ∷ c ∷ []
    else if c == 10
    then text "\\n"
    else if c == 13
    then text "\\r"
    else if c == 9
    then text "\\t"
    else if ltb c 32 || (leb 0x7f c && leb c 0xa0) || c == 0xad
    then text "\\x" ++ hex2 c
    else c ∷ []

unfoldable pub repr : Text → Text
unfolding repr_quote repr_escape escape_all
repr s = let quote = repr_quote s in quote ∷ escape_all (repr_escape quote) s ++ quote ∷ []

decimal_from : (fuel : ℕ) → ℕ → Text
decimal_from zero n = []
decimal_from (suc fuel) n =
    let rest = decimal_from fuel (n / 10) in (if ltb n 10 then [] else rest) ++ (b'0' + n % 10) ∷ []

-- the decimal digits of a natural number, of which there are at most one more than its value
unfoldable pub decimal : ℕ → Text
unfolding decimal_from
decimal n = decimal_from (suc n) n

comma : Text → Text → Text
unfolding text
comma first [] = first
comma first (c ∷ rest) = first ++ text ", " ++ c ∷ rest

-- The texts of a value, printed with `print` for its strings and `word` for its constants.
module _ (print : Text → Text) (word : Option Bool → Text) where
  unfoldable mutual
    unfolding comma text

    pub printed : Json → Text
    printed null = word none
    printed (boolean v) = word (some v)
    printed (number n) = n
    printed (string s) = print s
    printed (array items) = text "[" ++ printed_items items ++ text "]"
    printed (object fields) = text "{" ++ printed_fields fields ++ text "}"

    printed_items : Items → Text
    printed_items no_items = []
    printed_items (item v items) = comma (printed v) (printed_items items)

    printed_fields : Fields → Text
    printed_fields no_fields = []
    printed_fields (field key v fields) =
        comma (print key ++ text ": " ++ printed v) (printed_fields fields)

json_word : Option Bool → Text
unfolding text
json_word none = text "null"
json_word (some true) = text "true"
json_word (some false) = text "false"

python_word : Option Bool → Text
unfolding text
python_word none = text "None"
python_word (some true) = text "True"
python_word (some false) = text "False"

-- `json.dumps(value, ensure_ascii=…)`
unfoldable pub dumps : (ensure_ascii : Bool) → Json → Text
unfolding printed dump_text json_word
dumps ensure_ascii = printed (dump_text ensure_ascii) json_word

-- `str(value)`
unfoldable pub str : Json → Text
unfolding printed repr python_word
str (string s) = s
str v = printed repr python_word v

-- `fields.get(key)`
unfoldable pub get : Text → Fields → Option Json
get key no_fields = none
get key (field k v fields) = let rest = get key fields in if text_eq k key then some v else rest

-- `str(fields.get(key, default))`
unfoldable pub str_or : Text → Option Json → Text
unfolding str
str_or otherwise none = otherwise
str_or otherwise (some v) = str v

-- `v and str(v)`: the truth of a value, an absent one being None
unfoldable pub is_true : Option Json → Bool
unfolding truthy text_eq text
is_true none = false
is_true (some null) = false
is_true (some (boolean v)) = v
is_true (some (number n)) =
    not (text_eq n (text "0") || text_eq n (text "0.0") || text_eq n (text "-0.0"))
is_true (some (string s)) = truthy s
is_true (some (array no_items)) = false
is_true (some (object no_fields)) = false
is_true (some _) = true

dumps_example :
    dumps true (object (field (text "a") (string (text "x\"\n")) (field (text "b") null no_fields)))
    ≡ text "{\"a\": \"x\\\"\\n\", \"b\": null}"
unfolding dumps
dumps_example = refl
