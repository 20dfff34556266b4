-- ===== src/Regex/Notation.antt =====
-- The notation of Python's patterns. `lit` is text without its case, `r ∣ s` is `r|s`.
use Prim.Native.Char.{code}
use ai_agent_security_lab.Prelude.{
  ℕ, ◌&&◌, ◌||◌, not, Bool, true, false, none, some, String, text, any, leb, ◌==◌, is_space,
}
use ai_agent_security_lab.Regex.{Regex, empty, char, seq, alt, repeat, word_boundary, fold, is_word}

infixr 6 ◌⨾◌
infixr 5 ◌∣◌
abbrev pub ◌⨾◌ : Regex → Regex → Regex
r ⨾ s = seq r s

abbrev pub ◌∣◌ : Regex → Regex → Regex
r ∣ s = alt r s

unfoldable pub same : ℕ → ℕ → Bool
unfolding fold
same c d = fold d == fold c

unfoldable pub lit : String → Regex
unfolding same
lit String.[] = empty
lit (String.◌∷◌ c s) = seq (char (same (code c))) (lit s)

-- `[…]` of single characters, alone and with `\w`
unfoldable pub among : String → ℕ → Bool
unfolding text same
among s c = any (λ d. same d c) (text s)

unfoldable pub word_or : String → ℕ → Bool
unfolding is_word among
word_or s c = is_word c || among s c

unfoldable pub is_digit : ℕ → Bool
is_digit c = leb b'0' c && leb c b'9'

-- `\b`, `[…]`, `\s`, `\S`, `\w`, `\d`, and `.`, which is `[^\n]` too
abbrev pub b : Regex
b = word_boundary

abbrev pub set : String → Regex
set s = char (among s)

abbrev pub word_set : String → Regex
word_set s = char (word_or s)

abbrev pub space : Regex
space = char is_space

abbrev pub visible : Regex
visible = char (λ c. not (is_space c))

abbrev pub word : Regex
word = char is_word

abbrev pub digit : Regex
digit = char is_digit

abbrev pub dot : Regex
dot = char (λ c. not (c == 10))

-- `?`, `*`, `+`, `{n,}`, and the lazy `*?` and `{0,n}?`
abbrev pub opt : Regex → Regex
opt r = repeat false 0 (some 1) r

abbrev pub many : Regex → Regex
many r = repeat false 0 none r

abbrev pub some_of : Regex → Regex
some_of r = repeat false 1 none r

abbrev pub at_least : ℕ → Regex → Regex
at_least n r = repeat false n none r

abbrev pub any_gap : Regex
any_gap = repeat true 0 none dot

abbrev pub gap : ℕ → Regex
gap n = repeat true 0 (some n) dot

-- `{lo,hi}` and `[:\s]`
abbrev pub between : ℕ → ℕ → Regex → Regex
between lo hi r = repeat false lo (some hi) r

abbrev pub colon_space : Regex
colon_space = char (λ c. c == b':' || is_space c)
