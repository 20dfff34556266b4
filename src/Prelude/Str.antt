-- ===== src/Prelude/Str.antt =====
-- A Python `str` as its list of code points, with the methods of `str` that the program calls.
-- `text` reads a literal.
use Prim.Native.Char.{code}
use Prim.Native.Nat.{ℕ, ◌+◌}
use Prim.Native.String.{String}
use mathlib.Core.Path.{◌≡◌, refl}
use mathlib.Core.Logic.{◌≢◌, ◌↔◌, inl, inr}
use mathlib.Core.Bool.{Bool, true, false, ◌&&◌, ◌||◌}
use mathlib.Core.List.{List, [], ◌∷◌, reverse, reverse-cons, reverse-append, map, ◌++◌}
use native.Mathlib.Omega.{arith}
use ai_agent_security_lab.Prelude.Tests.{leb, ◌==◌, if◌then◌else◌, Bool-cases}
use ai_agent_security_lab.Prelude.Lists.{length, take, any}

abbrev pub Text : Type 0
Text = List ℕ

unfoldable pub text : String → Text
text String.[] = []
text (String.◌∷◌ c s) = code c ∷ text s

unfoldable pub text_eq : Text → Text → Bool
text_eq [] [] = true
text_eq [] (b ∷ bs) = false
text_eq (a ∷ as') [] = false
text_eq (a ∷ as') (b ∷ bs) = a == b && text_eq as' bs

text_eq→eq : (a b : Text) → text_eq a b ≡ true → a ≡ b
unfolding text_eq
text_eq→eq [] [] h = refl
text_eq→eq [] (b ∷ bs) h = cc
text_eq→eq (a ∷ as') [] h = cc
text_eq→eq (a ∷ as') (b ∷ bs) h = ground (arith, text_eq→eq as' bs)

pub text_eq_refl : (a : Text) → text_eq a a ≡ true
unfolding text_eq
text_eq_refl [] = refl
text_eq_refl (a ∷ as') = ground (arith, text_eq_refl as')

pub text_eq_iff : (a b : Text) → (text_eq a b ≡ true) ↔ (a ≡ b)
text_eq_iff a b = (text_eq→eq a b, λ e. rw e (text_eq_refl b))

pub text_eq_ne : (a b : Text) → a ≢ b → text_eq a b ≡ false
text_eq_ne a b h = elim (Bool-cases (text_eq a b)) [
  | inl e ↦ absurd (h (text_eq→eq a b e))
  | inr e ↦ e
]

-- `str.isspace` of one character: the separators of ASCII, and those of Unicode beyond it.
unfoldable pub is_space : ℕ → Bool
is_space c =
    (leb 9 c && leb c 13)
    || (leb 28 c && leb c 32)
    || c == 0x85
    || c == 0xa0
    || c == 0x1680
    || (leb 0x2000 c && leb c 0x200a)
    || (leb 0x2028 c && leb c 0x2029)
    || c == 0x202f
    || c == 0x205f
    || c == 0x3000

lstrip : Text → Text
unfolding is_space
lstrip [] = []
lstrip (c ∷ s) = if is_space c then lstrip s else c ∷ s

unfoldable pub strip : Text → Text
unfolding lstrip
strip s = reverse (lstrip (reverse (lstrip s)))

-- `str.lower` on ASCII letters.
unfoldable pub lower : Text → Text
lower = map (λ c. if leb b'A' c && leb c b'Z' then c + 32 else c)

-- `s.startswith(prefix)`
unfoldable pub starts_with : Text → Text → Bool
unfolding text_eq
starts_with prefix s = text_eq (take (length prefix) s) prefix

-- `needle in s`
unfoldable pub contains : Text → Text → Bool
unfolding starts_with
contains needle [] = starts_with needle []
contains needle (c ∷ s) = starts_with needle (c ∷ s) || contains needle s

-- `separator.join(parts)`
unfoldable pub join : Text → List Text → Text
join separator [] = []
join separator (p ∷ []) = p
join separator (p ∷ q ∷ parts) = p ++ separator ++ join separator (q ∷ parts)

strip_left : Text → Text → Text
strip_left chars [] = []
strip_left chars (c ∷ s) = if any (λ d. c == d) chars then strip_left chars s else c ∷ s

-- `s.strip(chars)`
unfoldable pub strip_chars : Text → Text → Text
unfolding strip_left
strip_chars chars s = reverse (strip_left chars (reverse (strip_left chars s)))

-- Python's truth of a `str`.
unfoldable pub truthy : Text → Bool
truthy [] = false
truthy (c ∷ s) = true

-- `value` is not empty and has at most `n` characters.
unfoldable pub within : ℕ → Text → Bool
unfolding truthy
within n value = truthy value && leb (length value) n

lstrip-snoc :
    (c : ℕ) (s : Text) → is_space c ≡ false → (t : Text) × (lstrip (s ++ c ∷ []) ≡ t ++ c ∷ [])
unfolding lstrip
lstrip-snoc c [] h = ([], ground arith)
lstrip-snoc c (x ∷ s) h = elim (Bool-cases (is_space x)) [
  | inl e ↦ let (t, p) = lstrip-snoc c s h in (t, rw e p)
  | inr e ↦ (x ∷ s, rw e)
]

truthy-reverse : (t : Text) (c : ℕ) → truthy (reverse (t ++ c ∷ [])) ≡ true
unfolding truthy
truthy-reverse t c = rw (reverse-append t (c ∷ [])) refl

lstrip-visible : (c : ℕ) (s : Text) → is_space c ≡ false → lstrip (c ∷ s) ≡ c ∷ s
unfolding lstrip
lstrip-visible c s h = rw h refl

strip_lem : (s : Text) → strip s ≡ reverse (lstrip (reverse (lstrip s)))
unfolding strip
strip_lem s = refl

-- A text that begins with a visible character is not blank.
pub strip_visible : (c : ℕ) (s : Text) → is_space c ≡ false → truthy (strip (c ∷ s)) ≡ true
strip_visible c s h =
    let (t, p) = lstrip-snoc c (reverse s) h in
    rw (strip_lem (c ∷ s), lstrip-visible c s h, reverse-cons c s, p) (truthy-reverse t c)
