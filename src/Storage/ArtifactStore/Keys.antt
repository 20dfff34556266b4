-- ===== src/Storage/ArtifactStore/Keys.antt =====
-- storage/artifact_store.py: the keys that `_path` accepts and `build_artifact_key` makes.
use ai_agent_security_lab.Prelude.{
  ℕ, ◌≡◌, refl, ◌≤◌, ◌+◌, not, Bool, true, false, [], ◌∷◌, ◌++◌, some, Text, text, text_eq, within,
  truthy, ok, any, all, all-append, length, length-append, ◌==◌, if◌then◌else◌, arith, ◌>>=◌,
}
use ai_agent_security_lab.Auth.Tokens.{split, split-append, split-free, free_of}
use ai_agent_security_lab.Storage.ArtifactStore.{
  is_key_char, is_key_part, is_dots, parts_of, is_absolute, path, build_artifact_key,
  with_extension,
}

chars-free_of :
    (c : ℕ) (s : Text) → is_key_char c ≡ false → all is_key_char s ≡ true → free_of c s ≡ true
unfolding is_key_char
chars-free_of c [] n h = refl
chars-free_of c (x ∷ s) n h = ground (arith, chars-free_of c s n)

key_part-free_of :
    (c : ℕ) (s : Text) → is_key_char c ≡ false → is_key_part s ≡ true → free_of c s ≡ true
unfolding is_key_part
key_part-free_of c s n h = chars-free_of c s n (ground arith)

any_of_free_of : (c : ℕ) (s : Text) → free_of c s ≡ true → any (λ x. x == c) s ≡ false
any_of_free_of c [] h = refl
any_of_free_of c (x ∷ s) h = ground (arith, any_of_free_of c s)

-- an identifier that can be a part of a key
abbrev pub IsName : ℕ → Text → Type 0
IsName room s = (is_key_part s ≡ true) × (is_dots s ≡ false) × (length s + room ≤ 128)

joined : Text → Text → Text → Text
joined tenant_id run_id file = tenant_id ++ b'/' ∷ (run_id ++ b'/' ∷ file)

split-joined :
    (t r file : Text)
    → is_key_part t ≡ true
    → is_key_part r ≡ true
    → is_key_part file ≡ true
    → split b'/' (joined t r file) ≡ t ∷ r ∷ file ∷ []
unfolding joined is_key_char
split-joined t r file p q f =
    rw
      (
        split-append b'/' t (r ++ b'/' ∷ file) (key_part-free_of b'/' t refl p),
        split-append b'/' r file (key_part-free_of b'/' r refl q),
        split-free b'/' file (key_part-free_of b'/' file refl f),
      )
      refl

joined_no_backslash :
    (t r file : Text)
    → is_key_part t ≡ true
    → is_key_part r ≡ true
    → is_key_part file ≡ true
    → free_of b'\\' (joined t r file) ≡ true
unfolding joined is_key_char
joined_no_backslash t r file p q f = ground (
  arith,
  all-append (λ c. not (c == b'\\')) t (b'/' ∷ (r ++ b'/' ∷ file)),
  all-append (λ c. not (c == b'\\')) r (b'/' ∷ file),
  key_part-free_of b'\\' t refl p,
  key_part-free_of b'\\' r refl q,
  key_part-free_of b'\\' file refl f,
)

joined_relative : (t r file : Text) → is_key_part t ≡ true → is_absolute (joined t r file) ≡ false
unfolding joined is_absolute is_key_part within is_key_char truthy
joined_relative [] r file p = ground arith
joined_relative (c ∷ t) r file p = ground arith

not_empty : (s : Text) → is_key_part s ≡ true → text_eq s [] ≡ false
unfolding text_eq is_key_part within truthy
not_empty [] p = ground arith
not_empty (c ∷ s) p = refl

path-joined :
    (t r file : Text)
    → (is_key_part t ≡ true) × (is_dots t ≡ false)
    → (is_key_part r ≡ true) × (is_dots r ≡ false)
    → (is_key_part file ≡ true) × (is_dots file ≡ false)
    → path (joined t r file) ≡ ok (t ∷ r ∷ file ∷ [])
unfolding path parts_of
path-joined t r file (p, p') (q, q') (f, f') =
    rw
      (
        any_of_free_of b'\\' (joined t r file) (joined_no_backslash t r file p q f),
        joined_relative t r file p,
        split-joined t r file p q f,
      )
      (ground (arith, not_empty t p, not_empty r q, not_empty file f))

named :
    (a extension : Text)
    → is_key_part a ≡ true
    → length a + 5 ≤ 128
    → all is_key_char extension ≡ true
    → length extension ≤ 4
    → is_key_part (a ++ b'.' ∷ extension) ≡ true
unfolding is_key_part within truthy is_key_char
named [] e p l c s = ground arith
named (x ∷ a) e p l c s =
    ground (arith, length-append a (b'.' ∷ e), all-append is_key_char a (b'.' ∷ e))

named_not_dots :
    (a extension : Text)
    → is_key_part a ≡ true
    → 2 ≤ length extension
    → is_dots (a ++ b'.' ∷ extension) ≡ false
unfolding is_key_part within truthy text_eq text
named_not_dots [] e p l = ground arith
named_not_dots (x ∷ []) (y ∷ e) p l = ground arith
named_not_dots (x ∷ []) [] p l = ground arith
named_not_dots (x ∷ y ∷ []) e p l = ground arith
named_not_dots (x ∷ y ∷ z ∷ a) e p l = ground arith

path-with_extension :
    (t r a extension : Text)
    → IsName 0 t
    → IsName 0 r
    → IsName 5 a
    → all is_key_char extension ≡ true
    → (2 ≤ length extension) × (length extension ≤ 4)
    → (with_extension t r a (some extension) >>= path) ≡ ok (t ∷ r ∷ (a ++ b'.' ∷ extension) ∷ [])
unfolding with_extension joined
path-with_extension t r a e (p, p', _) (q, q', _) (f, f', room) chars (long, short) =
    rw (p, q, f)
      (path-joined t r (a ++ b'.' ∷ e) (p, p') (q, q')
        (named a e f room chars short, named_not_dots a e f long))

-- From identifiers of the permitted alphabet that are not dots, of which the artifact's leaves
-- room for the longest extension, `build_artifact_key` makes a key for both formats, and the store
-- reads it as the tenant's directory, the run's directory and a file of the artifact.
pub path-build_artifact_key :
    (t r a : Text) (markdown : Bool)
    → IsName 0 t
    → IsName 0 r
    → IsName 5 a
    → (build_artifact_key t r a (if markdown then text "markdown" else text "json") >>= path)
      ≡ ok (t ∷ r ∷ (a ++ (if markdown then text ".md" else text ".json")) ∷ [])
unfolding build_artifact_key text text_eq is_key_char
path-build_artifact_key t r a true p q f =
    path-with_extension t r a (text "md") p q f refl (omega arith, omega arith)
path-build_artifact_key t r a false p q f =
    path-with_extension t r a (text "json") p q f refl (omega arith, omega arith)
