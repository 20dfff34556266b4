-- ===== src/Storage/ArtifactStore.antt =====
-- storage/artifact_store.py: report files under a root directory, in which nothing but the store
-- makes entries, so that no entry is a symbolic link. `sha256` is the hexadecimal digest.
pub mod Keys
pub mod Contents
mod Examples
use ai_agent_security_lab.Prelude.{
  ℕ, ◌+◌, ◌||◌, ◌&&◌, not, Bool, true, false, List, [], ◌∷◌, ◌++◌, Option, none, some, Text, text,
  text_eq, within, Result, ok, err, Error, value_error, file_exists_error, file_not_found_error,
  artifact_integrity_error, os_error, any, all, select, length, leb, ltb, ◌==◌, if◌then◌else◌,
  ◌>>=◌, ◌>>◌, raise_if,
}
use ai_agent_security_lab.Auth.Tokens.{split}

-- a path below the root
abbrev pub Parts : Type 0
Parts = List Text

unfoldable pub same_path : Parts → Parts → Bool
same_path [] [] = true
same_path [] (q ∷ qs) = false
same_path (p ∷ ps) [] = false
same_path (p ∷ ps) (q ∷ qs) = text_eq p q && same_path ps qs

pub record FileStore : Type 0 where
  pub max_bytes : ℕ
  pub dirs : List Parts
  pub files : List (Parts × List ℕ)
  -- the temporary files that are left, each under its target's path; their own names are random
  pub temporaries : List (Parts × List ℕ)

-- What the system may refuse while a file is written: to make the temporary file, to write or to
-- flush it after some of the bytes, and to rename it.
pub data WriteFault : Type 0 where
  not_made : Error → WriteFault
  not_written : (written : List ℕ) → Error → WriteFault
  not_renamed : Error → WriteFault

-- The constructor, on a root that has nothing yet.
unfoldable pub file_store : ℕ → Result FileStore
file_store max_bytes =
    if ltb max_bytes 1
    then err (value_error "max_bytes must be positive")
    else ok (record { max_bytes = max_bytes; dirs = []; files = []; temporaries = [] })

unfoldable pub contents : Parts → List (Parts × List ℕ) → Option (List ℕ)
unfolding same_path
contents path [] = none
contents path ((p, data') ∷ rest) = if same_path p path then some data' else contents path rest

unfoldable pub remove : Parts → List (Parts × List ℕ) → List (Parts × List ℕ)
unfolding same_path
remove path [] = []
remove path ((p, data') ∷ rest) =
    let others = remove path rest in if same_path p path then others else (p, data') ∷ others

unfoldable pub is_file : Parts → FileStore → Bool
unfolding same_path
is_file path s = any (λ (e : Parts × List ℕ). same_path e.0 path) s.files

unfoldable pub is_dir : Parts → FileStore → Bool
unfolding same_path
is_dir path s = any (λ p. same_path p path) s.dirs

-- `_KEY_PART.fullmatch`
unfoldable pub is_key_char : ℕ → Bool
is_key_char c =
    (leb b'A' c && leb c b'Z')
    || (leb b'a' c && leb c b'z')
    || (leb b'0' c && leb c b'9')
    || c == b'.'
    || c == b'_'
    || c == b'-'

unfoldable pub is_key_part : Text → Bool
unfolding is_key_char
is_key_part part = within 128 part && all is_key_char part

abbrev pub is_dots : Text → Bool
is_dots part = text_eq part (text ".") || text_eq part (text "..")

-- `PurePosixPath(key).parts`: empty parts and single dots are dropped.
unfoldable pub parts_of : Text → Parts
unfolding split
parts_of key = select (λ part. not (text_eq part [] || text_eq part (text "."))) (split b'/' key)

unfoldable pub is_absolute : Text → Bool
is_absolute [] = false
is_absolute (c ∷ key) = c == b'/'

-- The checks of `_path`. Without links the target of such parts is below the root.
unfoldable pub path : Text → Result Parts
unfolding parts_of
path key = do
  raise_if (any (λ c. c == b'\\') key) (value_error "artifact key must use POSIX separators")
  raise_if
      (is_absolute key
        || length (parts_of key) == 0
        || any (λ part. text_eq part [] || is_dots part || not (is_key_part part)) (parts_of key))
      (value_error "invalid artifact key")
  ok (parts_of key)

-- the directories above the target, made from the root downwards after `above`
unfoldable pub make_parents : Parts → Parts → FileStore → Result (Unit {0}) × FileStore
make_parents above [] s = (ok tt, s)
make_parents above (last ∷ []) s = (ok tt, s)
make_parents above (part ∷ next ∷ rest) s =
    let here = above ++ part ∷ [] in
    let made = record s { dirs = here ∷ s.dirs } in
    let again = make_parents here (next ∷ rest) s in
    let onwards = make_parents here (next ∷ rest) made in
    if is_file here s
    then (err (file_exists_error "not a directory"), s)
    else if is_dir here s
    then again
    else onwards

-- the target has a file where one of its directories should be
unfoldable pub blocked : Parts → Parts → FileStore → Bool
unfolding is_file
blocked above [] s = false
blocked above (last ∷ []) s = false
blocked above (part ∷ next ∷ rest) s =
    is_file (above ++ part ∷ []) s || blocked (above ++ part ∷ []) (next ∷ rest) s

module _ (sha256 : List ℕ → Text) where
  -- The name of the temporary file is kept after it was flushed only: the `finally` block removes a
  -- file that was not renamed, and leaves one that was not written.
  write_file : Parts → List ℕ → Option WriteFault → FileStore → Result (ℕ × Text) × FileStore
  write_file target data' none s =
      (ok (length data', sha256 data'), record s { files = (target, data') ∷ s.files })
  write_file target data' (some (not_made e)) s = (err e, s)
  write_file target data' (some (not_written written e)) s =
      (err e, record s { temporaries = (target, written) ∷ s.temporaries })
  write_file target data' (some (not_renamed e)) s = (err e, s)

  write_new :
      Parts
      → List ℕ
      → Option WriteFault
      → Result (Unit {0}) × FileStore
      → Result (ℕ × Text) × FileStore
  unfolding is_file is_dir write_file
  write_new target data' fault (err e, s) = (err e, s)
  write_new target data' fault (ok _, s) =
      if is_file target s || is_dir target s
      then (err (file_exists_error "artifact key already exists"), s)
      else write_file target data' fault s

  put_at : List ℕ → Option WriteFault → FileStore → Result Parts → Result (ℕ × Text) × FileStore
  unfolding make_parents write_new
  put_at data' fault s (err e) = (err e, s)
  put_at data' fault s (ok target) = write_new target data' fault (make_parents [] target s)

  -- `put`, where the system may refuse to write the file
  unfoldable pub put : Text → List ℕ → Option WriteFault → FileStore → Result (ℕ × Text) × FileStore
  unfolding put_at
  put key data' fault s =
      if ltb s.max_bytes (length data')
      then (err (value_error "artifact exceeds configured size limit"), s)
      else put_at data' fault s (path key)

  check_digest : Option Text → List ℕ → Result (List ℕ)
  check_digest none data' = ok data'
  check_digest (some expected) data' =
      if text_eq (sha256 data') expected
      then ok data'
      else err (artifact_integrity_error "artifact checksum mismatch")

  read_at : Option Text → Parts → FileStore → Option (List ℕ) → Result (List ℕ)
  unfolding blocked is_dir check_digest
  read_at expected target s (some data') = check_digest expected data'
  read_at expected target s none =
      if is_dir target s || blocked [] target s
      then err (os_error "not a regular file")
      else err file_not_found_error

  unfoldable pub read : Text → Option Text → FileStore → Result (List ℕ)
  unfolding read_at contents
  read key expected s = do target ← path key; read_at expected target s (contents target s.files)

delete_at : FileStore → Result Parts → Result Bool × FileStore
unfolding is_file is_dir blocked remove
delete_at s (err e) = (err e, s)
delete_at s (ok target) =
    if is_file target s
    then (ok true, record s { files = remove target s.files })
    else if is_dir target s || blocked [] target s
    then (err (os_error "not a regular file"), s)
    else (ok false, s)

unfoldable pub delete : Text → FileStore → Result Bool × FileStore
unfolding delete_at
delete key s = delete_at s (path key)

extension_of : Text → Option Text
extension_of format =
    if text_eq format (text "json")
    then some (text "json")
    else if text_eq format (text "markdown")
    then some (text "md")
    else none

with_extension : Text → Text → Text → Option Text → Result Text
with_extension tenant_id run_id artifact_id none =
    err (value_error "artifact format must be json or markdown")
with_extension tenant_id run_id artifact_id (some extension) = do
  raise_if (not (is_key_part tenant_id)) (value_error "artifact key identifier is invalid")
  raise_if (not (is_key_part run_id)) (value_error "artifact key identifier is invalid")
  raise_if (not (is_key_part artifact_id)) (value_error "artifact key identifier is invalid")
  ok (tenant_id ++ b'/' ∷ (run_id ++ b'/' ∷ (artifact_id ++ b'.' ∷ extension)))

unfoldable pub build_artifact_key : Text → Text → Text → Text → Result Text
unfolding with_extension extension_of
build_artifact_key tenant_id run_id artifact_id format =
    with_extension tenant_id run_id artifact_id (extension_of format)
