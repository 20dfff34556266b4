-- ===== src/Storage/ArtifactStore/Examples.antt =====
-- A report that is stored, read and deleted, with a function in the place of SHA-256.
use ai_agent_security_lab.Prelude.{
  none, ℕ, ◌≡◌, refl, true, List, [], ◌∷◌, ◌++◌, some, Text, text, text_eq, within, truthy, length,
  ok, arith, ◌>>=◌,
}
use ai_agent_security_lab.Storage.ArtifactStore.{
  Parts, FileStore, is_absolute, path, put, read, delete, contents, build_artifact_key, is_key_part,
  is_key_char, parts_of,
}
use ai_agent_security_lab.Storage.ArtifactStore.Keys.{path-build_artifact_key, IsName}
use ai_agent_security_lab.Storage.ArtifactStore.Contents.{put_lem}

-- The digest is the data.
abbrev toy_sha256 : List ℕ → Text
toy_sha256 data' = data'

abbrev key : Text
key = text "acme/run_1/art_1.json"

abbrev parts : Parts
parts = text "acme" ∷ text "run_1" ∷ text "art_1.json" ∷ []

abbrev bytes : List ℕ
bytes = 5 ∷ 6 ∷ []

abbrev before : FileStore
before = record {
  max_bytes = 100;
  dirs = [];
  files = (text "other" ∷ [], 1 ∷ []) ∷ [];
  temporaries = [];
}

abbrev after : FileStore
after = record {
  max_bytes = 100;
  dirs = (text "acme" ∷ text "run_1" ∷ []) ∷ (text "acme" ∷ []) ∷ [];
  files = (parts, bytes) ∷ (text "other" ∷ [], 1 ∷ []) ∷ [];
  temporaries = [];
}

key-path : path key ≡ ok parts
unfolding path text text_eq parts_of is_key_part is_key_char within truthy is_absolute
key-path = refl

stored : put toy_sha256 key (bytes) none before ≡ (ok (2, bytes), after)
unfolding put path text text_eq parts_of is_key_part is_key_char within truthy is_absolute
stored = refl

put_lem_example :
    (2 ≡ length bytes)
    × (bytes ≡ toy_sha256 (bytes))
    × (read toy_sha256 key (some (bytes)) after ≡ ok (bytes))
    × ((q : Parts) (b : List ℕ)
        → contents q before.files ≡ some b
        → contents q after.files ≡ some b)
    × ((delete key after).0 ≡ ok true)
    × ((q : Parts) → contents q (delete key after).1.files ≡ contents q before.files)
put_lem_example = put_lem toy_sha256 key (bytes) none before after 2 (bytes) stored

acme-IsName : IsName 0 (text "acme")
unfolding text text_eq is_key_part is_key_char within truthy
acme-IsName = (refl, refl, omega arith)

run-IsName : IsName 0 (text "run_1")
unfolding text text_eq is_key_part is_key_char within truthy
run-IsName = (refl, refl, omega arith)

art-IsName : IsName 5 (text "art_1")
unfolding text text_eq is_key_part is_key_char within truthy
art-IsName = (refl, refl, omega arith)

path-build_artifact_key_example :
    (build_artifact_key (text "acme") (text "run_1") (text "art_1") (text "markdown") >>= path)
    ≡ ok (text "acme" ∷ text "run_1" ∷ (text "art_1" ++ text ".md") ∷ [])
path-build_artifact_key_example =
    path-build_artifact_key (text "acme") (text "run_1") (text "art_1") true acme-IsName run-IsName
      art-IsName
