-- ===== src/Storage/ArtifactStore/Contents.antt =====
-- storage/artifact_store.py: what `put` and `delete` do to the contents of the store.
use ai_agent_security_lab.Prelude.{
  Option, ℕ, ◌≡◌, refl, sym, ◌∙◌, ap, true, false, List, [], ◌∷◌, ◌++◌, none, some, Text,
  text_eq_iff, text_eq_refl, Result, ok, err, any, length, if◌then◌else◌, is_ok, arith, inl, inr,
  Bool-cases,
}
use ai_agent_security_lab.Storage.ArtifactStore.{
  WriteFault, not_made, not_written, not_renamed, write_file, Parts, same_path, FileStore, contents,
  remove, is_file, path, make_parents, put, put_at, write_new, read, delete,
}

pub same_path_refl : (p : Parts) → same_path p p ≡ true
unfolding same_path
same_path_refl [] = refl
same_path_refl (t ∷ p) = ground (arith, text_eq_refl t, same_path_refl p)

pub same_path→eq : (p q : Parts) → same_path p q ≡ true → p ≡ q
unfolding same_path
same_path→eq [] [] h = refl
same_path→eq [] (u ∷ q) h = cc
same_path→eq (t ∷ p) [] h = cc
same_path→eq (t ∷ p) (u ∷ q) h = ground (arith, text_eq_iff t u, same_path→eq p q)

pub make_parents-files :
    (above target : Parts) (s : FileStore) → (make_parents above target s).1.files ≡ s.files
unfolding make_parents
make_parents-files above [] s = refl
make_parents-files above (last ∷ []) s = refl
make_parents-files above (part ∷ next ∷ rest) s = ground (
  arith,
  make_parents-files (above ++ part ∷ []) (next ∷ rest) s,
  make_parents-files (above ++ part ∷ []) (next ∷ rest)
      (record s { dirs = (above ++ part ∷ []) ∷ s.dirs }),
)

pub contents_of_not_file :
    (p : Parts) (s : FileStore) → is_file p s ≡ false → contents p s.files ≡ none
unfolding is_file contents
contents_of_not_file p s h = go s.files h
  where
    go :
        (files : List (Parts × List ℕ))
        → any (λ (e : Parts × List ℕ). same_path e.0 p) files ≡ false
        → contents p files ≡ none
    go [] h = refl
    go ((q, b) ∷ rest) h = ground (arith, go rest)

pub file_of_contents :
    (p : Parts) (s : FileStore) (b : List ℕ) → contents p s.files ≡ some b → is_file p s ≡ true
file_of_contents p s b h = elim (Bool-cases (is_file p s)) [
  | inl e ↦ e
  | inr e ↦ cc (contents_of_not_file p s e, h)
]

pub contents-remove :
    (p q : Parts) (files : List (Parts × List ℕ))
    → contents q (remove p files) ≡ (if same_path p q then none else contents q files)
unfolding contents remove
contents-remove p q [] = ground arith
contents-remove p q ((t, b) ∷ rest) = ground (
  arith,
  contents-remove p q rest,
  same_path→eq t p,
  same_path→eq t q,
  same_path→eq p q,
  same_path_refl p,
  same_path_refl t,
)

is_file-files : (p : Parts) (s t : FileStore) → s.files ≡ t.files → is_file p s ≡ is_file p t
unfolding is_file
is_file-files p s t e = ap (any (λ (f : Parts × List ℕ). same_path f.0 p)) e

module _ (sha256 : List ℕ → Text) where
  -- What a successful `put` did: nothing was at the key's path, and the bytes are there now.
  abbrev pub Written : Text → List ℕ → ℕ → Text → FileStore → FileStore → Type 0
  Written key data' size digest s s' =
      (target : Parts) × (path key ≡ ok target)
      × (is_file target s ≡ false)
      × (size ≡ length data')
      × (digest ≡ sha256 data')
      × (s'.files ≡ (target, data') ∷ s.files)

  write_cases :
      (target : Parts) (data' : List ℕ) (fault : Option WriteFault)
      (m : Result (Unit {0}) × FileStore) (s' : FileStore) (size : ℕ) (digest : Text)
      → write_new sha256 target data' fault m ≡ (ok (size, digest), s')
      → (is_file target m.1 ≡ false)
        × (size ≡ length data')
        × (digest ≡ sha256 data')
        × (s'.files ≡ (target, data') ∷ m.1.files)
  unfolding write_new write_file
  write_cases target data' fault (err e, m) s' size digest h = ground arith
  write_cases target data' none (ok _, m) s' size digest h = ground arith
  write_cases target data' (some (not_made e)) (ok _, m) s' size digest h = ground arith
  write_cases target data' (some (not_written b e)) (ok _, m) s' size digest h = ground arith
  write_cases target data' (some (not_renamed e)) (ok _, m) s' size digest h = ground arith

  put_at_cases :
      (key : Text) (data' : List ℕ) (fault : Option WriteFault) (s s' : FileStore) (size : ℕ)
      (digest : Text) (r : Result Parts)
      → path key ≡ r
      → put_at sha256 data' fault s r ≡ (ok (size, digest), s')
      → Written key data' size digest s s'
  unfolding put_at
  put_at_cases key data' fault s s' size digest (err e) p h = absurd (ground arith)
  put_at_cases key data' fault s s' size digest (ok target) p h =
      let (free, a, b, f) =
        write_cases target data' fault (make_parents [] target s) s' size digest h in
      let same = make_parents-files [] target s in
      (
        target,
        p,
        sym (is_file-files target (make_parents [] target s).1 s same) ∙ free,
        a,
        b,
        f ∙ ap (λ files. (target, data') ∷ files) same,
      )

  pub put_cases :
      (key : Text) (data' : List ℕ) (fault : Option WriteFault) (s s' : FileStore) (size : ℕ)
      (digest : Text)
      → put sha256 key data' fault s ≡ (ok (size, digest), s')
      → Written key data' size digest s s'
  unfolding put
  put_cases key data' fault s s' size digest h =
      put_at_cases key data' fault s s' size digest (path key) refl (ground arith)

  -- A read of what the store has at a path, with the digest of it.
  read-contents :
      (key : Text) (data' : List ℕ) (s : FileStore) (target : Parts)
      → path key ≡ ok target
      → contents target s.files ≡ some data'
      → read sha256 key (some (sha256 data')) s ≡ ok data'
  unfolding read
  read-contents key data' s target p c = rw (p, c, text_eq_refl (sha256 data')) refl

  pub contents_after :
      (target q : Parts) (data' : List ℕ) (s : FileStore)
      → contents q ((target, data') ∷ s.files)
        ≡ (if same_path target q then some data' else contents q s.files)
  unfolding contents
  contents_after target q data' s = refl

  pub keeps_others :
      (target q : Parts) (data' b : List ℕ) (s s' : FileStore)
      → is_file target s ≡ false
      → s'.files ≡ (target, data') ∷ s.files
      → contents q s.files ≡ some b
      → contents q s'.files ≡ some b
  keeps_others target q data' b s s' free f c = elim (Bool-cases (same_path target q)) [
    | inl e ↦
        let gone = contents_of_not_file target s free in
        absurd (cc (gone, same_path→eq target q e, c))
    | inr e ↦ ap (contents q) f ∙ contents_after target q data' s ∙ rw e c
  ]

  pub deleted :
      (key : Text) (target : Parts) (data' : List ℕ) (s s' : FileStore)
      → path key ≡ ok target
      → s'.files ≡ (target, data') ∷ s.files
      → delete key s' ≡ (ok true, record s' { files = remove target s'.files })
  unfolding delete
  deleted key target data' s s' p f =
      let here : contents target s'.files ≡ some data' =
        ap (contents target) f
        ∙ contents_after target target data' s
        ∙ rw (same_path_refl target) refl in
      rw (p, file_of_contents target s' data' here) refl

  pub restored :
      (target q : Parts) (data' : List ℕ) (s s' : FileStore)
      → is_file target s ≡ false
      → s'.files ≡ (target, data') ∷ s.files
      → contents q (remove target s'.files) ≡ contents q s.files
  restored target q data' s s' free f = elim (Bool-cases (same_path target q)) [
    | inl e ↦
        contents-remove target q s'.files
        ∙ rw e (
            sym (contents_of_not_file target s free)
            ∙ ap (λ t. contents t s.files) (same_path→eq target q e))
    | inr e ↦
        contents-remove target q s'.files
        ∙ rw e (ap (contents q) f ∙ contents_after target q data' s ∙ rw e refl)
  ]

  -- A successful `put` returns the size and the digest of the bytes, a read of the key with that
  -- digest gives them back, no other path's contents changed, and the path had none before; and a
  -- `delete` of the key then succeeds and leaves every path's contents as they were before.
  pub put_lem :
      (key : Text) (data' : List ℕ) (fault : Option WriteFault) (s s' : FileStore) (size : ℕ)
      (digest : Text)
      → put sha256 key data' fault s ≡ (ok (size, digest), s')
      → (size ≡ length data')
        × (digest ≡ sha256 data')
        × (read sha256 key (some digest) s' ≡ ok data')
        × ((q : Parts) (b : List ℕ) → contents q s.files ≡ some b → contents q s'.files ≡ some b)
        × ((delete key s').0 ≡ ok true)
        × ((q : Parts) → contents q (delete key s').1.files ≡ contents q s.files)
  put_lem key data' fault s s' size digest h =
      let (target, p, free, a, b, f) = put_cases key data' fault s s' size digest h in
      let here : contents target s'.files ≡ some data' =
        ap (contents target) f
        ∙ contents_after target target data' s
        ∙ rw (same_path_refl target) refl in
      let gone = deleted key target data' s s' p f in
      (
        a,
        b,
        rw b (read-contents key data' s' target p here),
        (λ q c. keeps_others target q data' c s s' free f),
        ap (λ r. r.0) gone,
        (λ q. ap (λ r. contents q r.1.files) gone ∙ restored target q data' s s' free f),
      )

  write_refused :
      (target : Parts) (data' : List ℕ) (fault : Option WriteFault)
      (m : Result (Unit {0}) × FileStore)
      → is_ok (write_new sha256 target data' fault m).0 ≡ false
      → (write_new sha256 target data' fault m).1.files ≡ m.1.files
  unfolding write_new write_file
  write_refused target data' fault (err e, m) h = refl
  write_refused target data' none (ok _, m) h = ground arith
  write_refused target data' (some (not_made e)) (ok _, m) h = ground arith
  write_refused target data' (some (not_written b e)) (ok _, m) h = ground arith
  write_refused target data' (some (not_renamed e)) (ok _, m) h = ground arith

  put_at_refused :
      (r : Result Parts) (data' : List ℕ) (fault : Option WriteFault) (s : FileStore)
      → is_ok (put_at sha256 data' fault s r).0 ≡ false
      → (put_at sha256 data' fault s r).1.files ≡ s.files
  unfolding put_at
  put_at_refused (err e) data' fault s h = refl
  put_at_refused (ok target) data' fault s h =
      write_refused target data' fault (make_parents [] target s) h ∙ make_parents-files [] target s

  -- A `put` that raises leaves every file as it is.
  pub put_refused :
      (key : Text) (data' : List ℕ) (fault : Option WriteFault) (s : FileStore)
      → is_ok (put sha256 key data' fault s).0 ≡ false
      → (put sha256 key data' fault s).1.files ≡ s.files
  unfolding put
  put_refused key data' fault s h = ground (arith, put_at_refused (path key) data' fault s)
