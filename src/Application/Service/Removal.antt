-- ===== src/Application/Service/Removal.antt =====
-- application/service.py: the deletion of the reports that a failed call has stored.
use ai_agent_security_lab.Prelude.{
  ℕ, ◌≡◌, refl, sym, ◌∙◌, ap, Bool, true, false, List, [], ◌∷◌, none, some, Text, ok, any, is_some,
  if◌then◌else◌, arith, inl, inr, Option-cases,
}
use ai_agent_security_lab.Storage.ArtifactStore.{
  Parts, same_path, FileStore, contents, path, delete, remove,
}
use ai_agent_security_lab.Storage.ArtifactStore.Contents.{
  same_path_refl, same_path→eq, contents-remove, file_of_contents,
}
use ai_agent_security_lab.Application.Work.{Lab, on_reports, ◌>>=◌}
use ai_agent_security_lab.Application.Service.{delete_all}

abbrev pub at_one_of : List Parts → Parts → Bool
at_one_of targets q = any (λ t. same_path t q) targets

-- `targets` are distinct paths of the keys, each with a file now.
abbrev pub Targets : List Text → List Parts → FileStore → Type 0
Targets [] [] s = Unit
Targets [] (t ∷ targets) s = (true ≡ false)
Targets (key ∷ keys) [] s = (true ≡ false)
Targets (key ∷ keys) (t ∷ targets) s =
    (path key ≡ ok t)
    × (is_some (contents t s.files) ≡ true)
    × (at_one_of targets t ≡ false)
    × Targets keys targets s

-- The store was as it is now without the files of the keys.
abbrev pub Added : List Text → FileStore → FileStore → Type 0
Added keys s s' =
    (targets : List Parts) × Targets keys targets s'
    × ((q : Parts)
        → contents q s.files ≡ (if at_one_of targets q then none else contents q s'.files))

-- A deletion of the first key's file.
abbrev removed : Parts → FileStore → FileStore
removed t s = record s { files = remove t s.files }

delete_lem :
    (key : Text) (t : Parts) (s : FileStore)
    → path key ≡ ok t
    → is_some (contents t s.files) ≡ true
    → delete key s ≡ (ok true, removed t s)
unfolding delete
delete_lem key t s p h = elim (Option-cases (contents t s.files)) [
  | inl e ↦ absurd (ground arith)
  | inr (b, e) ↦ rw (p, file_of_contents t s b e) refl
]

Targets-removed :
    (keys : List Text) (targets : List Parts) (t : Parts) (s : FileStore)
    → at_one_of targets t ≡ false
    → Targets keys targets s
    → Targets keys targets (removed t s)
Targets-removed [] [] t s d h = tt
Targets-removed [] (u ∷ targets) t s d h = h
Targets-removed (key ∷ keys) [] t s d h = h
Targets-removed (key ∷ keys) (u ∷ targets) t s d (p, there, apart, rest) = (
  p,
  rw (contents-remove t u s.files) (ground (arith, same_path→eq t u, same_path_refl t)),
  apart,
  Targets-removed keys targets t s (ground arith) rest,
)

-- A file that was written and is there at the end is one more that was added.
pub Added-cons :
    (key : Text) (t : Parts) (b : List ℕ) (keys : List Text) (s s1 s2 : FileStore)
    → path key ≡ ok t
    → contents t s.files ≡ none
    → ((q : Parts) → contents q s1.files ≡ (if same_path t q then some b else contents q s.files))
    → Added keys s1 s2
    → Added (key ∷ keys) s s2
Added-cons key t b keys s s1 s2 p free after (targets, h, same) =
    let here = sym (same t) ∙ after t in
    (
      t ∷ targets,
      (p, ground (arith, same_path_refl t, here), ground (arith, same_path_refl t, here), h),
      λ q. ground (arith, same q, after q, same_path→eq t q),
    )

module _ (sha256 : List ℕ → Text) where
  delete_step :
      (key : Text) (keys : List Text) (t : Parts) (w : Lab)
      → path key ≡ ok t
      → is_some (contents t w.reports.files) ≡ true
      → delete_all sha256 (key ∷ keys) w
        ≡ delete_all sha256 keys (record w { reports = removed t w.reports })
  unfolding delete_all
  delete_step key keys t w p there =
      ap (λ m. ((λ (_ : Lab). on_reports w m) >>= (λ _. delete_all sha256 keys)) w)
        (delete_lem key t w.reports p there)

  hidden :
      (t q : Parts) (targets : List Parts) (files : List (Parts × List ℕ))
      → (if at_one_of (t ∷ targets) q then none else contents q files)
        ≡ (if at_one_of targets q then none else contents q (remove t files))
  hidden t q targets files = rw (contents-remove t q files) (ground arith)

  -- The handler's loop succeeds, gives back the contents as they were, and the database as it is.
  pub delete_all-restores :
      (keys : List Text) (s : FileStore) (w : Lab)
      → Added keys s w.reports
      → ((delete_all sha256 keys w).0 ≡ ok tt)
        × ((delete_all sha256 keys w).1.database ≡ w.database)
        × ((q : Parts) → contents q (delete_all sha256 keys w).1.reports.files ≡ contents q s.files)
  unfolding delete_all
  delete_all-restores [] s w ([], h, same) = (refl, refl, λ q. sym (same q))
  delete_all-restores [] s w (t ∷ targets, h, same) = absurd (ground arith)
  delete_all-restores (key ∷ keys) s w ([], h, same) = absurd (ground arith)
  delete_all-restores (key ∷ keys) s w (t ∷ targets, (p, there, apart, rest), same) =
      let (worked, kept, back) =
        delete_all-restores keys s (record w { reports = removed t w.reports })
          (
            targets,
            Targets-removed keys targets t w.reports apart rest,
            λ q. same q ∙ hidden t q targets w.reports.files,
          ) in
      let step = delete_step key keys t w p there in
      (
        ap (λ m. m.0) step ∙ worked,
        ap (λ m. m.1.database) step ∙ kept,
        λ q. ap (λ m. contents q m.1.reports.files) step ∙ back q,
      )
