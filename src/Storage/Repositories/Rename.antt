-- ===== src/Storage/Repositories/Rename.antt =====
-- storage/repositories.py: the optimistic lock of `ProjectRepository.rename`.
use ai_agent_security_lab.Prelude.{
  ℕ, ◌≡◌, refl, ◌∙◌, ap, ◌≢◌, Bool, true, List, [], ◌∷◌, Option, none, some, Text, Result, ok, err,
  first_where, count_where, update_where, Timestamp, arith,
}
use ai_agent_security_lab.Domain.Entities.{Project}
use ai_agent_security_lab.Storage.Database.{Database, ◌>>=◌}
use ai_agent_security_lab.Storage.Repositories.{
  is_project, at_version, renamed, get_project, found_project, rename, rename_from,
}

no_version_left :
    (tenant k name : Text) (v : ℕ) (now : Timestamp) (rows : List Project)
    → count_where
        (at_version tenant k v)
        (update_where (at_version tenant k v) (renamed name now) rows)
      ≡ 0
no_version_left tenant k name v now [] = refl
no_version_left tenant k name v now (p ∷ rows) =
    ground (arith, no_version_left tenant k name v now rows)

update_none :
    (q : Project → Bool) (f : Project → Project) (rows : List Project)
    → count_where q rows ≡ 0
    → update_where q f rows ≡ rows
update_none q f [] h = refl
update_none q f (p ∷ rows) h = ground (arith, update_none q f rows)

found_keeps : (row : Option Project) (d : Database) → (found_project row d).1 ≡ d
unfolding found_project
found_keeps none d = refl
found_keeps (some p) d = ground arith

module _ (tenant k : Text) (v : ℕ) where
  rename_from-updates :
      (name : Text) (now : Timestamp) (found : Option Project) (d d' : Database)
      → rename_from tenant k name v now found d ≡ (ok true, d')
      → d'.projects ≡ update_where (at_version tenant k v) (renamed name now) d.projects
  unfolding rename_from
  rename_from-updates name now none d d' h = absurd (ground arith)
  rename_from-updates name now (some p) d d' h = ground arith

  rename_from-misses :
      (name : Text) (now : Timestamp) (found : Option Project) (d : Database)
      → count_where (at_version tenant k v) d.projects ≡ 0
      → ((rename_from tenant k name v now found d).0 ≢ ok true)
        × ((rename_from tenant k name v now found d).1 ≡ d)
  unfolding rename_from
  rename_from-misses name now none d c = ground arith
  rename_from-misses name now (some p) d c =
      ground (arith, update_none (at_version tenant k v) (renamed name now) d.projects c)

  get_keeps : (d : Database) → (get_project tenant k d).1 ≡ d
  unfolding get_project
  get_keeps d = found_keeps (first_where (is_project tenant k) d.projects) d

  rename-updates :
      (name : Text) (now : Timestamp) (d d' : Database)
      → rename tenant k name v now d ≡ (ok true, d')
      → d'.projects ≡ update_where (at_version tenant k v) (renamed name now) d.projects
  unfolding rename
  rename-updates name now d d' h = ground (arith, get_keeps d, rename_from-updates name now)

  misses_after :
      (name : Text) (now : Timestamp) (d : Database) (m : Result (Option Project) × Database)
      → m.1 ≡ d
      → count_where (at_version tenant k v) d.projects ≡ 0
      → ((((λ _. m) >>= rename_from tenant k name v now) d).0 ≢ ok true)
        × ((((λ _. m) >>= rename_from tenant k name v now) d).1 ≡ d)
  misses_after name now d (err e, d1) same c = ((λ t. ground arith), same)
  misses_after name now d (ok found, d1) same c =
      let (refused, kept) =
        rename_from-misses name now found d1
          (ap (λ (x : Database). count_where (at_version tenant k v) x.projects) same ∙ c) in
      (refused, kept ∙ same)

  rename-misses :
      (name : Text) (now : Timestamp) (d : Database)
      → count_where (at_version tenant k v) d.projects ≡ 0
      → ((rename tenant k name v now d).0 ≢ ok true) × ((rename tenant k name v now d).1 ≡ d)
  unfolding rename
  rename-misses name now d c = misses_after name now d (get_project tenant k d) (get_keeps d) c

  -- Of two renames of a project that expect the same version, at most one succeeds: once the first
  -- did, the other does not, whatever its name and its time, and leaves the database as it is.
  pub rename_wins_once :
      (name name' : Text) (now now' : Timestamp) (d d' : Database)
      → rename tenant k name v now d ≡ (ok true, d')
      → ((rename tenant k name' v now' d').0 ≢ ok true) × ((rename tenant k name' v now' d').1 ≡ d')
  rename_wins_once name name' now now' d d' h = rename-misses name' now' d' (
      ap (count_where (at_version tenant k v)) (rename-updates name now d d' h)
      ∙ no_version_left tenant k name v now d.projects)
