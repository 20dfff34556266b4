-- ===== src/Application/Service/Atomicity.antt =====
-- application/service.py: the rows of the artifacts across a whole call of `process_next`.
use ai_agent_security_lab.Prelude.{
  ℕ, ◌≡◌, refl, sym, subst, ◌∙◌, Bool, false, List, [], ◌∷◌, Option, none, some, Text, Result, ok,
  err, Error, is_ok, arith, Timestamp,
}
use ai_agent_security_lab.Domain.Runs.{Seed, EvaluationRun, LeaseClaim}
use ai_agent_security_lab.Domain.Artifacts.{ReportArtifact}
use ai_agent_security_lab.Storage.Database.{Database, transaction, roll_back}
use ai_agent_security_lab.Storage.RunRepository.{get}
use ai_agent_security_lab.Storage.RunRepository.Invariant.{RunsValid}
use ai_agent_security_lab.Storage.RunRepository.Steps.{get_total}
use ai_agent_security_lab.Application.Work.{
  Lab, Work, on_database, on_reports, in_transaction, in_session, of_result, ◌>>=◌, ◌>>◌,
}
use ai_agent_security_lab.Application.Service.{
  Payload, Course, Stored, store_all, delete_all, publish, reread, handle, handled, after_store,
  prepare, after_prepare, evaluate_run, meanwhile, run_claim, process_next,
}
use ai_agent_security_lab.Storage.ArtifactStore.{FileStore, delete}
use ai_agent_security_lab.Application.Service.Rollback.{store_all-Stores}
use ai_agent_security_lab.Application.Sessions.{claim_and_start, to_evaluating, complete, fail}
use ai_agent_security_lab.Application.Service.Rows.{
  Intact, transaction-Preserves, claim_and_start-Preserves, to_evaluating-Preserves, fail-Preserves,
  complete-KeepsValid,
}

-- The other processes keep the runs valid and leave the rows of the artifacts alone.
abbrev pub Quiet : (ℕ → Database → Database) → Type 0
Quiet others =
    (n : ℕ) (d : Database)
    → RunsValid d
    → RunsValid (others n d) × ((others n d).artifacts ≡ d.artifacts)

module _ (sha256 : List ℕ → Text) (others : ℕ → Database → Database) (quiet : Quiet others)
    (rows : List ReportArtifact) where
  -- The rows are there when the call raises.
  abbrev Rolls : Result (Option EvaluationRun) × Lab → Type 0
  Rolls m = is_ok m.0 ≡ false → Intact rows m.1.database

  quiet-Intact : (n : ℕ) (d : Database) → Intact rows d → Intact rows (others n d)
  quiet-Intact n d h = let (v, s) = quiet n d h.valid in record { valid = v; same = s ∙ h.same }

  delete_all-database :
      (keys : List Text) (w : Lab) → (delete_all sha256 keys w).1.database ≡ w.database
  unfolding delete_all
  delete_all-database [] w = refl
  delete_all-database (key ∷ keys) w = go (delete key w.reports) (delete_all-database keys)
    where
      go :
          (m : Result Bool × FileStore)
          → ((v : Lab) → (delete_all sha256 keys v).1.database ≡ v.database)
          → (((λ (_ : Lab). on_reports w m) >>= (λ _. delete_all sha256 keys)) w).1.database
            ≡ w.database
      go (ok _, s) ih = ih (record w { reports = s })
      go (err e, s) ih = refl

  module _ (tenant : Text) (claim : LeaseClaim) where
    after_deletion : Timestamp → Error → Work (Option EvaluationRun)
    after_deletion at e =
        meanwhile sha256 others 3 >> (in_transaction (fail tenant claim at) >> of_result (err e))

    after_deletion-Intact :
        (at : Timestamp) (e : Error) (w : Lab)
        → Intact rows w.database
        → Intact rows (after_deletion at e w).1.database
    unfolding after_deletion meanwhile
    after_deletion-Intact at e w h = go (transaction (fail tenant claim at) (others 3 w.database)) (
        transaction-Preserves rows (fail tenant claim at) (fail-Preserves rows tenant claim at)
          (others 3 w.database) (quiet-Intact 3 w.database h))
      where
        go :
            (m : Result (Unit {0}) × Database)
            → Intact rows m.1
            → Intact rows
                (((λ (v : Lab). on_database v m) >> of_result {A = Option EvaluationRun} (err e))
                  (record w { database = others 3 w.database })).1.database
        go (ok _, d) k = k
        go (err x, d) k = k

    handle-Intact :
        (at : Timestamp) (e : Error) (keys : List Text) (w : Lab)
        → Intact rows w.database
        → Intact rows (handle sha256 others tenant claim at e keys w).1.database
    unfolding handle after_deletion
    handle-Intact at e keys w h =
        go (delete_all sha256 keys w) (subst (Intact rows) (sym (delete_all-database keys w)) h)
      where
        go :
            (m : Result (Unit {0}) × Lab)
            → Intact rows m.1.database
            → Intact rows (((λ (_ : Lab). m) >>= (λ _. after_deletion at e)) w).1.database
        go (ok _, v) k = after_deletion-Intact at e v k
        go (err x, v) k = k

    handled-Rolls :
        (at : Timestamp) (keys : List Text) (m : Result (Option EvaluationRun) × Lab)
        → Rolls m
        → Rolls (handled sha256 others tenant claim at keys m)
    unfolding handled
    handled-Rolls at keys (ok run, w) h = h
    handled-Rolls at keys (err e, w) h = λ _. handle-Intact at e keys w (h refl)

    publish-Rolls :
        (at : Timestamp) (artifacts : List ReportArtifact) (w : Lab)
        → Intact rows w.database
        → Rolls (publish sha256 others tenant claim at none artifacts w)
    unfolding publish reread
    publish-Rolls at artifacts w h = go (complete tenant claim artifacts at (others 1 w.database)) (
        complete-KeepsValid tenant claim artifacts at (others 1 w.database)
          (quiet 1 w.database h.valid).0)
      where
        go :
            (m : Result (Unit {0}) × Database)
            → RunsValid m.1
            → Rolls (
                ((λ (v : Lab). on_database v (roll_back (others 1 w.database) m))
                    >> (meanwhile sha256 others 2 >> in_session (get tenant claim.run.id)))
                  (record w { database = others 1 w.database }))
        go (ok _, d) v =
            let found = get_total tenant claim.run.id (others 2 d) (quiet 2 d v).0 in
            λ e. absurd (ground arith)
        go (err x, d) v = λ _. quiet-Intact 1 w.database h

    after_store-Rolls :
        (course : Course) (m : Stored sha256)
        → course.reread_fault ≡ none
        → Intact rows m.2.database
        → Rolls (after_store sha256 others tenant claim course m)
    unfolding after_store
    after_store-Rolls course (err e, keys, w) unread h =
        handled-Rolls course.failed_at keys (err e, w) (λ _. h)
    after_store-Rolls course (ok artifacts, keys, w) unread h =
        handled-Rolls course.failed_at keys
          (publish sha256 others tenant claim course.completed_at course.reread_fault artifacts w)
          (rw unread (publish-Rolls course.completed_at artifacts w h))

    after_prepare-Rolls :
        (kept : ℕ) (course : Course) (payloads : List Payload) (m : Result (Unit {0}) × Lab)
        → course.reread_fault ≡ none
        → Intact rows m.1.database
        → Rolls (after_prepare sha256 others tenant kept claim course payloads m)
    unfolding after_prepare
    after_prepare-Rolls kept course payloads (err e, w) unread h =
        handled-Rolls course.failed_at [] (err e, w) (λ _. h)
    after_prepare-Rolls kept course payloads (ok _, w) unread h =
        after_store-Rolls course
          (store_all sha256 tenant claim.run.id kept course.generated_at payloads w) unread
          (subst (Intact rows)
            (sym
              (store_all-Stores sha256 tenant claim.run.id kept course.generated_at payloads w).1)
            h)

    evaluate_run-Rolls :
        (kept : ℕ) (course : Course) (rendered : Result (List Payload)) (w : Lab)
        → course.reread_fault ≡ none
        → Intact rows w.database
        → Rolls (evaluate_run sha256 others tenant kept claim course rendered w)
    unfolding evaluate_run prepare meanwhile
    evaluate_run-Rolls kept course (err e) w unread h =
        handled-Rolls course.failed_at [] (err e, w) (λ _. h)
    evaluate_run-Rolls kept course (ok payloads) w unread h =
        after_prepare-Rolls kept course payloads
          (prepare sha256 others tenant claim course.generated_at w) unread
          (transaction-Preserves rows (to_evaluating tenant claim course.generated_at)
            (to_evaluating-Preserves rows tenant claim course.generated_at) (others 0 w.database)
            (quiet-Intact 0 w.database h))

  run_claim-Rolls :
      (tenant : Text) (kept : ℕ) (course : Course) (render : Seed → Result (List Payload))
      (m : Result (Option LeaseClaim) × Database) (w : Lab)
      → course.reread_fault ≡ none
      → Intact rows m.1
      → Rolls
          (((λ (_ : Lab). on_database w m) >>= run_claim sha256 others tenant kept course render) w)
  unfolding run_claim
  run_claim-Rolls tenant kept course render (err e, d) w unread h = λ _. h
  run_claim-Rolls tenant kept course render (ok none, d) w unread h = λ e. absurd (ground arith)
  run_claim-Rolls tenant kept course render (ok (some claim), d) w unread h =
      evaluate_run-Rolls tenant claim kept course (render claim.run.seed)
        (record w { database = d }) unread h

-- When `process_next` raises over a valid table of runs, the rows of the artifacts are those from
-- before the call and the table of runs is valid, if the other processes keep that table valid and
-- leave those rows alone meanwhile, and if what raises is not the database at the last read of the
-- run, which stands after the transaction that completes it.
pub process_next_restores_rows :
    (sha256 : List ℕ → Text) (others : ℕ → Database → Database) (tenant : Text) (kept : ℕ)
    (owner : Text) (course : Course) (render : Seed → Result (List Payload)) (w : Lab)
    → Quiet others
    → RunsValid w.database
    → course.reread_fault ≡ none
    → is_ok (process_next sha256 others tenant kept owner course render w).0 ≡ false
    → Intact w.database.artifacts
        (process_next sha256 others tenant kept owner course render w).1.database
unfolding process_next
process_next_restores_rows sha256 others tenant kept owner course render w quiet v unread =
    let rows = w.database.artifacts in
    run_claim-Rolls sha256 others quiet rows tenant kept course render
      (transaction (claim_and_start tenant owner course.started) w.database) w unread
      (transaction-Preserves rows (claim_and_start tenant owner course.started)
        (claim_and_start-Preserves rows tenant owner course.started) w.database
        (record { valid = v; same = refl }))
