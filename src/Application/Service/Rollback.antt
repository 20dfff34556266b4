-- ===== src/Application/Service/Rollback.antt =====
-- application/service.py: a call of `process_next` that raises.
use ai_agent_security_lab.Prelude.{
  ℕ, ◌≡◌, refl, sym, subst, ◌∙◌, ap, false, List, [], ◌∷◌, Option, none, some, Text, Result, ok,
  err, Error, is_ok, arith, Timestamp,
}
use ai_agent_security_lab.Domain.Runs.{Seed, EvaluationRun, LeaseClaim}
use ai_agent_security_lab.Domain.Artifacts.{ReportArtifact, post_init}
use ai_agent_security_lab.Storage.Database.{Database, transaction}
use ai_agent_security_lab.Storage.ArtifactStore.{
  Parts, FileStore, contents, put, build_artifact_key,
}
use ai_agent_security_lab.Storage.ArtifactStore.Contents.{
  contents_of_not_file, contents_after, put_cases, put_refused, Written,
}
use ai_agent_security_lab.Application.Work.{Lab, on_reports, on_database, ◌>>=◌}
use ai_agent_security_lab.Application.Sessions.{claim_and_start}
use ai_agent_security_lab.Application.Service.{
  Payload, Course, Stored, artifact_of, after_key, after_put, with_key, store_all, publish, reread,
  handle, handled, after_store, prepare, after_prepare, evaluate_run, run_claim, process_next,
  meanwhile,
}
use ai_agent_security_lab.Application.Service.Removal.{Added, Added-cons, delete_all-restores}

module _ (sha256 : List ℕ → Text) where
  -- What the loop over the payloads leaves: the files of its keys, more than before.
  abbrev pub Stores : Lab → Stored sha256 → Type 0
  Stores w (r, keys, w') = Added keys w.reports w'.reports × (w'.database ≡ w.database)

  Added-nothing : (s s' : FileStore) → s'.files ≡ s.files → Added [] s s'
  Added-nothing s s' e = ([], tt, λ q. ap (contents q) (sym e))

  after_key-Stores :
      (key : Text) (content : List ℕ) (size : ℕ) (digest : Text) (made : Result ReportArtifact)
      (rest : Stored sha256) (w w1 : Lab)
      → Written sha256 key content size digest w.reports w1.reports
      → w1.database ≡ w.database
      → Stores w1 rest
      → Stores w (after_key sha256 key made rest w1)
  unfolding after_key
  after_key-Stores key content size digest (err e) rest w w1 (t, p, free, _, _, files) same h = (
    Added-cons key t content [] w.reports w1.reports w1.reports p
        (contents_of_not_file t w.reports free)
        (λ q. ap (contents q) files ∙ contents_after sha256 t q content w.reports)
        (Added-nothing w1.reports w1.reports refl),
    same,
  )
  after_key-Stores key content size digest (ok a) (ok as', keys, w2) w w1 (t, p, free, _, _, files)
        same (h, kept) =
      (
        Added-cons key t content keys w.reports w1.reports w2.reports p
            (contents_of_not_file t w.reports free)
            (λ q. ap (contents q) files ∙ contents_after sha256 t q content w.reports) h,
        kept ∙ same,
      )
  after_key-Stores key content size digest (ok a) (err e, keys, w2) w w1 (t, p, free, _, _, files)
        same (h, kept) =
      (
        Added-cons key t content keys w.reports w1.reports w2.reports p
            (contents_of_not_file t w.reports free)
            (λ q. ap (contents q) files ∙ contents_after sha256 t q content w.reports) h,
        kept ∙ same,
      )

  module _ (tenant run_id : Text) (kept : ℕ) (at : Timestamp) where
    after_put-Stores :
        (p : Payload) (key : Text) (w : Lab) (m : Result (ℕ × Text) × FileStore)
        (rest : Lab → Stored sha256)
        → put sha256 key p.content p.write_fault w.reports ≡ m
        → ((w1 : Lab) → Stores w1 (rest w1))
        → Stores w (after_put sha256 tenant run_id kept at p key (on_reports w m) rest)
    unfolding after_put
    after_put-Stores p key w (err e, s1) rest h ih = (
      Added-nothing w.reports s1 (
          ap (λ m. m.1.files) (sym h)
          ∙ put_refused sha256 key p.content p.write_fault w.reports (ap (λ m. is_ok m.0) h)),
      refl,
    )
    after_put-Stores p key w (ok (size, digest), s1) rest h ih =
        let w1 = record w { reports = s1 } in
        after_key-Stores key p.content size digest
          (post_init (artifact_of sha256 tenant run_id kept at p key (size, digest))) (rest w1) w w1
          (put_cases sha256 key p.content p.write_fault w.reports s1 size digest h) refl (ih w1)

    with_key-Stores :
        (p : Payload) (made : Result Text) (w : Lab) (rest : Lab → Stored sha256)
        → ((w1 : Lab) → Stores w1 (rest w1))
        → Stores w (with_key sha256 tenant run_id kept at p made rest w)
    unfolding with_key
    with_key-Stores p (err e) w rest ih = (Added-nothing w.reports w.reports refl, refl)
    with_key-Stores p (ok key) w rest ih =
        after_put-Stores p key w (put sha256 key p.content p.write_fault w.reports) rest refl ih

    -- The loop adds the files of its keys, and does not touch the database.
    pub store_all-Stores :
        (payloads : List Payload) (w : Lab)
        → Stores w (store_all sha256 tenant run_id kept at payloads w)
    unfolding store_all
    store_all-Stores [] w = (Added-nothing w.reports w.reports refl, refl)
    store_all-Stores (p ∷ payloads) w =
        with_key-Stores p (build_artifact_key tenant run_id p.artifact_id p.format) w
          (store_all sha256 tenant run_id kept at payloads) (store_all-Stores payloads)

  module _ (others : ℕ → Database → Database) where
    -- When the call raises, the contents of every path are those of `s`.
    abbrev Restores : FileStore → Result (Option EvaluationRun) × Lab → Type 0
    Restores s m =
        is_ok m.0 ≡ false → (q : Parts) → contents q m.1.reports.files ≡ contents q s.files

    -- Whatever the handler's transaction does, the reports are those that the deletions left.
    handle-Restores :
        (tenant : Text) (claim : LeaseClaim) (at : Timestamp) (e : Error) (keys : List Text)
        (s : FileStore) (w : Lab)
        → Added keys s w.reports
        → (q : Parts)
        → contents q (handle sha256 others tenant claim at e keys w).1.reports.files
          ≡ contents q s.files
    unfolding handle meanwhile
    handle-Restores tenant claim at e keys s w h q =
        let (worked, kept, back) = delete_all-restores sha256 keys s w h in
        ground (arith, worked, back q)

    handled-Restores :
        (tenant : Text) (claim : LeaseClaim) (at : Timestamp) (keys : List Text) (s : FileStore)
        (m : Result (Option EvaluationRun) × Lab)
        → Added keys s m.1.reports
        → Restores s (handled sha256 others tenant claim at keys m)
    unfolding handled
    handled-Restores tenant claim at keys s (ok run, w) h = λ e. absurd (ground arith)
    handled-Restores tenant claim at keys s (err e, w) h =
        λ _. handle-Restores tenant claim at e keys s w h

    publish-reports :
        (tenant : Text) (claim : LeaseClaim) (at : Timestamp) (fault : Option Error)
        (artifacts : List ReportArtifact) (w : Lab)
        → (publish sha256 others tenant claim at fault artifacts w).1.reports ≡ w.reports
    unfolding publish reread
    publish-reports tenant claim at none artifacts w = ground arith
    publish-reports tenant claim at (some e) artifacts w = ground arith

    prepare-reports :
        (tenant : Text) (claim : LeaseClaim) (at : Timestamp) (w : Lab)
        → (prepare sha256 others tenant claim at w).1.reports ≡ w.reports
    unfolding prepare
    prepare-reports tenant claim at w = ground arith

    after_store-Restores :
        (tenant : Text) (claim : LeaseClaim) (course : Course) (s : FileStore) (m : Stored sha256)
        → Added m.1 s m.2.reports
        → Restores s (after_store sha256 others tenant claim course m)
    unfolding after_store
    after_store-Restores tenant claim course s (err e, keys, w) h =
        handled-Restores tenant claim course.failed_at keys s (err e, w) h
    after_store-Restores tenant claim course s (ok artifacts, keys, w) h =
        handled-Restores tenant claim course.failed_at keys s
          (publish sha256 others tenant claim course.completed_at course.reread_fault artifacts w)
          (subst (Added keys s)
            (sym (publish-reports tenant claim course.completed_at course.reread_fault artifacts w))
            h)

    after_prepare-Restores :
        (tenant : Text) (kept : ℕ) (claim : LeaseClaim) (course : Course) (payloads : List Payload)
        (s : FileStore) (m : Result (Unit {0}) × Lab)
        → m.1.reports ≡ s
        → Restores s (after_prepare sha256 others tenant kept claim course payloads m)
    unfolding after_prepare
    after_prepare-Restores tenant kept claim course payloads s (err e, w) same =
        handled-Restores tenant claim course.failed_at [] s (err e, w)
          (Added-nothing s w.reports (ap (λ (t : FileStore). t.files) same))
    after_prepare-Restores tenant kept claim course payloads s (ok _, w) same =
        subst
          (λ t.
            Restores t (after_prepare sha256 others tenant kept claim course payloads (ok tt, w)))
          same
          (after_store-Restores tenant claim course w.reports
            (store_all sha256 tenant claim.run.id kept course.generated_at payloads w)
            (store_all-Stores tenant claim.run.id kept course.generated_at payloads w).0)

    evaluate_run-Restores :
        (tenant : Text) (kept : ℕ) (claim : LeaseClaim) (course : Course)
        (rendered : Result (List Payload)) (s : FileStore) (w : Lab)
        → w.reports ≡ s
        → Restores s (evaluate_run sha256 others tenant kept claim course rendered w)
    unfolding evaluate_run
    evaluate_run-Restores tenant kept claim course (err e) s w same =
        handled-Restores tenant claim course.failed_at [] s (err e, w)
          (Added-nothing s w.reports (ap (λ (t : FileStore). t.files) same))
    evaluate_run-Restores tenant kept claim course (ok payloads) s w same =
        after_prepare-Restores tenant kept claim course payloads s
          (prepare sha256 others tenant claim course.generated_at w)
          (prepare-reports tenant claim course.generated_at w ∙ same)

    run_claim-Restores :
        (tenant : Text) (kept : ℕ) (course : Course) (render : Seed → Result (List Payload))
        (m : Result (Option LeaseClaim) × Database) (w : Lab)
        → Restores w.reports (
            ((λ (_ : Lab). on_database w m) >>= run_claim sha256 others tenant kept course render)
              w)
    unfolding run_claim
    run_claim-Restores tenant kept course render (err e, d) w = λ _ q. refl
    run_claim-Restores tenant kept course render (ok none, d) w = λ e. absurd (ground arith)
    run_claim-Restores tenant kept course render (ok (some claim), d) w =
        evaluate_run-Restores tenant kept claim course (render claim.run.seed) w.reports
          (record w { database = d }) refl

    -- When `process_next` raises, at whichever step, a write that the system refuses and the last
    -- read of the run included, every path of the store of reports has the contents that it had
    -- before the call, whatever other processes did to the database meanwhile. The temporary file
    -- of a refused write is no path of the store; the deletions of the handler are not refused.
    pub process_next_restores_reports :
        (tenant : Text) (kept : ℕ) (owner : Text) (course : Course)
        (render : Seed → Result (List Payload)) (w : Lab)
        → is_ok (process_next sha256 others tenant kept owner course render w).0 ≡ false
        → (q : Parts)
        → contents q (process_next sha256 others tenant kept owner course render w).1.reports.files
          ≡ contents q w.reports.files
    unfolding process_next
    process_next_restores_reports tenant kept owner course render w =
        run_claim-Restores tenant kept course render
          (transaction (claim_and_start tenant owner course.started) w.database) w
