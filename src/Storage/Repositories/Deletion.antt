-- ===== src/Storage/Repositories/Deletion.antt =====
-- storage/models.py: the foreign keys of runs and artifacts under `ProjectRepository.delete`.
use ai_agent_security_lab.Prelude.{
  ◌≡◌, refl, ◌&&◌, not, Bool, true, false, List, [], ◌∷◌, Text, text_eq, any, all, select, arith,
}
use ai_agent_security_lab.Domain.Entities.{Project}
use ai_agent_security_lab.Domain.Runs.{EvaluationRun}
use ai_agent_security_lab.Domain.Artifacts.{ReportArtifact}
use ai_agent_security_lab.Storage.Database.{Database}
use ai_agent_security_lab.Storage.Repositories.{is_project, delete_project, run_gone}

abbrev pub has_project : List Project → EvaluationRun → Bool
has_project projects r = any (λ (q : Project). text_eq q.id r.project_id) projects

abbrev pub has_run : List EvaluationRun → ReportArtifact → Bool
has_run runs a = any (λ (r : EvaluationRun). text_eq r.id a.run_id) runs

-- Every run has its project, and every artifact its run.
abbrev pub Linked : Database → Type 0
Linked d = (all (has_project d.projects) d.runs ≡ true) × (all (has_run d.runs) d.artifacts ≡ true)

module _ {A : Type 0} (p : A → Bool) where
  any-kept :
      (f : A → Bool) (rows : List A)
      → any f rows ≡ true
      → any (λ x. p x && f x) rows ≡ false
      → any f (select (λ x. not (p x)) rows) ≡ true
  any-kept f [] h k = h
  any-kept f (x ∷ rows) h k = ground (arith, any-kept f rows)

-- The rows that refer to a kept row are kept with it.
children-kept :
    {A B : Type 0} (p : A → Bool) (refers : B → A → Bool) (parents : List A) (rows : List B)
    → all (λ b. any (refers b) parents) rows ≡ true
    → all
        (λ b. any (refers b) (select (λ x. not (p x)) parents))
        (select (λ b. not (any (λ x. p x && refers b x) parents)) rows)
      ≡ true
children-kept p refers parents [] h = refl
children-kept p refers parents (b ∷ rows) h =
    ground (arith, any-kept p (refers b) parents, children-kept p refers parents rows)

-- A deletion of a project leaves no run without its project and no artifact without its run.
pub delete_project-Linked :
    (tenant project_id : Text) (d : Database)
    → Linked d
    → Linked (delete_project tenant project_id d).1
unfolding delete_project
delete_project-Linked tenant project_id d (runs, artifacts) = (
  children-kept (is_project tenant project_id) (λ r q. text_eq q.id r.project_id) d.projects d.runs
      runs,
  children-kept (run_gone (is_project tenant project_id) d.projects) (λ a r. text_eq r.id a.run_id)
      d.runs d.artifacts artifacts,
)
