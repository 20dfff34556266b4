-- ===== src/Application/Work.antt =====
-- A call of the application: it may change the database and the store of reports, and may raise.
use ai_agent_security_lab.Prelude.{Result, ok, err}
use ai_agent_security_lab.Storage.Database.{Database, Action, transaction}
use ai_agent_security_lab.Storage.ArtifactStore.{FileStore}

pub record Lab : Type 0 where
  pub database : Database
  pub reports : FileStore

abbrev pub Work : Type 0 → Type 0
Work A = Lab → Result A × Lab

module _ {A : Type 0} where
  abbrev pub done : A → Work A
  done a w = (ok a, w)

  abbrev pub of_result : Result A → Work A
  of_result r w = (r, w)

  abbrev pub on_database : Lab → Result A × Database → Result A × Lab
  on_database w (r, d) = (r, record w { database = d })

  -- `with sessions.begin()`
  abbrev pub in_transaction : Action A → Work A
  in_transaction m w = on_database w (transaction m w.database)

  -- `with sessions()`, for reading
  abbrev pub in_session : Action A → Work A
  in_session m w = on_database w (m w.database)

  abbrev pub on_reports : Lab → Result A × FileStore → Result A × Lab
  on_reports w (r, s) = (r, record w { reports = s })

  abbrev pub in_store : (FileStore → Result A × FileStore) → Work A
  in_store m w = on_reports w (m w.reports)

infixl 5 ◌>>=◌ ◌>>◌
abbrev pub ◌>>=◌ : {A B : Type 0} → Work A → (A → Work B) → Work B
◌>>=◌ m f w = let (r, w') = m w in elim r [ ok a ↦ f a w' | err e ↦ (err e, w') ]

abbrev pub ◌>>◌ : {A B : Type 0} → Work A → Work B → Work B
m >> k = m >>= λ _. k
