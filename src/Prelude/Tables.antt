-- ===== src/Prelude/Tables.antt =====
-- Database tables as lists of rows, in the order of insertion.
use mathlib.Core.Path.{◌≡◌, refl, subst}
use mathlib.Core.Logic.{inl, inr}
use mathlib.Core.Bool.{Bool, true}
use mathlib.Core.Option.{Option, none, some}
use mathlib.Core.List.{List, [], ◌∷◌, ◌++◌}
use native.Mathlib.Omega.{arith}
use ai_agent_security_lab.Prelude.Tests.{if◌then◌else◌, Bool-cases}
use ai_agent_security_lab.Prelude.Lists.{first_where, All}

module _ {ℓ} {R : Type ℓ} where
  -- `UPDATE … WHERE p SET f`
  abbrev pub update_where : (R → Bool) → (R → R) → List R → List R
  update_where p f [] = []
  update_where p f (r ∷ rows) = (if p r then f r else r) ∷ update_where p f rows

  abbrev pub map_option {κ} : {B : Type κ} → (R → B) → Option R → Option B
  map_option f none = none
  map_option f (some r) = some (f r)

  pub All-update_where {κ} :
      (P : R → Type κ) (p : R → Bool) (f : R → R) (rows : List R)
      → ((r : R) → P r → p r ≡ true → P (f r))
      → All P rows
      → All P (update_where p f rows)
  All-update_where P p f [] keep h = h
  All-update_where P p f (r ∷ rows) keep h = elim (Bool-cases (p r)) [
    | inl e ↦ (rw e (keep r h.0 e), All-update_where P p f rows keep h.1)
    | inr e ↦ (rw e h.0, All-update_where P p f rows keep h.1)
  ]

  -- A key that the update leaves alone finds the updated row.
  pub first_where-update_where :
      (key p : R → Bool) (f : R → R) (rows : List R)
      → ((r : R) → key (f r) ≡ key r)
      → first_where key (update_where p f rows)
        ≡ map_option (λ r. if p r then f r else r) (first_where key rows)
  first_where-update_where key p f [] keep = refl
  first_where-update_where key p f (r ∷ rows) keep =
      ground (arith, keep r, first_where-update_where key p f rows keep)

  pub first_where-append :
      (key : R → Bool) (rows more : List R) (r : R)
      → first_where key rows ≡ some r
      → first_where key (rows ++ more) ≡ some r
  first_where-append key [] more r h = cc
  first_where-append key (x ∷ rows) more r h = ground (arith, first_where-append key rows more r)

  pub first_where-holds :
      (p : R → Bool) (rows : List R) (r : R) → first_where p rows ≡ some r → p r ≡ true
  first_where-holds p [] r e = cc
  first_where-holds p (x ∷ rows) r e = ground (arith, first_where-holds p rows r)

  pub All-first_where {κ} :
      (P : R → Type κ) (p : R → Bool) (rows : List R) (r : R)
      → All P rows
      → first_where p rows ≡ some r
      → P r
  All-first_where P p [] r h e = absurd (cc)
  All-first_where P p (x ∷ rows) r h e = elim (Bool-cases (p x)) [
    | inl t ↦ subst P (ground arith) h.0
    | inr f ↦ All-first_where P p rows r h.1 (ground arith)
  ]

  pub All-append {κ} :
      (P : R → Type κ) (rows more : List R) → All P rows → All P more → All P (rows ++ more)
  All-append P [] more h k = k
  All-append P (r ∷ rows) more h k = (h.0, All-append P rows more h.1 k)

  pub first_where-snoc :
      (key : R → Bool) (rows : List R) (r : R)
      → first_where key rows ≡ none
      → first_where key (rows ++ r ∷ []) ≡ (if key r then some r else none)
  first_where-snoc key [] r h = refl
  first_where-snoc key (x ∷ rows) r h = ground (arith, first_where-snoc key rows r)
