-- ===== src/Regex/Occurrence.antt =====
-- Whether a pattern occurs in a text.
use ai_agent_security_lab.Prelude.{
  ◌≡◌, refl, true, Option, none, some, Text, inl, inr, Option-cases, subst, ◌↔◌, is_some,
}
use ai_agent_security_lab.Regex.{Regex, Match, search, beginning, found}
use ai_agent_security_lab.Regex.Search.{Leftmost, Answers, search_refines}

-- The pattern matches from some position of the text.
abbrev pub Occurs : Regex → Text → Type 0
Occurs r s = (m : Match) × Leftmost r (beginning s) s m

pub search-none : (r : Regex) (s : Text) → (search r s ≡ none) ↔ (¬ Occurs r s)
search-none r s = (
  λ e. λ (m, l). subst (Answers r (beginning s) s) e (search_refines r s) m l,
  λ n. elim (Option-cases (search r s)) [
    | inl e ↦ e
    | inr (m, e) ↦ absurd (n (m, subst (Answers r (beginning s) s) e (search_refines r s)))
  ],
)

pub search-some : (r : Regex) (s : Text) (m : Match) → search r s ≡ some m → Occurs r s
search-some r s m e = (m, subst (Answers r (beginning s) s) e (search_refines r s))

is_some-Occurs :
    (r : Regex) (s : Text) (o : Option Match) → search r s ≡ o → (is_some o ≡ true) ↔ Occurs r s
is_some-Occurs r s none e = (λ h. cc, λ o. absurd ((search-none r s).0 e o))
is_some-Occurs r s (some m) e = (λ h. search-some r s m e, λ o. refl)

-- The test of a pattern holds exactly of the texts where it occurs.
pub found_iff : (r : Regex) (s : Text) → (found r s ≡ true) ↔ Occurs r s
unfolding found
found_iff r s = is_some-Occurs r s (search r s) refl
