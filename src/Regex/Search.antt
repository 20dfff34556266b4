-- ===== src/Regex/Search.antt =====
-- `search`: the leftmost position where the pattern matches, and the first end there.
use ai_agent_security_lab.Prelude.{
  ℕ, ◌+◌, ◌≡◌, refl, List, [], ◌∷◌, ◌++◌, Option, none, some, Text, length, arith, All, subst, sym,
  ap, ◌∙◌,
}
use ai_agent_security_lab.Regex.{
  Regex, Pos, Match, whole, ends, match_at, step_over, search_from, search, beginning, or_else,
}
use ai_agent_security_lab.Regex.Meaning.{Derives}
use ai_agent_security_lab.Regex.Decides.{Among, ends-All, Among-ends}
use ai_agent_security_lab.Regex.Spans.{Onward, stay, go, Derives-Onward, whole-Onward}

-- `m` begins at the first position from `p` on where the pattern matches.
pub data Leftmost (r : Regex) : Pos → Text → Match → Type 0 where
  at_once : {p : Pos} {s : Text} {m : Match} → m.from ≡ p → Derives r m.from m.to → Leftmost r p s m
  after :
      {p : Pos} {c : ℕ} {s : Text} {m : Match}
      → ((q : Pos) → ¬ Derives r p q)
      → Leftmost r (step_over c s p) s m
      → Leftmost r p (c ∷ s) m

-- What the result of a search says.
abbrev pub Answers : Regex → Pos → Text → Option Match → Type 0
Answers r p s none = (m : Match) → ¬ Leftmost r p s m
Answers r p s (some m) = Leftmost r p s m

abbrev Local : Regex → Pos → Option Match → Type 0
Local r p none = (q : Pos) → ¬ Derives r p q
Local r p (some m) = (m.from ≡ p) × Derives r p m.to

match_at-Local :
    (r : Regex) (p : Pos) (qs : List Pos)
    → All (Derives r p) qs
    → ((q : Pos) → Derives r p q → Among q qs)
    → Local r p (match_at qs p)
unfolding match_at
match_at-Local r p [] sound complete = complete
match_at-Local r p (q ∷ qs) sound complete = (refl, sound.0)

local : (r : Regex) (p : Pos) → Local r p (match_at (ends r p) p)
local r p = match_at-Local r p (ends r p) (ends-All r p) (Among-ends r p)

first-Leftmost :
    (r : Regex) (p : Pos) (s : Text) (m : Match) → Local r p (some m) → Leftmost r p s m
first-Leftmost r p s m h = at_once h.0 (subst (λ x. Derives r x m.to) (sym h.0) h.1)

not_here :
    (r : Regex) (p : Pos) (m : Match)
    → ((q : Pos) → ¬ Derives r p q)
    → m.from ≡ p
    → ¬ Derives r m.from m.to
not_here r p m h e d = h m.to (subst (λ x. Derives r x m.to) e d)

later-Answers :
    (r : Regex) (p : Pos) (c : ℕ) (s : Text) (o : Option Match)
    → ((q : Pos) → ¬ Derives r p q)
    → Answers r (step_over c s p) s o
    → Answers r p (c ∷ s) o
later-Answers r p c s none h rest =
    λ m l. elim l [ at_once e d ↦ not_here r p m h e d | after _ l' ↦ rest m l' ]
later-Answers r p c s (some m) h rest = after h rest

or_else-Answers :
    (r : Regex) (p : Pos) (c : ℕ) (s : Text) (o rest : Option Match)
    → Local r p o
    → Answers r (step_over c s p) s rest
    → Answers r p (c ∷ s) (or_else o rest)
unfolding or_else
or_else-Answers r p c s none rest h g = later-Answers r p c s rest h g
or_else-Answers r p c s (some m) rest h g = first-Leftmost r p (c ∷ s) m h

at_the_end : (r : Regex) (p : Pos) (o : Option Match) → Local r p o → Answers r p [] o
at_the_end r p none h = λ m l. elim l [ at_once e d ↦ not_here r p m h e d ]
at_the_end r p (some m) h = first-Leftmost r p [] m h

search_from-Answers : (r : Regex) (p : Pos) (s : Text) → Answers r p s (search_from r p s)
unfolding search_from
search_from-Answers r p [] = at_the_end r p _ (local r p)
search_from-Answers r p (c ∷ s) =
    or_else-Answers r p c s _ _ (local r p) (search_from-Answers r (step_over c s p) s)

-- A search answers with the leftmost position where the pattern matches, and with a match that
-- begins there; it answers with none only when the pattern matches nowhere in the text.
pub search_refines : (r : Regex) (s : Text) → Answers r (beginning s) s (search r s)
unfolding search
search_refines r s = search_from-Answers r (beginning s) s

Leftmost-Onward :
    {r : Regex} {p : Pos} {s : Text} {m : Match}
    → p.rest ≡ s
    → Leftmost r p s m
    → Onward p m.from × Onward m.from m.to
Leftmost-Onward e (at_once f d) = (rw f (stay _), Derives-Onward d)
Leftmost-Onward e (after {p = p} {c = c} {s = s} _ l) =
    let (a, b) = Leftmost-Onward refl l in
    (go (record { passed = c ∷ []; same_text = e; moved = omega arith }) a, b)

-- The match has the value `w`, and stands in `s` between its two indices.
abbrev pub StandsIn : Text → Match → Text → Type 0
StandsIn s m w =
    (before : Text) × (after : Text) × (s ≡ before ++ (w ++ after))
    × (m.from.index ≡ length before)
    × (m.to.index ≡ length before + length w)

Onward-StandsIn :
    (s : Text) (m : Match)
    → Onward (beginning s) m.from
    → (o : Onward m.from m.to) → StandsIn s m o.passed
Onward-StandsIn s m a o = (
  a.passed,
  m.to.rest,
  a.same_text ∙ ap (λ t. a.passed ++ t) o.same_text,
  omega (arith, a.moved),
  omega (arith, a.moved, o.moved),
)

-- What a pattern matched stands in the text, between the two indices of the match.
pub search-StandsIn :
    (r : Regex) (s : Text) (m : Match) → search r s ≡ some m → StandsIn s m (whole m)
search-StandsIn r s m e =
    let l = subst (Answers r (beginning s) s) e (search_refines r s) in
    let (a, o) = Leftmost-Onward refl l in
    subst (StandsIn s m) (sym (whole-Onward m o)) (Onward-StandsIn s m a o)
