-- ===== src/Regex/Meaning.antt =====
-- What it means for a pattern to match between two positions, with no order of search in it.
use ai_agent_security_lab.Prelude.{ℕ, ◌-◌, ◌<◌, ◌≡◌, ◌∷◌, Bool, true, false, Option, Text}
use ai_agent_security_lab.Regex.{
  Regex, empty, word_boundary, start, finish, char, not_after, seq, alt, repeat, group, Pos, left,
  at_boundary, at_start, at_finish, follows, step_over, close, pred, may_repeat,
}

pub data Derives : Regex → Pos → Pos → Type 0 where
  nothing : {p : Pos} → Derives empty p p
  boundary : {p : Pos} → at_boundary p ≡ true → Derives word_boundary p p
  begins : {p : Pos} → at_start p ≡ true → Derives start p p
  finishes : {p : Pos} → at_finish p ≡ true → Derives finish p p
  behind :
      {test : ℕ → Bool} {p : Pos} → follows test p.before ≡ false → Derives (not_after test) p p
  one :
      {test : ℕ → Bool} {p : Pos} {c : ℕ} {s : Text}
      → p.rest ≡ c ∷ s
      → test c ≡ true
      → Derives (char test) p (step_over c s p)
  both : {r s : Regex} {p q t : Pos} → Derives r p q → Derives s q t → Derives (seq r s) p t
  this : {r s : Regex} {p q : Pos} → Derives r p q → Derives (alt r s) p q
  that : {r s : Regex} {p q : Pos} → Derives s p q → Derives (alt r s) p q
  done :
      {is_lazy : Bool} {hi : Option ℕ} {r : Regex} {p : Pos} → Derives (repeat is_lazy 0 hi r) p p
  round :
      {is_lazy : Bool} {lo : ℕ} {hi : Option ℕ} {r : Regex} {p q t : Pos}
      → may_repeat hi ≡ true
      → Derives r p q
      → left q < left p
      → Derives (repeat is_lazy (lo - 1) (pred hi) r) q t
      → Derives (repeat is_lazy lo hi r) p t
  named :
      {name : Text} {r : Regex} {p q : Pos}
      → Derives r p q
      → Derives (group name r) p (close name p q)
