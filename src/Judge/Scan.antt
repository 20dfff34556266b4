-- ===== src/Judge/Scan.antt =====
-- judge.py: the first balanced span of braces in a reply.
use ai_agent_security_lab.Prelude.{
  ℕ, zero, suc, [], ◌∷◌, Option, none, some, Text, ◌==◌, if◌then◌else◌,
}
use mathlib.Core.Option

-- What the loop keeps: the depth, and whether it is in a string and after a backslash.
pub data Place : Type 0 where
  outside inside escaped : Place

-- the loop over the characters: the span to the brace that closes the first one
unfoldable pub scan : Place → (depth : ℕ) → Text → Option Text
scan place depth [] = none
scan escaped depth (c ∷ s) = Option.map (λ t. c ∷ t) (scan inside depth s)
scan inside depth (c ∷ s) =
    let stay = scan inside depth s in
    let escape = scan escaped depth s in
    let leave = scan outside depth s in
    Option.map (λ t. c ∷ t) (if c == b'\\' then escape else if c == b'"' then leave else stay)
scan outside zero (c ∷ s) =
    let stay = scan outside zero s in
    let enter = scan inside zero s in
    let deeper = scan outside 1 s in
    Option.map (λ t. c ∷ t) (if c == b'"' then enter else if c == b'{' then deeper else stay)
scan outside (suc depth) (c ∷ s) =
    let stay = scan outside (suc depth) s in
    let enter = scan inside (suc depth) s in
    let deeper = scan outside (suc (suc depth)) s in
    let up = scan outside depth s in
    let closed : Option Text = elim depth [ zero ↦ some [] | suc _ ↦ up ] in
    Option.map (λ t. c ∷ t)
      (if c == b'"'
        then enter
        else if c == b'{'
        then deeper
        else if c == b'}'
        then closed
        else stay)

-- the scan from the first opening brace
unfoldable pub recovered_span : Text → Option Text
recovered_span [] = none
recovered_span (c ∷ s) =
    let rest = recovered_span s in if c == b'{' then scan outside 0 (c ∷ s) else rest
