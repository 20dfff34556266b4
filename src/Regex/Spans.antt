-- ===== src/Regex/Spans.antt =====
-- Where a match stands in the text: it ends at a later position of the same text.
use ai_agent_security_lab.Prelude.{
  append_assoc, take-length-append, sym, ◌+◌, ◌-◌, ◌≡◌, refl, [], ◌∷◌, ◌++◌, Text, length,
  length-append, arith,
}
use ai_agent_security_lab.Regex.{Regex, Pos, Match, whole}
use ai_agent_security_lab.Regex.Meaning.{
  Derives, nothing, boundary, begins, finishes, behind, one, both, this, that, done, round, named,
}

-- `q` stands `n` characters after `p`, in the same text.
pub record Onward (p q : Pos) : Type 0 where
  pub passed : Text
  pub same_text : p.rest ≡ passed ++ q.rest
  pub moved : q.index ≡ p.index + length passed

pub stay : (p : Pos) → Onward p p
stay p = record { passed = []; same_text = refl; moved = omega arith }

pub go : {p q t : Pos} → Onward p q → Onward q t → Onward p t
go {t} m n = record {
  passed = m.passed ++ n.passed;
  same_text = rw (m.same_text, n.same_text) (sym (append_assoc m.passed n.passed t.rest));
  moved = rw (n.moved, m.moved) (omega (arith, length-append m.passed n.passed));
}

pub Derives-Onward : {r : Regex} {p q : Pos} → Derives r p q → Onward p q
Derives-Onward nothing = stay _
Derives-Onward (boundary h) = stay _
Derives-Onward (begins h) = stay _
Derives-Onward (finishes h) = stay _
Derives-Onward (behind h) = stay _
Derives-Onward (one {c = c} e h) = record { passed = c ∷ []; same_text = e; moved = omega arith }
Derives-Onward (both d e) = go (Derives-Onward d) (Derives-Onward e)
Derives-Onward (this d) = Derives-Onward d
Derives-Onward (that d) = Derives-Onward d
Derives-Onward done = stay _
Derives-Onward (round m d l e) = go (Derives-Onward d) (Derives-Onward e)
Derives-Onward (named d) =
    let o = Derives-Onward d in
    record { passed = o.passed; same_text = o.same_text; moved = o.moved }

-- `m.group(0)` is what stands between the two positions.
pub whole-Onward : (m : Match) (o : Onward m.from m.to) → whole m ≡ o.passed
whole-Onward m o =
    let e : length o.passed + length m.to.rest - length m.to.rest ≡ length o.passed = omega arith in
    rw (o.same_text, length-append o.passed m.to.rest, e) (take-length-append o.passed m.to.rest)
