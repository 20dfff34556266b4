-- ===== src/Regex.antt =====
-- What the program uses of Python's `re`, with the flag IGNORECASE: the patterns as a data type,
-- and the backtracking search. A literal is compared without its case. The classes `\w` and `\d`
-- are those of ASCII.
pub mod Notation
pub mod Meaning
pub mod Decides
pub mod Spans
pub mod Search
pub mod Occurrence
use mathlib.Core.Option
use ai_agent_security_lab.Prelude.{
  ℕ, zero, suc, ◌+◌, ◌-◌, ◌&&◌, ◌||◌, not, Bool, true, false, List, [], ◌∷◌, ◌++◌, map, Option,
  none, some, Text, text, text_eq, length, take, any, leb, ltb, ◌==◌, if◌then◌else◌, is_space,
  String, select, is_some, first_where,
}

-- A character of the text as the flag IGNORECASE reads it, against the letters of ASCII.
unfoldable pub fold : ℕ → ℕ
fold c =
    if leb b'A' c && leb c b'Z'
    then c + 32
    else if c == 0x130 || c == 0x131
    then b'i'
    else if c == 0x17f
    then b's'
    else if c == 0x212a
    then b'k'
    else c

unfoldable pub is_word : ℕ → Bool
is_word c =
    (leb b'a' c && leb c b'z')
    || (leb b'A' c && leb c b'Z')
    || (leb b'0' c && leb c b'9')
    || c == b'_'

pub data Regex : Type 0 where
  empty word_boundary start finish : Regex
  char not_after : (ℕ → Bool) → Regex
  seq alt : Regex → Regex → Regex
  -- `{lo,hi}`; `none` is no upper bound
  repeat : (is_lazy : Bool) (lo : ℕ) (hi : Option ℕ) → Regex → Regex
  group : Text → Regex → Regex

pub record Group : Type 0 where
  pub name : Text
  pub start_at : ℕ
  pub value : Text

-- A position of the search: what stands before and after it, and the groups so far.
pub record Pos : Type 0 where
  pub index : ℕ
  pub before : Option ℕ
  pub rest : Text
  pub groups : List Group

abbrev pub left : Pos → ℕ
left p = length p.rest

abbrev pub step_over : ℕ → Text → Pos → Pos
step_over c rest p = record p { index = suc p.index; before = some c; rest = rest }

abbrev pub close : Text → Pos → Pos → Pos
close name p q = record q {
  groups =
      record { name = name; start_at = p.index; value = take (left p - left q) p.rest } ∷ q.groups;
}

word_at : Option ℕ → Bool
unfolding is_word
word_at none = false
word_at (some c) = is_word c

first : Text → Option ℕ
first [] = none
first (c ∷ s) = some c

-- `\b`, `^` and `$`
unfoldable pub at_boundary : Pos → Bool
unfolding word_at first
at_boundary p =
    let a = word_at p.before in let b = word_at (first p.rest) in (a && not b) || (b && not a)

unfoldable pub at_start : Pos → Bool
at_start p = p.index == 0

unfoldable pub at_finish : Pos → Bool
unfolding text_eq
at_finish p = text_eq p.rest [] || text_eq p.rest (10 ∷ [])

unfoldable pub follows : (ℕ → Bool) → Option ℕ → Bool
follows test none = false
follows test (some c) = test c

abbrev pub when : Bool → Pos → List Pos
when b p = if b then p ∷ [] else []

unfoldable pub consume : (ℕ → Bool) → Pos → Text → List Pos
consume test p [] = []
consume test p (c ∷ s) = when (test c) (step_over c s p)

unfoldable pub each {ℓ κ} : {A : Type ℓ} {B : Type κ} → (A → List B) → List A → List B
each f [] = []
each f (x ∷ xs) = f x ++ each f xs

abbrev pub pred : Option ℕ → Option ℕ
pred none = none
pred (some zero) = some zero
pred (some (suc n)) = some n

abbrev pub may_repeat : Option ℕ → Bool
may_repeat (some zero) = false
may_repeat _ = true

-- The rounds of a repetition, each of which has to consume something.
unfoldable pub rounds : (Pos → List Pos) → Bool → ℕ → ℕ → Option ℕ → Pos → List Pos
unfolding each
rounds step is_lazy zero lo hi p = when (lo == 0) p
rounds step is_lazy (suc fuel) lo hi p =
    let more =
      each (rounds step is_lazy fuel (lo - 1) (pred hi))
        (select (λ q. ltb (left q) (left p)) (step p)) in
    let again = if may_repeat hi then more else [] in
    let stop = when (lo == 0) p in if is_lazy then stop ++ again else again ++ stop

-- The positions where a match that begins at `p` ends, in the order of the backtracking.
unfoldable pub ends : Regex → Pos → List Pos
unfolding consume each rounds at_boundary at_start at_finish follows
ends empty p = p ∷ []
ends word_boundary p = when (at_boundary p) p
ends start p = when (at_start p) p
ends finish p = when (at_finish p) p
ends (char test) p = consume test p p.rest
ends (not_after test) p = when (not (follows test p.before)) p
ends (seq r s) p = each (ends s) (ends r p)
ends (alt r s) p = ends r p ++ ends s p
ends (repeat is_lazy lo hi r) p = rounds (ends r) is_lazy (left p) lo hi p
ends (group name r) p = map (close name p) (ends r p)

pub record Match : Type 0 where
  pub from : Pos
  pub to : Pos

-- `pattern.match`, at one position
unfoldable pub match_at : List Pos → Pos → Option Match
match_at [] p = none
match_at (q ∷ qs) p = some (record { from = p; to = q })

unfoldable pub or_else : {A : Type 0} → Option A → Option A → Option A
or_else none y = y
or_else (some x) y = some x

unfoldable pub search_from : Regex → Pos → Text → Option Match
unfolding match_at or_else ends
search_from r p [] = match_at (ends r p) p
search_from r p (c ∷ s) = or_else (match_at (ends r p) p) (search_from r (step_over c s p) s)

abbrev pub beginning : Text → Pos
beginning s = record { index = 0; before = none; rest = s; groups = [] }

-- `pattern.search`
unfoldable pub search : Regex → Text → Option Match
unfolding search_from
search r s = search_from r (beginning s) s

-- `m.group(0)`
abbrev pub whole : Match → Text
whole m = take (left m.from - left m.to) m.from.rest

unfoldable pub found : Regex → Text → Bool
found r s = is_some (search r s)

-- `m.group(name)` and `m.start(name)`; `none` where the group took no part in the match
unfoldable pub group_of : Text → Match → Option Group
group_of name m = first_where (λ (g : Group). text_eq g.name name) m.to.groups

unfoldable pub group_text : Text → Match → Option Text
group_text name m = Option.map (λ (g : Group). g.value) (group_of name m)

-- `name in m.groupdict()`, which the pattern says
unfoldable pub has_group : Text → Regex → Bool
has_group name (seq r s) = has_group name r || has_group name s
has_group name (alt r s) = has_group name r || has_group name s
has_group name (repeat is_lazy lo hi r) = has_group name r
has_group name (group other r) = text_eq other name || has_group name r
has_group name r = false

-- `re.finditer` of a pattern that matches no empty text
find_from : (fuel : ℕ) → Regex → Pos → List Match
find_from zero r p = []
find_from (suc fuel) r p = elim (search_from r p p.rest) [
  | none ↦ []
  | some m ↦ m ∷ find_from fuel r (record m.to { groups = [] })
]

unfoldable pub find_all : Regex → Text → List Match
unfolding find_from
find_all r s = find_from (suc (length s)) r (beginning s)
