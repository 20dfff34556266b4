-- ===== src/Evaluation/Benchmark/Groups.antt =====
-- benchmark_metrics.py: `_group_dimensions` against the selection of each name's records.
use ai_agent_security_lab.Prelude.{
  append_nil, append_assoc, ◌≡◌, refl, sym, ◌∙◌, ap, List, [], ◌∷◌, ◌++◌, Option, none, some, Text,
  text_eq, text_eq_iff, select, map, map_option, if◌then◌else◌, arith, Bool-cases, inl, inr,
}
use ai_agent_security_lab.Evaluation.Benchmark.{
  BenchmarkRecord, dimension_metrics, add_to, grouped, insert_group, sorted_groups,
  group_dimensions,
}

abbrev Groups : Type 0
Groups = List (Text × List BenchmarkRecord)

-- the value of a name in a dictionary
abbrev value_of {ℓ} : {A : Type ℓ} → Text → List (Text × A) → Option A
value_of name [] = none
value_of name ((n, a) ∷ entries) = if text_eq n name then some a else value_of name entries

-- what a group is after more records of its name
abbrev extended :
    Option (List BenchmarkRecord) → List BenchmarkRecord → Option (List BenchmarkRecord)
extended none [] = none
extended none (r ∷ more) = some (r ∷ more)
extended (some items) more = some (items ++ more)

extended_nil : (o : Option (List BenchmarkRecord)) → extended o [] ≡ o
extended_nil none = refl
extended_nil (some items) = ap some (append_nil items)

extended_twice :
    (o : Option (List BenchmarkRecord)) (r : BenchmarkRecord) (more : List BenchmarkRecord)
    → extended (extended o (r ∷ [])) more ≡ extended o (r ∷ more)
extended_twice none r more = refl
extended_twice (some items) r more = ap some (append_assoc items (r ∷ []) more)

value-add_to :
    (name k : Text) (r : BenchmarkRecord) (groups : Groups)
    → value_of name (add_to k r groups)
      ≡ (if text_eq k name then extended (value_of name groups) (r ∷ []) else value_of name groups)
unfolding add_to
value-add_to name k r [] = ground arith
value-add_to name k r ((n, items) ∷ groups) =
    ground
      (arith, value-add_to name k r groups, text_eq_iff n k, text_eq_iff n name, text_eq_iff k name)

value-grouped :
    (key : BenchmarkRecord → Text) (name : Text) (records : List BenchmarkRecord) (groups : Groups)
    → value_of name (grouped key records groups)
      ≡ extended (value_of name groups) (select (λ r. text_eq (key r) name) records)
unfolding grouped
value-grouped key name [] groups = sym (extended_nil (value_of name groups))
value-grouped key name (r ∷ records) groups =
    value-grouped key name records (add_to (key r) r groups)
    ∙ elim (Bool-cases (text_eq (key r) name)) [
      | inl e ↦
          rw (value-add_to name (key r) r groups, e)
            (extended_twice (value_of name groups) r (select (λ r. text_eq (key r) name) records))
      | inr e ↦ rw (value-add_to name (key r) r groups, e) refl
    ]

abbrev Distinct : Groups → Type 0
Distinct [] = Unit
Distinct ((n, items) ∷ groups) = (value_of n groups ≡ none) × Distinct groups

add_to-Distinct :
    (k : Text) (r : BenchmarkRecord) (groups : Groups)
    → Distinct groups
    → Distinct (add_to k r groups)
unfolding add_to
add_to-Distinct k r [] h = (refl, tt)
add_to-Distinct k r ((n, items) ∷ groups) (free, h) = elim (Bool-cases (text_eq n k)) [
  | inl e ↦ rw e (free, h)
  | inr e ↦ rw e (
    ground (arith, value-add_to n k r groups, text_eq_iff k n, text_eq_iff n k),
    add_to-Distinct k r groups h,
  )
]

grouped-Distinct :
    (key : BenchmarkRecord → Text) (records : List BenchmarkRecord) (groups : Groups)
    → Distinct groups
    → Distinct (grouped key records groups)
unfolding grouped
grouped-Distinct key [] groups h = h
grouped-Distinct key (r ∷ records) groups h =
    grouped-Distinct key records (add_to (key r) r groups) (add_to-Distinct (key r) r groups h)

value-insert_group :
    (name n : Text) (items : List BenchmarkRecord) (groups : Groups)
    → value_of n groups ≡ none
    → value_of name (insert_group (n, items) groups) ≡ value_of name ((n, items) ∷ groups)
unfolding insert_group
value-insert_group name n items [] h = refl
value-insert_group name n items ((k, others) ∷ groups) h = ground (
  arith,
  value-insert_group name n items groups,
  text_eq_iff k n,
  text_eq_iff n name,
  text_eq_iff k name,
)

value-sorted_groups :
    (name : Text) (groups : Groups)
    → Distinct groups
    → value_of name (sorted_groups groups) ≡ value_of name groups
unfolding sorted_groups
value-sorted_groups name [] h = refl
value-sorted_groups name ((n, items) ∷ groups) (free, h) =
    value-insert_group name n items (sorted_groups groups) (value-sorted_groups n groups h ∙ free)
    ∙ ap (λ rest. if text_eq n name then some items else rest) (value-sorted_groups name groups h)

value-map :
    (name : Text) (groups : Groups)
    → value_of name (map (λ (g : Text × List BenchmarkRecord). (g.0, dimension_metrics g.1)) groups)
      ≡ map_option dimension_metrics (value_of name groups)
value-map name [] = refl
value-map name ((n, items) ∷ groups) = ground (arith, value-map name groups)

-- The groups of a dimension have an entry for a name exactly if a record has the name, and its
-- metrics are those of the records of the name, in their order.
group_dimensions_lem :
    (key : BenchmarkRecord → Text) (name : Text) (records : List BenchmarkRecord)
    → value_of name (group_dimensions key records)
      ≡ elim (select (λ r. text_eq (key r) name) records) [
        | [] ↦ none
        | r ∷ mine ↦ some (dimension_metrics (r ∷ mine))
      ]
unfolding group_dimensions
group_dimensions_lem key name records =
    value-map name (sorted_groups (grouped key records []))
    ∙ ap (map_option dimension_metrics) (
        value-sorted_groups name (grouped key records []) (grouped-Distinct key records [] tt)
        ∙ value-grouped key name records [])
    ∙ metrics (select (λ r. text_eq (key r) name) records)
  where
    metrics :
        (mine : List BenchmarkRecord)
        → map_option dimension_metrics (extended none mine)
          ≡ elim mine [ [] ↦ none | r ∷ rest ↦ some (dimension_metrics (r ∷ rest)) ]
    metrics [] = refl
    metrics (r ∷ rest) = refl
