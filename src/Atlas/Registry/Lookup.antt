-- ===== src/Atlas/Registry/Lookup.antt =====
-- atlas/registry.py: what stays and what is found after registrations.
use ai_agent_security_lab.Prelude.{
  ◌≡◌, refl, sym, subst, ap, ◌∙◌, true, List, [], ◌∷◌, ◌++◌, none, some, Text, text_eq,
  text_eq_refl, strip, Result, ok, err, is_ok, is_some, if◌then◌else◌, arith, All, Bool-cases,
  Option-cases, inl, inr, ◌↔◌,
}
use ai_agent_security_lab.Atlas.Registry.{
  AtlasTactic, Registry, lookup, register_tactics, Loaded, failed, another, tactic, after_register,
  cons_name, load_one, load_plugin_tactics, upper, get_tactic,
}

lookup-append :
    (key k : Text) (t : AtlasTactic) (r : Registry)
    → lookup key (r ++ (k, t) ∷ [])
      ≡ elim (lookup key r) [ some u ↦ some u | none ↦ if text_eq k key then some t else none ]
unfolding lookup
lookup-append key k t [] = ground arith
lookup-append key k t ((j, u) ∷ r) = ground (arith, lookup-append key k t r)

-- Whatever is registered stays under its key.
abbrev Kept : Registry → Registry → Type 0
Kept r r' = (key : Text) (t : AtlasTactic) → lookup key r ≡ some t → lookup key r' ≡ some t

register-Kept : (tactics : List AtlasTactic) (r : Registry) → Kept r (register_tactics tactics r).1
unfolding register_tactics
register-Kept [] r = λ key t h. h
register-Kept (t ∷ tactics) r = λ key u h.
    ground (arith, lookup-append key t.id t r, register-Kept tactics (r ++ (t.id, t) ∷ []) key u)

register_step :
    (t : AtlasTactic) (tactics : List AtlasTactic) (r : Registry)
    → lookup t.id r ≡ none
    → register_tactics (t ∷ tactics) r ≡ register_tactics tactics (r ++ (t.id, t) ∷ [])
unfolding register_tactics
register_step t tactics r e = rw e refl

added :
    (t : AtlasTactic) (r : Registry)
    → lookup t.id r ≡ none
    → lookup t.id (r ++ (t.id, t) ∷ []) ≡ some t
added t r e = ground (arith, lookup-append t.id t.id t r, text_eq_refl t.id)

register-Found :
    (tactics : List AtlasTactic) (r : Registry)
    → is_ok (register_tactics tactics r).0 ≡ true
    → All (λ (t : AtlasTactic). lookup t.id (register_tactics tactics r).1 ≡ some t) tactics
unfolding register_tactics
register-Found [] r h = tt
register-Found (t ∷ tactics) r h = elim (Option-cases (lookup t.id r)) [
  | inr (u, e) ↦ absurd (ground arith)
  | inl e ↦
      let step = register_step t tactics r e in
      let later =
        register-Found tactics (r ++ (t.id, t) ∷ []) (ap (λ m. is_ok m.0) (sym step) ∙ h) in
      subst (λ m. All (λ (u : AtlasTactic). lookup u.id m.1 ≡ some u) (t ∷ tactics)) (sym step)
        (register-Kept tactics (r ++ (t.id, t) ∷ []) t.id t (added t r e), later)
]

load_one-Kept :
    (l : Loaded) (r : Registry) (rest : Registry → Result (List Text) × Registry)
    → ((s : Registry) → Kept s (rest s).1)
    → Kept r (load_one l r rest).1
unfolding load_one
load_one-Kept failed r rest h = h r
load_one-Kept another r rest h = h r
load_one-Kept (tactic t) r rest h = after (register_tactics (t ∷ []) r) (register-Kept (t ∷ []) r)
  where
    after : (m : Result (Unit {0}) × Registry) → Kept r m.1 → Kept r (after_register t.id m rest).1
    after (err e, s) k = k
    after (ok _, s) k = λ key u g. named (rest s) key u (h s key u (k key u g))
      where
        named :
            (m : Result (List Text) × Registry) (key : Text) (u : AtlasTactic)
            → lookup key m.1 ≡ some u
            → lookup key (cons_name t.id m).1 ≡ some u
        named (ok names, w) key u e = e
        named (err x, w) key u e = e

load-Kept : (points : List (Text × Loaded)) (r : Registry) → Kept r (load_plugin_tactics points r).1
unfolding load_plugin_tactics
load-Kept [] r = λ key t h. h
load-Kept ((name, l) ∷ points) r = elim (Bool-cases (is_some (lookup name r))) [
  | inl e ↦ rw e (load-Kept points r)
  | inr e ↦ rw e (load_one-Kept l r (load_plugin_tactics points) (load-Kept points))
]

get_tactic_iff :
    (tactic_id : Text) (r : Registry) (t : AtlasTactic)
    → (get_tactic tactic_id r ≡ ok t) ↔ (lookup (upper (strip tactic_id)) r ≡ some t)
unfolding get_tactic
get_tactic_iff tactic_id r t = ground arith

found_later :
    (tactics : List AtlasTactic) (r r' : Registry)
    → Kept r r'
    → All (λ (t : AtlasTactic). lookup t.id r ≡ some t) tactics
    → All (λ (t : AtlasTactic). upper (strip t.id) ≡ t.id → get_tactic t.id r' ≡ ok t) tactics
found_later [] r r' k h = tt
found_later (t ∷ tactics) r r' k h = (
  (λ e. (get_tactic_iff t.id r' t).1 (ap (λ key. lookup key r') e ∙ k t.id t h.0)),
  found_later tactics r r' k h.1,
)

-- After a registration that succeeds, `get_tactic` finds each of the techniques under its id, if
-- the id is in upper case without spaces around it; and what was registered before stays found,
-- whatever the plugins that are loaded afterwards do.
registered_is_found :
    (tactics : List AtlasTactic) (points : List (Text × Loaded)) (r : Registry)
    → is_ok (register_tactics tactics r).0 ≡ true
    → let r' = (load_plugin_tactics points (register_tactics tactics r).1).1 in
      All (λ (t : AtlasTactic). upper (strip t.id) ≡ t.id → get_tactic t.id r' ≡ ok t) tactics
      × ((tactic_id : Text) (t : AtlasTactic)
          → get_tactic tactic_id r ≡ ok t
          → get_tactic tactic_id r' ≡ ok t)
registered_is_found tactics points r h =
    let s = (register_tactics tactics r).1 in
    let after = load-Kept points s in
    (
      found_later tactics s (load_plugin_tactics points s).1 after (register-Found tactics r h),
      λ tactic_id t e. (get_tactic_iff tactic_id (load_plugin_tactics points s).1 t).1 (
          after (upper (strip tactic_id)) t (
            register-Kept tactics r (upper (strip tactic_id)) t
              ((get_tactic_iff tactic_id r t).0 e))),
    )
