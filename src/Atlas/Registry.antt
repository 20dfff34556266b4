-- ===== src/Atlas/Registry.antt =====
-- atlas/__init__.py and atlas/registry.py: techniques, and the dictionary ATLAS_TACTICS as the list
-- of its entries in the order of their insertion. A severity is its name.
pub mod Lookup
mod Examples
use ai_agent_security_lab.Prelude.{
  ℕ, ◌-◌, ◌||◌, ◌&&◌, not, Bool, true, false, List, [], ◌∷◌, ◌++◌, Option, none, some, Text, text,
  text_eq, strip, length, take, Result, ok, err, value_error, key_error, any, first_where, is_some,
  leb, ltb, ◌==◌, if◌then◌else◌, map, raise_if, ◌>>=◌, ◌>>◌,
}
use ai_agent_security_lab.Prelude.{starts_with}
use ai_agent_security_lab.Storage.RunRepository.{text_lt}

pub record AtlasTactic : Type 0 where
  pub id : Text
  pub name : Text
  pub description : Text
  pub payloads : List Text
  pub severity_default : Text
  pub mitre_url : Text

-- `len(set(payloads)) == len(payloads)`
unfoldable pub unique : List Text → Bool
unique [] = true
unique (p ∷ payloads) = not (any (text_eq p) payloads) && unique payloads

-- `__post_init__`
unfoldable pub atlas_tactic : AtlasTactic → Result AtlasTactic
unfolding starts_with unique
atlas_tactic t = do
  raise_if (not (starts_with (text "AML.T") t.id)) (value_error "invalid ATLAS technique id")
  raise_if (ltb (length t.payloads) 5)
      (value_error "must provide at least five safe payload variants")
  raise_if (not (unique t.payloads)) (value_error "payload variants must be unique")
  raise_if (not (starts_with (text "https://atlas.mitre.org/techniques/") t.mitre_url))
      (value_error "invalid MITRE ATLAS URL")
  ok t

abbrev pub Registry : Type 0
Registry = List (Text × AtlasTactic)

unfoldable pub lookup : Text → Registry → Option AtlasTactic
lookup key [] = none
lookup key ((k, t) ∷ entries) = if text_eq k key then some t else lookup key entries

-- `register_tactics`: what was registered before a duplicate stays.
unfoldable pub register_tactics : List AtlasTactic → Registry → Result (Unit {0}) × Registry
register_tactics [] r = (ok tt, r)
register_tactics (t ∷ tactics) r =
    let rest = register_tactics tactics (r ++ (t.id, t) ∷ []) in
    if is_some (lookup t.id r) then (err (value_error "duplicate ATLAS technique id"), r) else rest

-- What `entry_point.load()` gives: an exception, another object, or a technique.
pub data Loaded : Type 0 where
  failed another : Loaded
  tactic : AtlasTactic → Loaded

cons_name : Text → Result (List Text) × Registry → Result (List Text) × Registry
cons_name name (ok names, r) = (ok (name ∷ names), r)
cons_name name (err e, r) = (err e, r)

after_register :
    Text
    → Result (Unit {0}) × Registry
    → (Registry → Result (List Text) × Registry)
    → Result (List Text) × Registry
unfolding cons_name
after_register name (err e, r) rest = (err e, r)
after_register name (ok _, r) rest = cons_name name (rest r)

load_one :
    Loaded → Registry → (Registry → Result (List Text) × Registry) → Result (List Text) × Registry
unfolding after_register register_tactics
load_one failed r rest = rest r
load_one another r rest = rest r
load_one (tactic t) r rest = after_register t.id (register_tactics (t ∷ []) r) rest

-- `load_plugin_tactics`, of the entry points with their names; the warnings are left out.
unfoldable pub load_plugin_tactics : List (Text × Loaded) → Registry → Result (List Text) × Registry
unfolding load_one lookup
load_plugin_tactics [] r = (ok [], r)
load_plugin_tactics ((name, loaded) ∷ points) r =
    let rest = load_plugin_tactics points r in
    let tried = load_one loaded r (load_plugin_tactics points) in
    if is_some (lookup name r) then rest else tried

-- `str.upper` on ASCII letters
unfoldable pub upper : Text → Text
upper = map (λ c. if leb b'a' c && leb c b'z' then c - 32 else c)

found_tactic : Option AtlasTactic → Result AtlasTactic
found_tactic none = err (key_error "Unknown ATLAS tactic")
found_tactic (some t) = ok t

unfoldable pub get_tactic : Text → Registry → Result AtlasTactic
unfolding found_tactic
get_tactic tactic_id r = found_tactic (lookup (upper (strip tactic_id)) r)

insert_entry : Text × AtlasTactic → Registry → Registry
unfolding text_lt
insert_entry e [] = e ∷ []
insert_entry e (f ∷ entries) =
    let rest = insert_entry e entries in if text_lt f.0 e.0 then f ∷ rest else e ∷ f ∷ entries

sort_entries : Registry → Registry
unfolding insert_entry
sort_entries [] = []
sort_entries (e ∷ entries) = insert_entry e (sort_entries entries)

-- `list_tactics`: a key stands for its entry, since keys are distinct.
unfoldable pub list_tactics : Registry → List AtlasTactic
unfolding sort_entries
list_tactics r = map (λ (e : Text × AtlasTactic). e.1) (sort_entries r)
