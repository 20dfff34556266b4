-- ===== src/Regex/Decides.antt =====
-- The backtracking against the meaning of a pattern.
use ai_agent_security_lab.Prelude.{
  ℕ, zero, suc, ◌-◌, ◌≤◌, ◌≡◌, refl, ◌⊎◌, inl, inr, List, [], ◌∷◌, ◌++◌, map, Bool, true, false,
  Option, Text, All, select, arith, ltb, ◌==◌, if◌then◌else◌, Bool-cases, subst, ap,
}
use ai_agent_security_lab.Regex.{
  Regex, empty, word_boundary, start, finish, char, not_after, seq, alt, repeat, group, Pos, left,
  close, pred, may_repeat, when, consume, each, rounds, ends,
}
use ai_agent_security_lab.Regex.Meaning.{
  Derives, nothing, boundary, begins, finishes, behind, one, both, this, that, done, round, named,
}

abbrev pub Among : {A : Type 0} → A → List A → Type 0
Among x [] = ⊥
Among x (y ∷ ys) = (x ≡ y) ⊎ Among x ys

module _ {ℓ} {A : Type ℓ} where
  pub All-append {κ} : (P : A → Type κ) (xs ys : List A) → All P xs → All P ys → All P (xs ++ ys)
  All-append P [] ys h g = g
  All-append P (x ∷ xs) ys h g = (h.0, All-append P xs ys h.1 g)

  All-imp {κ μ} :
      (P : A → Type κ) (Q : A → Type μ)
      → ((x : A) → P x → Q x)
      → (xs : List A) → All P xs
      → All Q xs
  All-imp P Q f [] h = tt
  All-imp P Q f (x ∷ xs) h = (f x h.0, All-imp P Q f xs h.1)

  All-each {κ μ} :
      {B : Type κ} (P : A → Type μ) (f : B → List A) (Q : B → Type μ)
      → ((b : B) → Q b → All P (f b))
      → (bs : List B) → All Q bs
      → All P (each f bs)
  unfolding each
  All-each P f Q h [] g = tt
  All-each P f Q h (b ∷ bs) g = All-append P (f b) (each f bs) (h b g.0) (All-each P f Q h bs g.1)

  All-select {κ} :
      (P : A → Type κ) (test : A → Bool) (xs : List A)
      → All P xs
      → All (λ x. P x × (test x ≡ true)) (select test xs)
  All-select P test [] h = tt
  All-select P test (x ∷ xs) h = elim (Bool-cases (test x)) [
    | inl e ↦ rw e ((h.0, e), All-select P test xs h.1)
    | inr e ↦ rw e (All-select P test xs h.1)
  ]

  All-map {κ μ} :
      {B : Type κ} (P : A → Type μ) (f : B → A) (Q : B → Type μ)
      → ((b : B) → Q b → P (f b))
      → (bs : List B) → All Q bs
      → All P (map f bs)
  All-map P f Q h [] g = tt
  All-map P f Q h (b ∷ bs) g = (h b g.0, All-map P f Q h bs g.1)

Among-left : {A : Type 0} (x : A) (xs ys : List A) → Among x xs → Among x (xs ++ ys)
Among-left x [] ys m = absurd m
Among-left x (y ∷ xs) ys (inl e) = inl e
Among-left x (y ∷ xs) ys (inr m) = inr (Among-left x xs ys m)

Among-right : {A : Type 0} (x : A) (xs ys : List A) → Among x ys → Among x (xs ++ ys)
Among-right x [] ys m = m
Among-right x (y ∷ xs) ys m = inr (Among-right x xs ys m)

Among-each :
    {A B : Type 0} (f : B → List A) (x : A) (b : B) (bs : List B)
    → Among b bs
    → Among x (f b)
    → Among x (each f bs)
unfolding each
Among-each f x b [] m n = absurd m
Among-each f x b (c ∷ bs) (inl e) m =
    Among-left x (f c) (each f bs) (subst (λ d. Among x (f d)) e m)
Among-each f x b (c ∷ bs) (inr n) m = Among-right x (f c) (each f bs) (Among-each f x b bs n m)

Among-select :
    {A : Type 0} (test : A → Bool) (x : A) (xs : List A)
    → Among x xs
    → test x ≡ true
    → Among x (select test xs)
Among-select test x [] m h = absurd m
Among-select test x (y ∷ xs) (inl e) h = rw (subst (λ z. test z ≡ true) e h) (inl e)
Among-select test x (y ∷ xs) (inr m) h = elim (Bool-cases (test y)) [
  | inl e ↦ rw e (inr (Among-select test x xs m h))
  | inr e ↦ rw e (Among-select test x xs m h)
]

Among-map : {A B : Type 0} (f : B → A) (b : B) (bs : List B) → Among b bs → Among (f b) (map f bs)
Among-map f b [] m = absurd m
Among-map f b (c ∷ bs) (inl e) = inl (ap f e)
Among-map f b (c ∷ bs) (inr m) = inr (Among-map f b bs m)

Among-if :
    (q : Pos) (b : Bool) (xs : List Pos) → b ≡ true → Among q xs → Among q (if b then xs else [])
Among-if q true xs h m = m
Among-if q false xs h m = cc

When : (P : Pos → Type 0) (b : Bool) (p : Pos) → (b ≡ true → P p) → All P (when b p)
When P true p h = (h refl, tt)
When P false p h = tt

Among-when : (b : Bool) (p : Pos) → b ≡ true → Among p (when b p)
Among-when b p h = rw h (inl refl)

module _ (r : Regex) (is_lazy : Bool) where
  in_order-All :
      (P : Pos → Type 0) (xs ys : List Pos)
      → All P xs
      → All P ys
      → All P (if is_lazy then xs ++ ys else ys ++ xs)
  in_order-All P xs ys h g = elim (Bool-cases is_lazy) [
    | inl e ↦ rw e (All-append P xs ys h g)
    | inr e ↦ rw e (All-append P ys xs g h)
  ]

  -- Every round of the backtracking is a round of the meaning.
  again-All :
      (lo : ℕ) (hi : Option ℕ) (p : Pos) (step : Pos → List Pos)
      → ((q : Pos) → All (Derives (repeat is_lazy (lo - 1) (pred hi) r) q) (step q))
      → All (Derives r p) (ends r p)
      → All
          (Derives (repeat is_lazy lo hi r) p)
          (if may_repeat hi then each step (select (λ q. ltb (left q) (left p)) (ends r p)) else [])
  again-All lo hi p step ih sound = elim (Bool-cases (may_repeat hi)) [
    | inl e ↦ rw e (
        All-each _ step _
          (λ q h. All-imp _ _ (λ t d. round e h.0 (ground (arith, h.1)) d) (step q) (ih q)) _
          (All-select _ _ (ends r p) sound))
    | inr e ↦ rw e tt
  ]

  stop-All :
      (lo : ℕ) (hi : Option ℕ) (p : Pos)
      → All (Derives (repeat is_lazy lo hi r) p) (when (lo == 0) p)
  stop-All zero hi p = (done, tt)
  stop-All (suc lo) hi p = When _ (suc lo == 0) p (λ e. absurd (ground (arith, e)))

  rounds-All :
      (fuel lo : ℕ) (hi : Option ℕ) (p : Pos)
      → ((q : Pos) → All (Derives r q) (ends r q))
      → All (Derives (repeat is_lazy lo hi r) p) (rounds (ends r) is_lazy fuel lo hi p)
  unfolding rounds
  rounds-All zero lo hi p sound = stop-All lo hi p
  rounds-All (suc fuel) lo hi p sound =
      in_order-All _ _ _ (stop-All lo hi p)
        (again-All lo hi p _ (λ q. rounds-All fuel (lo - 1) (pred hi) q sound) (sound p))

consume-All :
    (test : ℕ → Bool) (p : Pos) (s : Text)
    → p.rest ≡ s
    → All (Derives (char test) p) (consume test p s)
unfolding consume
consume-All test p [] e = tt
consume-All test p (c ∷ s) e = When _ (test c) _ (λ h. one e h)

-- Every end that the backtracking finds is one of the meaning.
pub ends-All : (r : Regex) (p : Pos) → All (Derives r p) (ends r p)
unfolding ends
ends-All empty p = (nothing, tt)
ends-All word_boundary p = When _ _ p boundary
ends-All start p = When _ _ p begins
ends-All finish p = When _ _ p finishes
ends-All (char test) p = consume-All test p p.rest refl
ends-All (not_after test) p = When _ _ p (λ h. behind (ground (arith, h)))
ends-All (seq r s) p =
    All-each _ (ends s) _ (λ q d. All-imp _ _ (λ t e. both d e) _ (ends-All s q)) (ends r p)
      (ends-All r p)
ends-All (alt r s) p =
    All-append _ (ends r p) (ends s p) (All-imp _ _ (λ t. this) _ (ends-All r p))
      (All-imp _ _ (λ t. that) _ (ends-All s p))
ends-All (repeat is_lazy lo hi r) p = rounds-All r is_lazy (left p) lo hi p (ends-All r)
ends-All (group name r) p = All-map _ (close name p) _ (λ q. named) (ends r p) (ends-All r p)

module _ (r : Regex) (is_lazy : Bool) where
  Among-in_order :
      (q : Pos) (xs ys : List Pos)
      → Among q xs ⊎ Among q ys
      → Among q (if is_lazy then xs ++ ys else ys ++ xs)
  Among-in_order q xs ys m = elim (Bool-cases is_lazy) [
    | inl e ↦ rw e (elim m [ inl a ↦ Among-left q xs ys a | inr b ↦ Among-right q xs ys b ])
    | inr e ↦ rw e (elim m [ inl a ↦ Among-right q ys xs a | inr b ↦ Among-left q ys xs b ])
  ]

  -- Fuel for each character that is left is enough.
  Among-rounds :
      (fuel lo : ℕ) (hi : Option ℕ) (p t : Pos)
      → left p ≤ fuel
      → ((q u : Pos) → Derives r q u → Among u (ends r q))
      → Derives (repeat is_lazy lo hi r) p t
      → Among t (rounds (ends r) is_lazy fuel lo hi p)
  unfolding rounds
  Among-rounds zero lo hi p t h complete done = inl refl
  Among-rounds zero lo hi p t h complete (round m d l ds) = absurd (omega arith)
  Among-rounds (suc fuel) lo hi p t h complete done =
      Among-in_order p (when (0 == 0) p)
        (if may_repeat hi
          then each (rounds (ends r) is_lazy fuel (0 - 1) (pred hi))
              (select (λ q. ltb (left q) (left p)) (ends r p))
          else [])
        (inl (inl refl))
  Among-rounds (suc fuel) lo hi p t h complete (round {q = q} m d l ds) = Among-in_order t _ _ (
      inr (
        Among-if t _ _ m (
          Among-each _ t q _
            (Among-select (λ u. ltb (left u) (left p)) q (ends r p) (complete p q d)
              (ground (arith, l)))
            (Among-rounds fuel (lo - 1) (pred hi) q t (omega arith) complete ds))))

-- Every end of the meaning is found.
pub Among-ends : (r : Regex) (p q : Pos) → Derives r p q → Among q (ends r p)
unfolding ends consume
Among-ends empty p q nothing = inl refl
Among-ends word_boundary p q (boundary h) = Among-when _ _ h
Among-ends start p q (begins h) = Among-when _ _ h
Among-ends finish p q (finishes h) = Among-when _ _ h
Among-ends (char test) p q (one e h) = rw e (Among-when _ _ h)
Among-ends (not_after test) p q (behind h) = rw h (inl refl)
Among-ends (seq r s) p q (both {q = t} d e) =
    Among-each (ends s) q t _ (Among-ends r p t d) (Among-ends s t q e)
Among-ends (alt r s) p q (this d) = Among-left _ _ _ (Among-ends r p q d)
Among-ends (alt r s) p q (that d) = Among-right _ (ends r p) _ (Among-ends s p q d)
Among-ends (repeat is_lazy lo hi r) p q d =
    Among-rounds r is_lazy (left p) lo hi p q (omega arith) (Among-ends r) d
Among-ends (group name r) p q (named {q = t} d) = Among-map (close name p) t _ (Among-ends r p t d)
