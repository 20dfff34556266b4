-- ===== src/Judge/Range.antt =====
-- judge.py: what a judgement is, for any reply of the model.
use ai_agent_security_lab.Prelude.{
  ◌≡◌, ◌⊎◌, refl, inl, inr, Bool-cases, Error, truthy, strip, not, ◌&&◌, true, false, Option, none,
  some, Text, text, Result, ok, err, arith,
}
use ai_agent_security_lab.Values.{Json, null, boolean, number, string, array, object, Fields, get}
use ai_agent_security_lab.Judge.Scan.{recovered_span}
use ai_agent_security_lab.Datatypes.{Trace}
use ai_agent_security_lab.Judge.{
  is_value_error, parsed_of, parsed_or_span, loaded_span, unparsed, judge_strip_json_fence, Float,
  nan, minus_infinity, plus_infinity, finite, above_zero, from_zero, below_one, to_one, hundredths,
  clamp, clamp_number, is_nan, caught, coerced, coerce_confidence, JudgeResult, judge_result,
  JudgeReply, unparsed_result, parsed_result, judged, parse_judge_payload, router_judge,
}

abbrev pub InRange : Float → Type 0
InRange x = (from_zero x && to_one x) ≡ true

clamp_number-InRange : (x : Float) → InRange (clamp_number x)
unfolding clamp_number is_nan clamp above_zero from_zero below_one to_one
clamp_number-InRange nan = refl
clamp_number-InRange minus_infinity = refl
clamp_number-InRange plus_infinity = refl
clamp_number-InRange (finite true n d) = refl
clamp_number-InRange (finite false n d) = ground arith

half-InRange : InRange (hundredths 50)
unfolding from_zero to_one
half-InRange = refl

judge_result-ok : (r : JudgeResult) → InRange r.confidence → judge_result r ≡ ok r
unfolding judge_result
judge_result-ok r h = ground (arith, h)

coerced-cases :
    (r : Result Float)
    → ((x : Float) × (coerced r ≡ ok x) × InRange x)
      ⊎ ((e : Error) × (coerced r ≡ err e) × (r ≡ err e) × (caught e ≡ false))
unfolding coerced
coerced-cases (ok x) = inl (clamp_number x, refl, clamp_number-InRange x)
coerced-cases (err e) = elim (Bool-cases (caught e)) [
  | inl h ↦ inl (hundredths 50, rw h refl, half-InRange)
  | inr h ↦ inr (e, rw h refl, refl, h)
]

parsed_of-cases :
    (r : Result Json)
    → ((o : Option Fields) × (parsed_of r ≡ ok o))
      ⊎ ((e : Error) × (parsed_of r ≡ err e) × (r ≡ err e) × (is_value_error e ≡ false))
unfolding parsed_of
parsed_of-cases (ok null) = inl (none, refl)
parsed_of-cases (ok (boolean b)) = inl (none, refl)
parsed_of-cases (ok (number n)) = inl (none, refl)
parsed_of-cases (ok (string s)) = inl (none, refl)
parsed_of-cases (ok (array xs)) = inl (none, refl)
parsed_of-cases (ok (object xs)) = inl (some xs, refl)
parsed_of-cases (err e) = elim (Bool-cases (is_value_error e)) [
  | inl h ↦ inl (none, rw h refl)
  | inr h ↦ inr (e, rw h refl, refl, h)
]

module _ (loads : Text → Result Json) (float : Option Json → Result Float) where
  -- `json.loads` of some text raises an exception that is no ValueError.
  abbrev pub LoadsRaises : Error → Type 0
  LoadsRaises e = (s : Text) × (loads s ≡ err e) × (is_value_error e ≡ false)

  -- What the judge lets out: a content that is no text, what `json.loads` raises that is no
  -- ValueError, and what `float` raises that is neither a TypeError nor a ValueError.
  abbrev pub Escapes : JudgeReply → Error → Type 0
  Escapes reply e =
      (reply.content ≡ none)
      ⊎ (LoadsRaises e ⊎ ((v : Option Json) × (float v ≡ err e) × (caught e ≡ false)))

  loaded_span-cases :
      (span : Option Text) (parsed : Option Fields)
      → ((o : Option Fields) × (parsed_or_span loads span parsed ≡ ok o))
        ⊎ ((e : Error) × (parsed_or_span loads span parsed ≡ err e) × LoadsRaises e)
  unfolding parsed_or_span loaded_span
  loaded_span-cases span (some fields') = inl (some fields', refl)
  loaded_span-cases none none = inl (none, refl)
  loaded_span-cases (some s) none = elim (parsed_of-cases (loads s)) [
    | inl (o, h) ↦ inl (o, h)
    | inr (e, h, raised, other) ↦ inr (e, h, (s, raised, other))
  ]

  parse-cases :
      (content : Option Text)
      → ((o : Option Fields) × (parse_judge_payload loads content ≡ ok o))
        ⊎ ((e : Error) × (parse_judge_payload loads content ≡ err e) × LoadsRaises e)
  unfolding parse_judge_payload
  parse-cases none = inl (none, refl)
  parse-cases (some raw_text) =
      let candidate = judge_strip_json_fence raw_text in
      elim (Bool-cases (not (truthy (strip raw_text)))) [
        | inl blank ↦ inl (none, rw blank refl)
        | inr full ↦ elim (parsed_of-cases (loads candidate)) [
          | inr (e, h, raised, other) ↦ inr (e, rw (full, h) refl, (candidate, raised, other))
          | inl (parsed, h) ↦ elim (loaded_span-cases (recovered_span candidate) parsed) [
            | inl (o, k) ↦ inl (o, rw (full, h) k)
            | inr (e, k, raises) ↦ inr (e, rw (full, h) k, raises)
          ]
        ]
      ]

  -- A judgement in range, or an exception that escapes.
  abbrev pub Judges : JudgeReply → Result JudgeResult → Type 0
  Judges reply judgement =
      ((r : JudgeResult) × (judgement ≡ ok r) × InRange r.confidence)
      ⊎ ((e : Error) × (judgement ≡ err e) × Escapes reply e)

  unparsed-Judges :
      (reply : JudgeReply) (content : Option Text)
      → reply.content ≡ content
      → Judges reply (unparsed loads float reply content)
  unfolding unparsed unparsed_result
  unparsed-Judges reply none same = inr (_, refl, inl same)
  unparsed-Judges reply (some s) same = inl (_, judge_result-ok _ half-InRange, half-InRange)

  judged-Judges :
      (reply : JudgeReply) (parsed : Option Fields) → Judges reply (judged loads float reply parsed)
  unfolding judged parsed_result coerce_confidence
  judged-Judges reply none = unparsed-Judges reply reply.content refl
  judged-Judges reply (some parsed) =
      elim (coerced-cases (float (get (text "confidence") parsed))) [
        | inl (x, e, inside) ↦
            inl (parsed_result reply parsed x, rw e (judge_result-ok _ inside), inside)
        | inr (e, h, raised, other) ↦ inr (e, rw h refl, inr (inr (_, raised, other)))
      ]

  -- Whatever the model replies, prose, broken JSON or a confidence out of range, the judge returns
  -- a judgement with a confidence between 0 and 1, or raises one of three exceptions: that of a
  -- content that is no text, what `json.loads` raises that is no ValueError, and what `float`
  -- raises that is neither a TypeError nor a ValueError.
  pub judgement-InRange :
      (chat : Trace → Result JudgeReply) (trace : Trace) (reply : JudgeReply)
      → chat trace ≡ ok reply
      → Judges reply (router_judge loads float chat trace)
  unfolding router_judge
  judgement-InRange chat trace reply e = elim (parse-cases reply.content) [
    | inl (parsed, h) ↦ rw (e, h) (judged-Judges reply parsed)
    | inr (raised, h, raises) ↦ inr (raised, rw (e, h) refl, inr (inl raises))
  ]
