-- ===== src/Detector/Rules/Prompts.antt =====
-- detector.py: the rules for injected instructions.
use ai_agent_security_lab.Regex.{Regex}
use ai_agent_security_lab.Regex.Notation.{b, space, opt, many, some_of, any_gap, gap, lit, ◌⨾◌, ◌∣◌}
use ai_agent_security_lab.Detector.Rules.Fragments.{inject_imperative}

abbrev pub ignore_previous : Regex
ignore_previous =
    b
    ⨾ lit "ignore"
    ⨾ some_of space
    ⨾ opt (lit "all" ⨾ some_of space)
    ⨾ lit "previous"
    ⨾ some_of space
    ⨾ lit "instruction"
    ⨾ opt (lit "s")
    ⨾ b

abbrev pub disregard_above : Regex
disregard_above =
    b
    ⨾ lit "disregard"
    ⨾ some_of space
    ⨾ opt (lit "the" ⨾ some_of space)
    ⨾ (lit "above" ∣ lit "prior")
    ⨾ b

abbrev pub you_are_now : Regex
you_are_now =
    b
    ⨾ lit "you"
    ⨾ some_of space
    ⨾ lit "are"
    ⨾ some_of space
    ⨾ lit "now"
    ⨾ some_of space
    ⨾ (lit "a" ∣ lit "an")
    ⨾ b

abbrev pub content_says_ignore : Regex
content_says_ignore =
    b
    ⨾ (lit "page" ∣ lit "website" ∣ lit "document")
    ⨾ some_of space
    ⨾ lit "content"
    ⨾ some_of space
    ⨾ (lit "says" ∣ lit "contains")
    ⨾ many space
    ⨾ lit ":"
    ⨾ any_gap
    ⨾ b
    ⨾ lit "ignore"
    ⨾ some_of space
    ⨾ opt (lit "all" ⨾ some_of space)
    ⨾ lit "previous"
    ⨾ some_of space
    ⨾ lit "instruction"
    ⨾ opt (lit "s")
    ⨾ b

abbrev pub retrieved_override : Regex
retrieved_override =
    b
    ⨾ (lit "retrieved" ⨾ some_of space ⨾ lit "document"
        ∣ lit "rag" ⨾ some_of space ⨾ (lit "result" ∣ lit "document")
        ∣ lit "knowledge" ⨾ some_of space ⨾ lit "base")
    ⨾ b
    ⨾ gap 120
    ⨾ inject_imperative

abbrev pub history_override : Regex
history_override =
    b
    ⨾ (lit "conversation" ∣ lit "chat" ∣ lit "session")
    ⨾ some_of space
    ⨾ (lit "history" ∣ lit "memory" ∣ lit "log")
    ⨾ b
    ⨾ gap 150
    ⨾ inject_imperative

abbrev pub role_override : Regex
role_override =
    lit "["
    ⨾ (lit "scout" ∣ lit "analyst" ∣ lit "exploiter" ∣ lit "synthesizer" ∣ lit "reviewer")
    ⨾ lit "]"
    ⨾ gap 120
    ⨾ inject_imperative

abbrev pub scratchpad_override : Regex
scratchpad_override = b ⨾ lit "scratchpad" ⨾ b ⨾ gap 120 ⨾ inject_imperative
