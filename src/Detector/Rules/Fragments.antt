-- ===== src/Detector/Rules/Fragments.antt =====
-- detector.py: the fragments that the rules share.
use ai_agent_security_lab.Regex.{Regex}
use ai_agent_security_lab.Regex.Notation.{b, set, space, opt, some_of, lit, ◌⨾◌, ◌∣◌}

-- `_ACCESS_VERB`
abbrev pub access_verb : Regex
access_verb =
    lit "read"
    ∣ lit "open"
    ∣ lit "cat"
    ∣ lit "print"
    ∣ lit "show"
    ∣ lit "dump"
    ∣ lit "list"
    ∣ lit "fetch"
    ∣ lit "retrieve"
    ∣ lit "access"
    ∣ lit "send"
    ∣ lit "post"
    ∣ lit "upload"
    ∣ lit "transmit"
    ∣ lit "exfiltrate"
    ∣ lit "leak"
    ∣ lit "forward"
    ∣ lit "collect"
    ∣ lit "steal"
    ∣ lit "reveal"

-- `_EXEC_CONTEXT`
abbrev pub exec_context : Regex
exec_context =
    lit "exec_shell"
    ∣ lit "exec_python"
    ∣ lit "os.system"
    ∣ lit "os.popen"
    ∣ lit "subprocess." ⨾ (lit "run" ∣ lit "Popen" ∣ lit "call" ∣ lit "check_output")
    ∣ lit "eval("
    ∣ lit "exec("

-- `_INJECT_IMPERATIVE`
abbrev pub inject_imperative : Regex
inject_imperative =
    lit "ignore"
      ⨾ some_of space
      ⨾ opt (lit "all" ⨾ some_of space)
      ⨾ (lit "previous" ∣ lit "prior" ∣ lit "above")
      ⨾ some_of space
      ⨾ lit "instruction"
      ⨾ opt (lit "s")
    ∣ lit "disregard"
      ⨾ some_of space
      ⨾ opt (lit "the" ⨾ some_of space)
      ⨾ (lit "above" ∣ lit "prior" ∣ lit "previous")
    ∣ lit "you"
      ⨾ some_of space
      ⨾ lit "are"
      ⨾ some_of space
      ⨾ lit "now"
      ⨾ some_of space
      ⨾ (lit "a" ∣ lit "an")
      ⨾ b
    ∣ lit "override"
      ⨾ some_of space
      ⨾ opt (lit "the" ⨾ some_of space)
      ⨾ opt (lit "system" ⨾ some_of space)
      ⨾ (lit "policy" ∣ lit "prompt" ∣ lit "instruction" ⨾ opt (lit "s"))

-- `_SENSITIVE_TAIL`
abbrev pub sensitive_tail : Regex
sensitive_tail =
    lit "etc" ⨾ set "\\/" ⨾ (lit "passwd" ∣ lit "shadow" ∣ lit "sudoers" ∣ lit "hosts")
    ∣ lit "root" ⨾ set "\\/"
    ∣ lit "proc" ⨾ set "\\/" ⨾ lit "self"
    ∣ lit ".ssh" ⨾ opt (set "\\/")
    ∣ lit ".env" ⨾ b
    ∣ lit "id_rsa"
    ∣ lit "id_ed25519"
    ∣ lit "run" ⨾ set "\\/" ⨾ lit "secrets"
    ∣ lit "windows" ⨾ set "\\/" ⨾ lit "system32"
    ∣ lit "boot.ini"
    ∣ b ⨾ (lit "secret" ⨾ opt (lit "s") ∣ lit "credential" ⨾ opt (lit "s") ∣ lit "password") ⨾ b
    ∣ lit "." ⨾ (lit "pem" ∣ lit "key" ∣ lit "p12" ∣ lit "pfx") ⨾ b
    ∣ lit ".aws" ⨾ set "\\/"
    ∣ lit ".kube" ⨾ set "\\/"
    ∣ lit ".docker" ⨾ set "\\/" ⨾ lit "config"
