-- ===== src/Detector/Rules/Tools.antt =====
-- detector.py: the rules for misused tools and exhausted resources.
use ai_agent_security_lab.Regex.{Regex, start, finish}
use ai_agent_security_lab.Regex.Notation.{
  b, set, space, word, digit, opt, many, some_of, at_least, any_gap, gap, lit, ◌⨾◌, ◌∣◌,
}

abbrev pub rm_rf : Regex
rm_rf = b ⨾ lit "rm" ⨾ some_of space ⨾ lit "-rf" ⨾ b

abbrev pub exec_shell_call : Regex
exec_shell_call = start ⨾ lit "exec_shell" ⨾ finish

abbrev pub exec_shell_payload : Regex
exec_shell_payload =
    b
    ⨾ lit "exec_shell"
    ⨾ b
    ⨾ gap 24
    ⨾ (lit "to" ⨾ some_of space ⨾ lit "run" ⨾ b
        ∣ b ⨾ lit "run" ⨾ many space ⨾ lit ":"
        ∣ set ":("
        ∣ lit "\""
        ∣ lit "'")

abbrev pub sudo_privileged : Regex
sudo_privileged =
    b
    ⨾ lit "sudo"
    ⨾ some_of space
    ⨾ many (lit "-" ⨾ some_of word ⨾ some_of space)
    ⨾ (lit "rm"
        ∣ lit "dd"
        ∣ lit "mkfs"
        ∣ lit "chmod"
        ∣ lit "chown"
        ∣ lit "chattr"
        ∣ lit "passwd"
        ∣ lit "useradd"
        ∣ lit "usermod"
        ∣ lit "userdel"
        ∣ lit "visudo"
        ∣ lit "su" ⨾ b
        ∣ lit "bash"
        ∣ lit "sh" ⨾ b
        ∣ lit "zsh"
        ∣ lit "cat" ⨾ some_of space ⨾ lit "/etc"
        ∣ lit "tee" ⨾ some_of space ⨾ lit "/etc"
        ∣ lit "systemctl"
        ∣ lit "iptables"
        ∣ lit "nft")
    ⨾ b

abbrev pub delete_unconfirmed : Regex
delete_unconfirmed =
    b
    ⨾ lit "delete"
    ⨾ some_of space
    ⨾ (lit "email" ∣ lit "message")
    ⨾ b
    ⨾ any_gap
    ⨾ b
    ⨾ lit "without"
    ⨾ some_of space
    ⨾ opt (lit "user" ⨾ some_of space)
    ⨾ lit "confirmation"
    ⨾ b

abbrev pub tautology_or_drop : Regex
tautology_or_drop =
    b
    ⨾ (lit "OR" ⨾ some_of space ⨾ lit "1" ⨾ many space ⨾ lit "=" ⨾ many space ⨾ lit "1"
        ∣ lit "DROP" ⨾ some_of space ⨾ lit "TABLE")
    ⨾ b

abbrev pub union_select : Regex
union_select =
    (lit "'" ∣ lit "--" ∣ lit "#" ∣ lit ";")
      ⨾ gap 80
      ⨾ b
      ⨾ lit "UNION"
      ⨾ some_of space
      ⨾ opt (lit "ALL" ⨾ some_of space)
      ⨾ lit "SELECT"
      ⨾ b
    ∣ b
      ⨾ lit "UNION"
      ⨾ some_of space
      ⨾ opt (lit "ALL" ⨾ some_of space)
      ⨾ lit "SELECT"
      ⨾ b
      ⨾ gap 80
      ⨾ (lit "'" ∣ lit "--" ∣ lit "#" ∣ lit ";")

abbrev pub metadata_url : Regex
metadata_url =
    lit "http"
    ⨾ opt (lit "s")
    ⨾ lit "://"
    ⨾ (lit "169.254.169.254" ∣ lit "metadata.google.internal")
    ⨾ (set "/:" ∣ b)

abbrev pub repeat_count : Regex
repeat_count =
    b ⨾ lit "repeat" ⨾ b ⨾ gap 60 ⨾ b ⨾ at_least 5 digit ⨾ b ⨾ gap 20 ⨾ b ⨾ lit "times" ⨾ b

abbrev pub endless_output : Regex
endless_output =
    b
    ⨾ (lit "generate" ∣ lit "produce" ∣ lit "output" ∣ lit "create" ∣ lit "stream" ∣ lit "emit")
    ⨾ b
    ⨾ gap 40
    ⨾ b
    ⨾ (lit "infinite" ∣ lit "endless" ∣ lit "unbounded" ∣ lit "never" ⨾ set "- " ⨾ lit "ending")
    ⨾ b
    ⨾ gap 40
    ⨾ b
    ⨾ (lit "loop"
        ∣ lit "stream"
        ∣ lit "output"
        ∣ lit "response"
        ∣ lit "token" ⨾ opt (lit "s")
        ∣ lit "text"
        ∣ lit "generation")
    ⨾ b
    ⨾ gap 60
    ⨾ b
    ⨾ (lit "until" ∣ lit "without")
    ⨾ b
    ⨾ gap 40
    ⨾ b
    ⨾ (lit "memory"
        ∣ lit "limit"
        ∣ lit "stop" ⨾ opt (lit "ping")
        ∣ lit "resource" ⨾ opt (lit "s")
        ∣ lit "crash" ⨾ opt (lit "es")
        ∣ lit "exhaust" ⨾ many word)
    ⨾ b
