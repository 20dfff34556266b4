-- ===== src/Defender/Policy.antt =====
-- defender/policy.py. The parts of a URL and the classes of its address are those of `urllib.parse`
-- and `ipaddress`, as arguments.
use ai_agent_security_lab.Prelude.{
  Result, ok, ◌>>=◌, ℕ, zero, suc, ◌&&◌, ◌||◌, not, Bool, false, List, [], ◌∷◌, map, Option, none,
  some, Text, text, text_eq, starts_with, leb, ◌==◌, if◌then◌else◌, ◌-◌, truthy, select,
  first_where, length, drop,
}
use ai_agent_security_lab.Auth.Tokens.{split}
use ai_agent_security_lab.Regex.{Regex, finish, found}
use ai_agent_security_lab.Regex.Notation.{
  b, set, space, word, digit, opt, many, some_of, at_least, gap, lit, ◌⨾◌, ◌∣◌,
}

-- `SENSITIVE_PATH`
abbrev pub sensitive_path : Regex
sensitive_path =
    lit "/etc/" ⨾ (lit "passwd" ∣ lit "shadow" ∣ lit "sudoers" ∣ lit "hosts")
    ∣ lit ".ssh" ⨾ (lit "/" ∣ b)
    ∣ lit "id_rsa"
    ∣ lit "id_ed25519"
    ∣ lit "/run/secrets"
    ∣ lit ".env" ⨾ b
    ∣ lit ".aws/"
    ∣ lit ".kube/"
    ∣ lit "windows" ⨾ set "\\/" ⨾ lit "system32"

-- `PRIVILEGED_CALL`
abbrev pub privileged_call : Regex
privileged_call =
    b
      ⨾ lit "os."
      ⨾ (lit "system"
          ∣ lit "popen"
          ∣ lit "setuid"
          ∣ lit "setgid"
          ∣ lit "seteuid"
          ∣ lit "chmod"
          ∣ lit "chown")
      ⨾ b
    ∣ b
      ⨾ lit "subprocess."
      ⨾ (lit "run" ∣ lit "Popen" ∣ lit "call" ∣ lit "check_output" ∣ lit "check_call")
      ⨾ b
    ∣ b ⨾ opt (lit "ba") ⨾ lit "sh" ⨾ some_of space ⨾ lit "-c" ⨾ b
    ∣ b ⨾ lit "rm" ⨾ some_of space ⨾ lit "-rf" ⨾ b
    ∣ b ⨾ lit "eval" ⨾ many space ⨾ lit "("
    ∣ b ⨾ lit "__import__" ⨾ many space ⨾ lit "("

-- `UNSAFE_SQL`
abbrev pub unsafe_sql : Regex
unsafe_sql =
    b ⨾ lit "or" ⨾ some_of space ⨾ lit "1" ⨾ many space ⨾ lit "=" ⨾ many space ⨾ lit "1" ⨾ b
    ∣ b ⨾ lit "drop" ⨾ some_of space ⨾ lit "table" ⨾ b
    ∣ b
      ⨾ lit "union"
      ⨾ some_of space
      ⨾ opt (lit "all" ⨾ some_of space)
      ⨾ lit "select"
      ⨾ b
      ⨾ gap 80
      ⨾ (lit "--" ∣ lit "#" ∣ lit ";")
    ∣ lit ";" ⨾ many space ⨾ some_of word
    ∣ lit "--" ⨾ many space ⨾ finish

-- `INJECTION_IMPERATIVE`
abbrev pub injection_imperative : Regex
injection_imperative =
    b
      ⨾ lit "ignore"
      ⨾ some_of space
      ⨾ opt (lit "all" ⨾ some_of space)
      ⨾ (lit "previous" ∣ lit "prior" ∣ lit "above")
      ⨾ some_of space
      ⨾ lit "instruction"
      ⨾ opt (lit "s")
      ⨾ b
    ∣ b
      ⨾ lit "disregard"
      ⨾ some_of space
      ⨾ opt (lit "the" ⨾ some_of space)
      ⨾ (lit "above" ∣ lit "prior" ∣ lit "previous")
      ⨾ some_of space
      ⨾ lit "instruction"
      ⨾ opt (lit "s")
      ⨾ b
    ∣ b
      ⨾ lit "you"
      ⨾ some_of space
      ⨾ lit "are"
      ⨾ some_of space
      ⨾ lit "now"
      ⨾ some_of space
      ⨾ (lit "a" ∣ lit "an")
      ⨾ b
    ∣ b
      ⨾ lit "override"
      ⨾ some_of space
      ⨾ opt (lit "the" ⨾ some_of space)
      ⨾ opt (lit "system" ⨾ some_of space)
      ⨾ (lit "policy" ∣ lit "prompt" ∣ lit "instruction" ⨾ opt (lit "s"))
      ⨾ b

-- `CONFIRMATION`
abbrev pub confirmation : Regex
confirmation =
    b
    ⨾ (lit "confirmed"
        ∣ lit "approved"
        ∣ lit "user" ⨾ some_of space ⨾ lit "confirmed"
        ∣ lit "with" ⨾ some_of space ⨾ lit "confirmation")
    ⨾ b

-- `CONFIRMATION_WAIVED`
abbrev pub confirmation_waived : Regex
confirmation_waived =
    b ⨾ lit "without" ⨾ some_of space ⨾ opt (lit "user" ⨾ some_of space) ⨾ lit "confirmation" ⨾ b
    ∣ b ⨾ lit "no" ⨾ some_of space ⨾ lit "confirmation" ⨾ b
    ∣ b ⨾ lit "skip" ⨾ some_of space ⨾ opt (lit "the" ⨾ some_of space) ⨾ lit "confirmation" ⨾ b

-- `UNBOUNDED_GENERATION`
abbrev pub unbounded_generation : Regex
unbounded_generation =
    b ⨾ lit "repeat" ⨾ b ⨾ gap 60 ⨾ b ⨾ at_least 5 digit ⨾ b ⨾ gap 20 ⨾ b ⨾ lit "times" ⨾ b
    ∣ b
      ⨾ (lit "generate" ∣ lit "produce" ∣ lit "output" ∣ lit "create" ∣ lit "stream" ∣ lit "emit")
      ⨾ b
      ⨾ gap 40
      ⨾ b
      ⨾ (lit "infinite" ∣ lit "endless" ∣ lit "unbounded" ∣ lit "never" ⨾ set "- " ⨾ lit "ending")
      ⨾ b
      ⨾ gap 40
      ⨾ b
      ⨾ (lit "loop"
          ∣ lit "stream"
          ∣ lit "output"
          ∣ lit "response"
          ∣ lit "token" ⨾ opt (lit "s")
          ∣ lit "text"
          ∣ lit "generation")
      ⨾ b
      ⨾ gap 60
      ⨾ b
      ⨾ (lit "until" ∣ lit "without")
      ⨾ b
      ⨾ gap 40
      ⨾ b
      ⨾ (lit "memory"
          ∣ lit "limit"
          ∣ lit "stop" ⨾ opt (lit "ping")
          ∣ lit "resource" ⨾ opt (lit "s")
          ∣ lit "crash" ⨾ opt (lit "es")
          ∣ lit "exhaust" ⨾ many word)
      ⨾ b

-- `DESTRUCTIVE_TOOLS`
abbrev pub destructive_tools : List Text
destructive_tools = text "delete_email" ∷ text "exec_shell" ∷ text "exec_python" ∷ []

-- the pattern of `credentials_in_url`
abbrev pub credential : Regex
credential =
    (lit "api"
        ∣ lit "access"
        ∣ lit "bearer"
        ∣ lit "auth"
        ∣ lit "session"
        ∣ lit "canary"
        ∣ lit "secret")
      ⨾ opt (set "_-")
      ⨾ (lit "key" ∣ lit "token")
    ∣ lit "password"
    ∣ lit "passwd"

is_letter : ℕ → Bool
is_letter c = (leb b'A' c && leb c b'Z') || (leb b'a' c && leb c b'z')

-- `re.match(r"^[A-Za-z]:", s)`
unfoldable pub has_drive : Text → Bool
unfolding is_letter
has_drive (c ∷ d ∷ s) = is_letter c && d == b':'
has_drive s = false

-- `path.replace("\\", "/")`
unfoldable pub normalised : Text → Text
normalised = map (λ c. if c == b'\\' then b'/' else c)

-- `PurePosixPath(path).parts` of a path that is not absolute
unfoldable pub posix_parts : Text → List Text
unfolding split text_eq text
posix_parts path =
    select (λ part. not (text_eq part [] || text_eq part (text "."))) (split b'/' path)

abbrev pub is_up : Text → Bool
is_up part = text_eq part (text "..")

abbrev pub is_down : Text → Bool
is_down part = not (is_up part) && not (text_eq part (text ".") || text_eq part (text "/"))

-- The loop over the parts: whether the depth falls below zero.
unfoldable pub falls_out : (depth : ℕ) → List Text → Bool
falls_out depth [] = false
falls_out zero (part ∷ parts) =
    let onward = falls_out 0 parts in
    let deeper = falls_out 1 parts in is_up part || (if is_down part then deeper else onward)
falls_out (suc depth) (part ∷ parts) =
    let up = falls_out depth parts in
    let onward = falls_out (suc depth) parts in
    let deeper = falls_out (suc (suc depth)) parts in
    if is_up part then up else if is_down part then deeper else onward

-- `escapes_workspace`
unfoldable pub escapes_workspace : Text → Bool
escapes_workspace path =
    truthy path
    && (found sensitive_path path
        || starts_with (text "/") (normalised path)
        || has_drive (normalised path)
        || falls_out 0 (posix_parts (normalised path)))

pub record Address : Type 0 where
  pub is_link_local : Bool
  pub is_private : Bool
  pub is_loopback : Bool

-- What the policy asks of the libraries: the host name of a URL, which is empty where there is none,
-- the names in its query, and the address that a host is, if it is one. `urlparse` raises for some
-- texts.
pub record UrlLibrary : Type 0 where
  pub hostname : Text → Result Text
  pub query_names : Text → Result (List Text)
  pub ip_address : Text → Option Address

ends_with : Text → Text → Bool
unfolding text_eq
ends_with suffix s =
    leb (length suffix) (length s) && text_eq (drop (length s - length suffix) s) suffix

internal : Option Address → Bool
internal none = false
internal (some a) = a.is_link_local || a.is_private || a.is_loopback

unfoldable pub blocked_name : UrlLibrary → Text → Option Text
unfolding ends_with internal truthy text
blocked_name urls host =
    if not (truthy host)
    then none
    else if ends_with (text "metadata.google.internal") host
    then some host
    else if internal (urls.ip_address host)
    then some host
    else none

-- `blocked_host`, which is none or a host that is not empty
unfoldable pub blocked_host : UrlLibrary → Text → Result (Option Text)
blocked_host urls url = do host ← urls.hostname url; ok (blocked_name urls host)

-- `credentials_in_url`
unfoldable pub credentials_in_url : UrlLibrary → Text → Result (Option Text)
credentials_in_url urls url = do
  names ← urls.query_names url
  ok (first_where (found credential) names)
