-- ===== src/Target/Patterns.antt =====
-- target.py: the patterns of the router.
use ai_agent_security_lab.Prelude.{List, [], ◌∷◌, text}
use ai_agent_security_lab.Regex.{Regex, group, finish, not_after}
use ai_agent_security_lab.Regex.Notation.{
  b, word_set, space, visible, dot, opt, many, some_of, any_gap, between, colon_space, among, lit,
  ◌⨾◌, ◌∣◌,
}

-- `_READ_PATTERNS`
abbrev pub read_patterns : List Regex
read_patterns =
    (b
      ⨾ (lit "read" ∣ lit "open")
      ⨾ b
      ⨾ any_gap
      ⨾ group (text "path") (
          (between 1 2 (lit ".") ⨾ lit "/" ∣ not_after (among ":/") ⨾ lit "/")
          ⨾ some_of (word_set "./-")))
    ∷ (group (text "path") (
          (between 1 2 (lit ".") ⨾ lit "/" ∣ not_after (among ":/") ⨾ lit "/")
          ⨾ some_of (word_set "./-"))
        ⨾ many space
        ⨾ finish)
    ∷ []

-- `_SHELL_PATTERNS`
abbrev pub shell_patterns : List Regex
shell_patterns =
    (b
      ⨾ (lit "exec_shell" ∣ lit "shell" ∣ lit "run")
      ⨾ b
      ⨾ any_gap
      ⨾ group (text "cmd") (some_of dot)
      ⨾ finish)
    ∷ (b ⨾ lit "rm" ⨾ some_of space ⨾ lit "-rf" ⨾ b)
    ∷ []

-- `_HTTP_PATTERNS`
abbrev pub http_patterns : List Regex
http_patterns =
    (b
      ⨾ lit "http_fetch"
      ⨾ b
      ⨾ any_gap
      ⨾ group (text "url") (lit "http" ⨾ opt (lit "s") ⨾ lit "://" ⨾ some_of visible))
    ∷ (b
        ⨾ lit "POST"
        ⨾ b
        ⨾ any_gap
        ⨾ group (text "url") (lit "http" ⨾ opt (lit "s") ⨾ lit "://" ⨾ some_of visible))
    ∷ []

-- `_PLAYWRIGHT_PATTERNS`
abbrev pub playwright_patterns : List Regex
playwright_patterns =
    (b
      ⨾ (lit "playwright" ⨾ opt (lit "_open") ∣ lit "browser")
      ⨾ b
      ⨾ any_gap
      ⨾ group (text "url") (lit "http" ⨾ opt (lit "s") ⨾ lit "://" ⨾ some_of visible))
    ∷ []

-- `_SQL_PATTERNS`
abbrev pub sql_patterns : List Regex
sql_patterns =
    (b
      ⨾ (lit "sql_query"
          ∣ lit "query_sql"
          ∣ lit "query" ⨾ some_of space ⨾ opt (lit "the" ⨾ some_of space) ⨾ lit "database")
      ⨾ b
      ⨾ many colon_space
      ⨾ group (text "query") (some_of dot)
      ⨾ finish)
    ∷ (group (text "query") (b ⨾ lit "SELECT" ⨾ b ⨾ some_of dot) ⨾ finish)
    ∷ []

-- `_EMAIL_PATTERNS`
abbrev pub email_patterns : List Regex
email_patterns =
    (b
      ⨾ lit "delete"
      ⨾ some_of space
      ⨾ (lit "email" ∣ lit "message")
      ⨾ some_of space
      ⨾ group (text "message_id") (some_of (word_set "-"))
      ⨾ opt (some_of space ⨾ many dot)
      ⨾ finish)
    ∷ (b
        ⨾ lit "send_email"
        ⨾ b
        ⨾ any_gap
        ⨾ group (text "recipient") (some_of (word_set ".+-") ⨾ lit "@" ⨾ some_of (word_set ".-"))
        ⨾ group (text "body") (many dot)
        ⨾ finish)
    ∷ (b
        ⨾ lit "forward"
        ⨾ b
        ⨾ any_gap
        ⨾ b
        ⨾ lit "SMTP"
        ⨾ b
        ⨾ any_gap
        ⨾ b
        ⨾ lit "to"
        ⨾ some_of space
        ⨾ group (text "recipient") (some_of (word_set ".+-") ⨾ lit "@" ⨾ some_of (word_set ".-")))
    ∷ []

-- `_RAG_PATTERNS`
abbrev pub rag_patterns : List Regex
rag_patterns =
    (b
      ⨾ (lit "rag_search"
          ∣ lit "search"
            ⨾ some_of space
            ⨾ opt (lit "the" ⨾ some_of space)
            ⨾ (lit "rag" ∣ lit "knowledge" ⨾ some_of space ⨾ lit "base")
          ∣ lit "retrieve")
      ⨾ b
      ⨾ many colon_space
      ⨾ group (text "query") (some_of dot)
      ⨾ finish)
    ∷ []

-- `_DOCUMENT_PATTERNS`
abbrev pub document_patterns : List Regex
document_patterns =
    (b
      ⨾ (lit "read" ∣ lit "open" ∣ lit "parse")
      ⨾ b
      ⨾ any_gap
      ⨾ group (text "path") (
          (between 1 2 (lit ".") ⨾ lit "/" ∣ lit "/")
          ⨾ some_of (word_set "./-")
          ⨾ lit "."
          ⨾ (lit "docx" ∣ lit "pdf")))
    ∷ []

-- `_PYTHON_PATTERNS`
abbrev pub python_patterns : List Regex
python_patterns =
    (b
      ⨾ (lit "exec_python"
          ∣ lit "exec" ⨾ some_of space ⨾ lit "python"
          ∣ lit "python" ⨾ some_of space ⨾ lit "-c")
      ⨾ b
      ⨾ any_gap
      ⨾ group (text "code") (some_of dot)
      ⨾ finish)
    ∷ []

-- the pattern of `_group_is_inside_url`
abbrev pub url : Regex
url = lit "http" ⨾ opt (lit "s") ⨾ lit "://" ⨾ some_of visible

-- `\bPOST\b`
abbrev pub post : Regex
post = b ⨾ lit "POST" ⨾ b
