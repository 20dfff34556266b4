-- ===== src/Prelude/Clock.antt =====
-- Python's `datetime`: microseconds since `datetime.min` in UTC, and whether a zone is attached.
-- A sum past `datetime.max` raises in Python and is a later instant here.
use Prim.Native.Nat.{ℕ, ◌+◌, ◌*◌}
use mathlib.Core.Bool.{Bool, true}

pub record Timestamp : Type 0 where
  pub micros : ℕ
  pub aware : Bool

abbrev pub add_micros : Timestamp → ℕ → Timestamp
add_micros t n = record t { micros = t.micros + n }

abbrev pub seconds : ℕ → ℕ
seconds n = n * 1000000

abbrev pub minutes : ℕ → ℕ
minutes n = n * 60000000

abbrev pub days : ℕ → ℕ
days n = n * 86400000000

-- `value if value.tzinfo else value.replace(tzinfo=UTC)`
abbrev pub as_utc : Timestamp → Timestamp
as_utc t = record t { aware = true }
