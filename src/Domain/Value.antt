-- ===== src/Domain/Value.antt =====
-- crates/coding-agent-domain/src/value.rs: the checked numbers and timestamps.
use ngy_coding_agent.Base.{leb, if◌then◌else◌, ℕ, zero, suc, Result, ok, err}

pub data DomainError : Type 0 where
  invalid_prompt invalid_canonical_path invalid_timestamp invalid_event_id : DomainError
  invalid_event_cursor invalid_task_attempt invalid_task_state : DomainError

-- A signed 64-bit integer; `negsuc n` is -(n + 1).
pub data ℤ : Type 0 where
  pos : ℕ → ℤ
  negsuc : ℕ → ℤ

-- `EventId` is kept as the number that it holds.
unfoldable pub event_id : ℤ → Result DomainError ℕ
event_id (pos zero) = err invalid_event_id
event_id (pos (suc n)) = ok (suc n)
event_id (negsuc n) = err invalid_event_id

unfoldable pub event_cursor : ℤ → Result DomainError ℕ
event_cursor (pos n) = ok n
event_cursor (negsuc n) = err invalid_event_cursor

-- `UtcTimestamp` is the number of nanoseconds since year 0; `UtcTimestamp::new` takes the years
-- 0 to 9999, which are 3652425 days.
abbrev pub max_timestamp : ℕ
max_timestamp = 315569519999999999999

unfoldable pub utc_timestamp : ℕ → Result DomainError ℕ
utc_timestamp nanos = if leb nanos max_timestamp then ok nanos else err invalid_timestamp
