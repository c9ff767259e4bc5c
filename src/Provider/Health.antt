-- ===== src/Provider/Health.antt =====
-- internal/provider/health.go: a circuit breaker per outbound. A nil tracker is `none`; each
-- operation takes the reading of `t.now()` as an argument. Times are nanoseconds since Go's zero
-- time, which is 0. The mutex makes each operation one step.
pub mod Breaker
pub mod Probe
use syrogo.Base.{
  ℕ, suc, ◌+◌, ◌*◌, String, Bool, true, false, not, ◌&&◌, ◌||◌, Option, none, some, List, [], ◌∷◌,
  map, if◌then◌else◌, ltb, leb, ◌==◌, nat_eq, text_eq,
}
use syrogo.Base.Map.{Map, lookup, insert}
use syrogo.Base.Sort.{sort_by, text_less}
use syrogo.Provider.Error.{ErrorKind, is_recoverable}

pub data HealthReason : Type 0 where
  no_reason available degraded probing : HealthReason

abbrev pub failure_threshold : ℕ
failure_threshold = 3

-- `time.Minute`, in nanoseconds.
abbrev pub default_probe_interval : ℕ
default_probe_interval = 60 * 1000000000

pub record HealthDecision : Type 0 where
  pub allowed : Bool
  pub reason : HealthReason
  pub probe : Bool
  pub next_probe_at : ℕ
  pub retry_after : ℕ
  pub failure_count : ℕ

pub record HealthState : Type 0 where
  pub name : String
  pub last_success_at : ℕ
  pub last_failure_at : ℕ
  pub last_error_kind : Option ErrorKind
  pub consecutive_failures : ℕ
  pub next_probe_at : ℕ
  pub probe_in_flight : Bool

pub record HealthTracker : Type 0 where
  pub probe_interval : ℕ
  pub outbounds : Map String HealthState

pub record HealthSnapshotItem : Type 0 where
  pub outbound : String
  pub state : HealthReason
  pub last_success_at : String
  pub last_failure_at : String
  pub last_error_kind : Option ErrorKind
  pub consecutive_failures : ℕ
  pub next_probe_at : String

unfoldable pub new_health_state : String → HealthState
new_health_state name = record {
  name = name;
  last_success_at = 0;
  last_failure_at = 0;
  last_error_kind = none;
  consecutive_failures = 0;
  next_probe_at = 0;
  probe_in_flight = false;
}

unfoldable pub add_outbounds : List String → Map String HealthState → Map String HealthState
unfolding new_health_state insert
add_outbounds [] m = m
add_outbounds (name ∷ names) m = add_outbounds names (insert name (new_health_state name) m)

-- An interval of 0 stands for every interval that is not positive.
unfoldable pub new_health_tracker : List String → ℕ → Option HealthTracker
unfolding add_outbounds
new_health_tracker [] interval = none
new_health_tracker (name ∷ names) interval = some (record {
  probe_interval = if interval == 0 then default_probe_interval else interval;
  outbounds = add_outbounds (name ∷ names) [];
})

abbrev pub allow : HealthDecision
allow = record {
  allowed = true;
  reason = no_reason;
  probe = false;
  next_probe_at = 0;
  retry_after = 0;
  failure_count = 0;
}

unfoldable pub block_decision : HealthState → HealthDecision
block_decision s = record {
  allowed = false;
  reason = degraded;
  probe = false;
  next_probe_at = s.next_probe_at;
  retry_after = s.next_probe_at;
  failure_count = s.consecutive_failures;
}

-- What `BeforeAttempt` does with the entry of the outbound.
unfoldable pub attempt_state : HealthState → ℕ → HealthDecision × HealthState
unfolding block_decision
attempt_state s now =
    if ltb s.consecutive_failures failure_threshold
    then (allow, s)
    else if s.probe_in_flight
    then (block_decision s, s)
    else if s.next_probe_at == 0 || not (ltb now s.next_probe_at)
    then (
      record {
        allowed = true;
        reason = probing;
        probe = true;
        next_probe_at = s.next_probe_at;
        retry_after = 0;
        failure_count = s.consecutive_failures;
      },
      record s { probe_in_flight = true },
    )
    else (block_decision s, s)

unfoldable pub success_state : HealthState → ℕ → HealthState
success_state s now = record s {
  last_success_at = now;
  last_error_kind = none;
  consecutive_failures = 0;
  next_probe_at = 0;
  probe_in_flight = false;
}

unfoldable pub failure_state : ℕ → ErrorKind → HealthState → ℕ → HealthState
failure_state interval kind s now = record s {
  last_failure_at = now;
  last_error_kind = some kind;
  consecutive_failures = suc s.consecutive_failures;
  probe_in_flight = false;
  next_probe_at =
      if leb failure_threshold (suc s.consecutive_failures)
      then now + interval
      else s.next_probe_at;
}

-- A write to the entry that the map holds for the outbound.
unfoldable pub put_state : HealthTracker → String → HealthState → HealthTracker
unfolding insert
put_state t outbound s = record t { outbounds = insert outbound s t.outbounds }

unfoldable pub before_attempt :
    Option HealthTracker → String → ℕ → HealthDecision × Option HealthTracker
unfolding lookup attempt_state put_state
before_attempt none outbound now = (allow, none)
before_attempt (some t) outbound now = elim (lookup outbound t.outbounds) [
  | none ↦ (allow, some t)
  | some s ↦ ((attempt_state s now).0, some (put_state t outbound (attempt_state s now).1))
]

unfoldable pub record_success : Option HealthTracker → String → ℕ → Option HealthTracker
unfolding lookup success_state put_state
record_success none outbound now = none
record_success (some t) outbound now = elim (lookup outbound t.outbounds) [
  | none ↦ some t
  | some s ↦ some (put_state t outbound (success_state s now))
]

unfoldable pub record_failure : Option HealthTracker → String → ErrorKind → ℕ → Option HealthTracker
unfolding lookup failure_state put_state is_recoverable
record_failure none outbound kind now = none
record_failure (some t) outbound kind now =
    if not (is_recoverable kind) then some t else elim (lookup outbound t.outbounds) [
      | none ↦ some t
      | some s ↦ some (put_state t outbound (failure_state t.probe_interval kind s now))
    ]

unfoldable pub snapshot_reason : HealthState → ℕ → HealthReason
snapshot_reason s now =
    if leb failure_threshold s.consecutive_failures
    then (if s.probe_in_flight || s.next_probe_at == 0 || not (ltb now s.next_probe_at)
        then probing
        else degraded)
    else if ltb 0 s.consecutive_failures
    then degraded
    else available

-- `value.UTC().Format(time.RFC3339Nano)` is the library's.
unfoldable pub format_health_time : (ℕ → String) → ℕ → String
format_health_time format value = if value == 0 then "" else format value

unfoldable pub snapshot_state : (ℕ → String) → HealthState → ℕ → HealthSnapshotItem
unfolding snapshot_reason format_health_time
snapshot_state format s now = record {
  outbound = s.name;
  state = snapshot_reason s now;
  last_success_at = format_health_time format s.last_success_at;
  last_failure_at = format_health_time format s.last_failure_at;
  last_error_kind = s.last_error_kind;
  consecutive_failures = s.consecutive_failures;
  next_probe_at = format_health_time format s.next_probe_at;
}

-- The clock is read at each entry: `now name` is that reading.
unfoldable pub snapshot :
    (ℕ → String) → Option HealthTracker → (String → ℕ) → List HealthSnapshotItem
unfolding snapshot_state sort_by
snapshot format none now = []
snapshot format (some t) now =
    sort_by (λ a b. text_less a.outbound b.outbound)
      (map (λ (e : String × HealthState). snapshot_state format e.1 (now e.0)) t.outbounds)
