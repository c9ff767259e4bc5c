-- ===== src/Quota/Events.antt =====
-- internal/quota/events.go: the bounded list of recent governance events. A nil recorder is `none`.
pub mod Bounded
use syrogo.Base.{
  ℕ, String, Bool, true, false, List, [], ◌∷◌, ◌++◌, Option, none, some, if◌then◌else◌, ◌==◌,
  nat_eq, is_empty, length,
}

pub record Event : Type 0 where
  pub time : String
  pub event_type : String
  pub client : String
  pub inbound : String
  pub outbound : String
  pub reason : String
  pub retry_after : String

pub record EventRecorder : Type 0 where
  pub max_entries : ℕ
  pub events : List Event

-- A number of entries that is not positive is 0.
unfoldable pub new_recorder : ℕ → Option EventRecorder
new_recorder max_entries =
    if max_entries == 0 then none else some (record { max_entries = max_entries; events = [] })

-- `copy(r.events, r.events[1:])`, then a write to the last place.
unfoldable pub push_out : List Event → Event → List Event
push_out [] event = []
push_out (e ∷ events) event = events ++ event ∷ []

-- `stamp` is the text of the present time.
unfoldable pub record_event : Option EventRecorder → String → Event → Option EventRecorder
unfolding push_out
record_event none stamp event = none
record_event (some r) stamp event =
    let event' = record event { time = if is_empty event.time then stamp else event.time } in
    if length r.events == r.max_entries
    then some (record r { events = push_out r.events event' })
    else some (record r { events = r.events ++ event' ∷ [] })

unfoldable pub event_snapshot : Option EventRecorder → List Event
event_snapshot none = []
event_snapshot (some r) = r.events
