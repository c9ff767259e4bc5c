-- ===== src/Tests/Sessions.antt =====
-- Runs of the store of sessions.
use syrogo.Base.{
  ℕ, ◌+◌, ◌≡◌, refl, ◌⊎◌, String, Bool, true, false, none, some, [], ◌∷◌, All, length, arith, ◌==◌,
  text_eq, nat_eq,
}
use syrogo.Base.Map.{lookup}
use syrogo.Sessions.State.{HookEvent, Payload, stopped, status_for_hook_event}
use syrogo.Sessions.State.Ends.{status_for_hook_event-stopped}
use syrogo.Sessions.Store.{Session, Store, sweep, heartbeat_capability_v1}
use syrogo.Sessions.Store.Leases.{IsCurrent, sweep-IsCurrent}
use syrogo.Sessions.Store.Lifetime.{sweeping, perform, DistinctKeys, perform-stopped}

abbrev session : String → String → ℕ → Session
session id status seen = record {
  id = id;
  client_name = "cli";
  inbound_name = "in";
  tag = "";
  host = "";
  pid = 1;
  cwd = "";
  git_branch = "";
  command = [];
  tmux = "";
  status = status;
  mode = "";
  last_event = "";
  started_at = 1;
  last_seen_at = seen;
  heartbeat_capability = heartbeat_capability_v1;
  last_heartbeat_at = some 5;
  lease_expires_at = some 50;
  recovery_pending = false;
  recovered_at = none;
  stopped_at = none;
  exit_code = none;
  status_observed_at = 5;
}

-- Nothing counts as equal, so that every write is counted.
abbrev never_equal : Session → Session → Bool
never_equal a b = false

abbrev old_session : Session
old_session = session "a" "stopped" 10

abbrev live_session : Session
live_session = session "b" "idle" 20

abbrev store : Store
store = record { sessions = ("a", old_session) ∷ ("b", live_session) ∷ []; generation = 2 }

abbrev ends : HookEvent
ends = record {
  session_id = "a";
  event_name = "SessionStart";
  payload = Payload.done;
  received_at = 60;
}

keys_apart : DistinctKeys store.sessions
unfolding lookup
keys_apart = (refl, (refl, tt))

old-found : lookup "a" store.sessions ≡ some old_session
unfolding lookup
old-found = refl

sweep-run :
    (sweep never_equal 100 0 60 store).1.sessions
    ≡ ("a", old_session)
      ∷ (
        "b",
        record live_session {
          status = "stopped";
          last_seen_at = 60;
          stopped_at = some 60;
          status_observed_at = 60;
        },
      )
      ∷ []
unfolding sweep
sweep-run = refl

sweep-IsCurrent_example :
    All (λ e. IsCurrent 100 60 e.1) (sweep never_equal 100 0 60 store).1.sessions
    × (length (sweep never_equal 100 0 60 store).1.sessions
          + (sweep never_equal 100 0 60 store).0.stopped_pruned
        ≡ 2)
sweep-IsCurrent_example = sweep-IsCurrent never_equal 100 0 60 store (λ a b e. ground (arith, e))

perform-stopped_example :
    (lookup "a" (perform never_equal (λ c. c) (sweeping 20 0) 60 store).sessions ≡ some old_session)
    ⊎ ((true ≡ true)
        × (lookup "a" (perform never_equal (λ c. c) (sweeping 20 0) 60 store).sessions ≡ none))
perform-stopped_example =
    perform-stopped never_equal (λ c. c) (sweeping 20 0) 60 store "a" old_session keys_apart
      old-found refl

status_for_hook_event-stopped_example :
    (status_for_hook_event (λ c. c) ends "idle" == stopped) ≡ (ends.event_name == "SessionEnd")
status_for_hook_event-stopped_example = status_for_hook_event-stopped (λ c. c) ends "idle" refl
