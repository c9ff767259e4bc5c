-- ===== src/Sessions/Store.antt =====
-- internal/sessions/store.go and types.go: the store of sessions. A nil pointer to a time or a
-- code is `none`, copies of a session are the session, and each operation takes the reading of
-- the clock. The Tmux fields, which are never read, are one text.
pub mod Final
pub mod Leases
pub mod Lifetime
pub mod Keys
use syrogo.Base.{
  ℕ, suc, ◌+◌, ◌*◌, String, Bool, true, false, not, ◌&&◌, ◌||◌, List, [], ◌∷◌, Option, none, some,
  if◌then◌else◌, ltb, leb, ◌==◌, nat_eq, text_eq, is_empty, is_some, keep_if, map,
}
use syrogo.Base.Map.{Map, lookup, insert}
use syrogo.Base.Sort.{sort_by}
use syrogo.Runtime.{codes}
use syrogo.Router.Wildcard.{index}
use syrogo.Sessions.State.{HookEvent, stopped, status_for_hook_event}

pub record Session : Type 0 where
  pub id : String
  pub client_name : String
  pub inbound_name : String
  pub tag : String
  pub host : String
  pub pid : ℕ
  pub cwd : String
  pub git_branch : String
  pub command : List String
  pub tmux : String
  pub status : String
  pub mode : String
  pub last_event : String
  pub started_at : ℕ
  pub last_seen_at : ℕ
  pub heartbeat_capability : String
  pub last_heartbeat_at : Option ℕ
  pub lease_expires_at : Option ℕ
  pub recovery_pending : Bool
  pub recovered_at : Option ℕ
  pub stopped_at : Option ℕ
  pub exit_code : Option ℕ
  pub status_observed_at : ℕ

-- `deep_equal` is `reflect.DeepEqual`.
pub record Store : Type 0 where
  pub sessions : Map String Session
  pub generation : ℕ

pub record SweepResult : Type 0 where
  pub lease_expired : ℕ
  pub transient_degraded : ℕ
  pub stopped_pruned : ℕ

pub record ListFilter : Type 0 where
  pub client : String
  pub status : String
  pub host : String
  pub cwd : String

pub data SessionError : Type 0 where
  owner_mismatch heartbeat_unsupported : SessionError

abbrev pub heartbeat_capability_v1 : String
heartbeat_capability_v1 = "heartbeat_v1"

-- 45 seconds, in nanoseconds.
abbrev pub default_lease_ttl : ℕ
default_lease_ttl = 45 * 1000000000

abbrev pub is_stopped : Session → Bool
is_stopped s = s.status == stopped

abbrev pub owned : Session → String → String → Bool
owned s client inbound = s.client_name == client && s.inbound_name == inbound

abbrev or_now : ℕ → ℕ → ℕ
or_now at now = if at == 0 then now else at

-- What a registration takes over from the session that is there.
unfoldable pub merge_existing : Session → Session → Session
merge_existing existing s = record s {
  status = existing.status;
  last_event = existing.last_event;
  started_at = existing.started_at;
  last_seen_at = existing.last_seen_at;
  stopped_at = existing.stopped_at;
  exit_code = existing.exit_code;
  recovery_pending = existing.recovery_pending;
  recovered_at = existing.recovered_at;
  status_observed_at = existing.status_observed_at;
  heartbeat_capability =
      if not (is_empty existing.heartbeat_capability) && is_empty s.heartbeat_capability
      then existing.heartbeat_capability
      else s.heartbeat_capability;
}

-- The rest of `Register`, up to the write.
unfoldable pub register_defaults : Session → ℕ → Session
register_defaults s now =
    let leased : Bool = s.heartbeat_capability == heartbeat_capability_v1 in
    record s {
      started_at = or_now s.started_at now;
      last_seen_at = or_now s.last_seen_at now;
      status = if is_empty s.status then "unknown" else s.status;
      status_observed_at = or_now s.status_observed_at now;
      last_heartbeat_at = if leased then some now else none;
      lease_expires_at = if leased then some (now + default_lease_ttl) else none;
      recovery_pending = if leased then false else s.recovery_pending;
    }

-- `ApplyHookEvent` on a session that goes on.
unfoldable pub hook_session : (ℕ → ℕ) → HookEvent → Session → ℕ → Session
unfolding status_for_hook_event
hook_session lower event s now =
    let received : ℕ = or_now event.received_at now in
    let status : String = status_for_hook_event lower event s.status in
    record s {
      status = status;
      last_event = event.event_name;
      last_seen_at = received;
      status_observed_at = now;
      stopped_at =
          if status == stopped && not (is_some s.stopped_at) then some received else s.stopped_at;
    }

unfoldable pub stop_session : ℕ → Session → ℕ → Session
stop_session exit_code s now = record s {
  status = stopped;
  last_seen_at = now;
  stopped_at = some now;
  exit_code = some exit_code;
  status_observed_at = now;
}

unfoldable pub beat_session : Session → ℕ → Session
beat_session s now = record s {
  last_heartbeat_at = some now;
  lease_expires_at = some (now + default_lease_ttl);
  recovery_pending = false;
  status = if s.recovery_pending then "unknown" else s.status;
}

-- `LeaseExpiresAt != nil && !now.Before(*LeaseExpiresAt)`.
abbrev pub lease_over : ℕ → Option ℕ → Bool
lease_over now none = false
lease_over now (some at) = not (ltb now at)

-- What `Sweep` does with a session: it is kept, changed, or deleted.
pub data Swept : Type 0 where
  kept pruned : Swept
  expired degraded : Session → Swept

unfoldable pub sweep_session : ℕ → ℕ → ℕ → Session → Swept
sweep_session retention transient now s =
    if is_stopped s
    then (if ltb 0 retention && ltb (s.last_seen_at + retention) now then pruned else kept)
    else if s.heartbeat_capability == heartbeat_capability_v1 && lease_over now s.lease_expires_at
    then expired (record s {
      status = stopped;
      last_seen_at = now;
      stopped_at = some now;
      exit_code = none;
      status_observed_at = now;
    })
    else if ltb 0 transient
        && (s.status == "tool_running" || s.status == "compacting")
        && not (s.status_observed_at == 0)
        && not (ltb now (s.status_observed_at + transient))
    then degraded (record s { status = "unknown"; status_observed_at = now })
    else kept

abbrev pub no_sweep : SweepResult
no_sweep = record { lease_expired = 0; transient_degraded = 0; stopped_pruned = 0 }

abbrev status_priority : String → ℕ
status_priority status = if status == "waiting_permission" then 0 else 1

unfoldable pub matches_filter : Session → ListFilter → Bool
unfolding index
matches_filter s filter =
    (is_empty filter.client || s.client_name == filter.client)
    && (is_empty filter.status || s.status == filter.status)
    && (is_empty filter.host || is_some (index (codes filter.host) (codes s.host)))
    && (is_empty filter.cwd || is_some (index (codes filter.cwd) (codes s.cwd)))

-- The order of `List`; `sort.Slice` keeps no order of equal sessions, here they keep theirs.
unfoldable pub listed_before : Session → Session → Bool
listed_before a b =
    if not (status_priority a.status == status_priority b.status)
    then ltb (status_priority a.status) (status_priority b.status)
    else ltb b.last_seen_at a.last_seen_at

unfoldable pub list_sessions : Store → ListFilter → List Session
unfolding matches_filter sort_by listed_before
list_sessions store filter =
    sort_by listed_before
      (keep_if (λ s. matches_filter s filter) (map (λ (e : String × Session). e.1) store.sessions))

unfoldable pub get_owned : Store → String → String → String → Option Session
unfolding lookup
get_owned store id client inbound = elim (lookup id store.sessions) [
  | none ↦ none
  | some s ↦ if owned s client inbound then some s else none
]

-- The loop of `LatestActive`.
unfoldable pub latest_from : String → String → Option Session → Map String Session → Option Session
latest_from client inbound latest [] = latest
latest_from client inbound latest ((id, s) ∷ sessions) =
    let active : Bool = owned s client inbound && not (is_stopped s) && not s.recovery_pending in
    let later : Bool = elim latest [ none ↦ true | some l ↦ ltb l.last_seen_at s.last_seen_at ] in
    latest_from client inbound (if active && later then some s else latest) sessions

unfoldable pub latest_active : Store → String → String → Option Session
unfolding latest_from
latest_active store client inbound = latest_from client inbound none store.sessions

module _ (deep_equal : Session → Session → Bool) where
  unfoldable pub set_session : String → Session → Store → Store
  unfolding lookup insert
  set_session id s store =
      let same : Bool = elim (lookup id store.sessions) [
        | none ↦ false
        | some old ↦ deep_equal old s
      ] in
      if same
      then store
      else record { sessions = insert id s store.sessions; generation = suc store.generation }

  unfoldable pub register : Session → ℕ → Store → (Option Session × Option SessionError) × Store
  unfolding lookup set_session merge_existing register_defaults
  register s now store = elim (lookup s.id store.sessions) [
    | none ↦
        let made : Session = register_defaults s now in
        ((some made, none), set_session made.id made store)
    | some existing ↦
        if not (owned existing s.client_name s.inbound_name)
        then ((none, some owner_mismatch), store)
        else if is_stopped existing
        then ((some existing, none), store)
        else (let made : Session = register_defaults (merge_existing existing s) now in
            ((some made, none), set_session made.id made store))
  ]

  -- An operation on a session of its owner that does nothing to a stopped one.
  unfoldable pub on_owned :
      (Session → Session) → String → String → String → Store → Option Session × Store
  unfolding lookup set_session
  on_owned f client inbound id store = elim (lookup id store.sessions) [
    | none ↦ (none, store)
    | some s ↦
        if not (owned s client inbound)
        then (none, store)
        else if is_stopped s
        then (some s, store)
        else (some (f s), set_session id (f s) store)
  ]

  unfoldable pub apply_hook_event :
      (ℕ → ℕ) → String → String → HookEvent → ℕ → Store → Option Session × Store
  unfolding on_owned hook_session
  apply_hook_event lower client inbound event now store =
      on_owned (λ s. hook_session lower event s now) client inbound event.session_id store

  unfoldable pub mark_stopped : String → String → String → ℕ → ℕ → Store → Option Session × Store
  unfolding on_owned stop_session
  mark_stopped client inbound id exit_code now store =
      on_owned (λ s. stop_session exit_code s now) client inbound id store

  -- The session, whether it was found, and the error.
  unfoldable pub heartbeat :
      String → String → String → ℕ → Store → (Option Session × Bool × Option SessionError) × Store
  unfolding lookup set_session beat_session
  heartbeat client inbound id now store = elim (lookup id store.sessions) [
    | none ↦ ((none, false, none), store)
    | some s ↦
        if not (owned s client inbound)
        then ((none, false, none), store)
        else if is_stopped s
        then ((some s, true, none), store)
        else if not (s.heartbeat_capability == heartbeat_capability_v1)
        then ((none, true, some heartbeat_unsupported), store)
        else ((some (beat_session s now), true, none), set_session id (beat_session s now) store)
  ]

  -- The loop of `Sweep` over the sessions; a write happens where the session is not equal.
  unfoldable pub sweep_from : ℕ → ℕ → ℕ → Map String Session → Map String Session × ℕ × SweepResult
  unfolding sweep_session
  sweep_from retention transient now [] = ([], 0, no_sweep)
  sweep_from retention transient now ((id, s) ∷ sessions) =
      let (rest, changes, counts) = sweep_from retention transient now sessions in
      elim (sweep_session retention transient now s) [
        | kept ↦ ((id, s) ∷ rest, changes, counts)
        | pruned ↦ (rest, suc changes, record counts { stopped_pruned = suc counts.stopped_pruned })
        | expired t ↦ (
          (id, if deep_equal s t then s else t) ∷ rest,
          if deep_equal s t then changes else suc changes,
          record counts { lease_expired = suc counts.lease_expired },
        )
        | degraded t ↦ (
          (id, if deep_equal s t then s else t) ∷ rest,
          if deep_equal s t then changes else suc changes,
          record counts { transient_degraded = suc counts.transient_degraded },
        )
      ]

  unfoldable pub sweep : ℕ → ℕ → ℕ → Store → SweepResult × Store
  unfolding sweep_from
  sweep retention transient now store =
      let (sessions, changes, counts) = sweep_from retention transient now store.sessions in
      (counts, record { sessions = sessions; generation = store.generation + changes })

  unfoldable pub prune_stopped : ℕ → ℕ → Store → ℕ × Store
  unfolding sweep
  prune_stopped max_age now store =
      ((sweep max_age 0 now store).0.stopped_pruned, (sweep max_age 0 now store).1)
