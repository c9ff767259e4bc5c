-- ===== src/Quota/Tracker/Admission.antt =====
-- What an attempt is told, and that admitted requests stay within their limits.
use syrogo.Base.{
  not, ◌&&◌, Option-cases, Option, none, ℕ, ◌+◌, ◌≡◌, refl, ap, ◌∙◌, ◌⊎◌, inl, inr, String, Bool,
  true, false, ◌||◌, List, [], ◌∷◌, map, keep_if, some, if◌then◌else◌, ltb, ◌==◌, nat_eq, text_eq,
  Bool-cases,
}
use syrogo.Base.Map.{lookup, insert}
use syrogo.Quota.Schedule.{TimeLib, bounds}
use syrogo.Quota.Window.{WindowState, usage, is_limited, not_limited, retry_at, retry_after}
use syrogo.Quota.Window.Earliest.{rolling_retry-FreedBy}
use syrogo.Quota.Tracker.{
  allow_probe, cooldown, in_cooldown, Decision, SubjectState, Tracker, BlockingWindow, allow,
  refuse, limited, blocking_window, blocking_from, decide, subject_rollover, before_attempt,
}

abbrev pub is_none_left : List String → Bool
is_none_left [] = true
is_none_left (n ∷ names) = false

abbrev pub window_limited : WindowState → Bool
window_limited w = is_limited w (usage w.events)

abbrev pub limited_names : List WindowState → List String
limited_names windows = map (λ w. w.name) (keep_if window_limited windows)

-- What follows from the windows that block.
abbrev answer_of : ℕ → List BlockingWindow → Decision
answer_of until [] = allow
answer_of until (b ∷ blocking) = refuse limited until (b ∷ blocking)

module _ (lib : TimeLib) (now : ℕ) where
  abbrev may_probe : SubjectState → Bool
  may_probe s = not (s.next_probe_at == 0) && not (ltb now s.next_probe_at) && not s.probe_in_flight

  -- A window is given a time to retry exactly when one of its limits is reached.
  retry_after-limited :
      (w : WindowState)
      → ((window_limited w ≡ false) × (retry_after lib now w ≡ not_limited))
        ⊎ ((window_limited w ≡ true) × ((t : ℕ) × (retry_after lib now w ≡ retry_at t)))
  retry_after-limited w = elim (Bool-cases (window_limited w)) [
    | inl h ↦ elim (Bool-cases (w.reset == "fixed")) [
      | inl f ↦ inr (h, ((bounds lib w.fixed now).1, unfold retry_after in rw (h, f) refl))
      | inr r ↦
          let freed = rolling_retry-FreedBy w h in
          inr (h, (freed.event.at + w.duration, unfold retry_after in rw (h, r) freed.result_is))
    ]
    | inr h ↦ inl (h, unfold retry_after in rw h refl)
  ]

  -- The windows that block are those with a reached limit, in their order.
  record Blocks (latest : ℕ) (windows : List WindowState) : Type 0 where
    pub until : ℕ
    pub blocking : List BlockingWindow
    pub result_is : blocking_from lib now latest windows ≡ some (until, blocking)
    pub names_are : map (λ b. b.window) blocking ≡ limited_names windows

  blocking_from-free :
      (latest : ℕ) (w : WindowState) (windows : List WindowState)
      → retry_after lib now w ≡ not_limited
      → blocking_from lib now latest (w ∷ windows) ≡ blocking_from lib now latest windows
  unfolding blocking_from
  blocking_from-free latest w windows e = rw (e, blocking_from) refl

  abbrev later_of : ℕ → ℕ → ℕ
  later_of latest t = if latest == 0 || ltb latest t then t else latest

  blocking_from-blocked :
      (latest t until : ℕ) (w : WindowState) (windows : List WindowState)
      (rest : List BlockingWindow)
      → retry_after lib now w ≡ retry_at t
      → blocking_from lib now (later_of latest t) windows ≡ some (until, rest)
      → blocking_from lib now latest (w ∷ windows) ≡ some (until, blocking_window lib w t ∷ rest)
  unfolding blocking_from
  blocking_from-blocked latest t until w windows rest e f = rw (e, f, blocking_from) refl

  names-blocked :
      (w : WindowState) (t : ℕ) (blocking : List BlockingWindow) (windows : List WindowState)
      → window_limited w ≡ true
      → map (λ b. b.window) blocking ≡ limited_names windows
      → map (λ b. b.window) (blocking_window lib w t ∷ blocking) ≡ limited_names (w ∷ windows)
  unfolding blocking_window
  names-blocked w t blocking windows h e = rw h (ap (◌∷◌ w.name) e)

  blocking_from-Blocks : (latest : ℕ) (windows : List WindowState) → Blocks latest windows
  blocking_from-Blocks latest [] = record {
    until = latest;
    blocking = [];
    result_is = unfold blocking_from in refl;
    names_are = refl;
  }
  blocking_from-Blocks latest (w ∷ windows) = elim (retry_after-limited w) [
    | inl (h, e) ↦
        let rest = blocking_from-Blocks latest windows in
        record {
          until = rest.until;
          blocking = rest.blocking;
          result_is = blocking_from-free latest w windows e ∙ rest.result_is;
          names_are = rw h rest.names_are;
        }
    | inr (h, (t, e)) ↦
        let rest = blocking_from-Blocks (later_of latest t) windows in
        record {
          until = rest.until;
          blocking = blocking_window lib w t ∷ rest.blocking;
          result_is =
              blocking_from-blocked latest t rest.until w windows rest.blocking e rest.result_is;
          names_are = names-blocked w t rest.blocking windows h rest.names_are;
        }
  ]

  -- What a client is answered, and the state that is kept.
  pub record Answer (t : Tracker) (name : String) (s : SubjectState) : Type 0 where
    pub decision : Decision
    pub tracker : Tracker
    pub result_is : before_attempt lib false (some t) name now ≡ some (decision, some tracker)
    pub allowed_is : decision.allowed ≡ is_none_left (limited_names s.windows)
    pub names_are : map (λ b. b.window) decision.blocking_windows ≡ limited_names s.windows
    pub tracker_is : tracker ≡ record t { subjects = insert name s t.subjects }

  decide-known :
      (s : SubjectState) (until : ℕ) (blocking : List BlockingWindow)
      → blocking_from lib now 0 s.windows ≡ some (until, blocking)
      → decide lib now false s ≡ some (answer_of until blocking, s)
  unfolding decide
  decide-known s until [] e = rw (e, decide) refl
  decide-known s until (b ∷ blocking) e = rw (e, decide) refl

  before_attempt-known :
      (t : Tracker) (name : String) (s s' : SubjectState) (d : Decision)
      → lookup name t.subjects ≡ some s
      → decide lib now false (subject_rollover lib now s) ≡ some (d, s')
      → before_attempt lib false (some t) name now
        ≡ some (d, some (record t { subjects = insert name s' t.subjects }))
  unfolding before_attempt
  before_attempt-known t name s s' d found e = rw (found, e, before_attempt) refl

  answer_of-allowed :
      (until : ℕ) (blocking : List BlockingWindow)
      → (answer_of until blocking).allowed ≡ is_none_left (map (λ b. b.window) blocking)
  answer_of-allowed until [] = refl
  answer_of-allowed until (b ∷ blocking) = refl

  answer_of-blocking :
      (until : ℕ) (blocking : List BlockingWindow)
      → (answer_of until blocking).blocking_windows ≡ blocking
  answer_of-blocking until [] = refl
  answer_of-blocking until (b ∷ blocking) = refl

  -- A request of a known client is always answered: it is allowed exactly when no window has
  -- reached a limit after the rollover, the answer names exactly the windows that have, in
  -- their order, and the subject that is kept is the one rolled over.
  pub client_attempt-Answer :
      (t : Tracker) (name : String) (s : SubjectState)
      → lookup name t.subjects ≡ some s
      → Answer t name (subject_rollover lib now s)
  client_attempt-Answer t name s found =
      let s' = subject_rollover lib now s in
      let blocks = blocking_from-Blocks 0 s'.windows in
      record {
        decision = answer_of blocks.until blocks.blocking;
        tracker = record t { subjects = insert name s' t.subjects };
        result_is =
            before_attempt-known t name s s' (answer_of blocks.until blocks.blocking) found
              (decide-known s' blocks.until blocks.blocking blocks.result_is);
        allowed_is =
            answer_of-allowed blocks.until blocks.blocking ∙ ap is_none_left blocks.names_are;
        names_are =
            ap (map (λ b. b.window)) (answer_of-blocking blocks.until blocks.blocking)
            ∙ blocks.names_are;
        tracker_is = refl;
      }

  decide-total :
      (probing : Bool) (s : SubjectState)
      → (d : Decision) × (s' : SubjectState) × (decide lib now probing s ≡ some (d, s'))
  decide-total probing s =
      let blocks = blocking_from-Blocks 0 s.windows in
      let open_case = decide-open s blocks.until blocks.blocking blocks.result_is in
      elim (Bool-cases (probing && in_cooldown s now)) [
        | inl h ↦ decide-cooling probing s h
        | inr h ↦ (answer_of blocks.until blocks.blocking, s, open_case probing h)
      ]
    where
      decide-open :
          (s : SubjectState) (until : ℕ) (blocking : List BlockingWindow)
          → blocking_from lib now 0 s.windows ≡ some (until, blocking)
          → (probing : Bool) → (probing && in_cooldown s now) ≡ false
          → decide lib now probing s ≡ some (answer_of until blocking, s)
      decide-open s until [] e probing h = unfold decide in rw (h, e, decide) refl
      decide-open s until (b ∷ blocking) e probing h = unfold decide in rw (h, e, decide) refl

      decide-cooling :
          (probing : Bool) (s : SubjectState)
          → (probing && in_cooldown s now) ≡ true
          → (d : Decision) × (s' : SubjectState) × (decide lib now probing s ≡ some (d, s'))
      decide-cooling probing s h = elim (Bool-cases (may_probe s)) [
        | inl m ↦ (
          allow_probe,
          record s { probe_in_flight = true },
          unfold decide in rw (h, m, decide) refl,
        )
        | inr m ↦ (refuse cooldown s.next_probe_at [], s, unfold decide in rw (h, m, decide) refl)
      ]

  before_attempt-answer :
      (probing : Bool) (t : Tracker) (name : String) (s s' : SubjectState) (d : Decision)
      → lookup name t.subjects ≡ some s
      → decide lib now probing (subject_rollover lib now s) ≡ some (d, s')
      → before_attempt lib probing (some t) name now
        ≡ some (d, some (record t { subjects = insert name s' t.subjects }))
  unfolding before_attempt
  before_attempt-answer probing t name s s' d found e = rw (found, e, before_attempt) refl

  before_attempt-unlisted :
      (probing : Bool) (t : Tracker) (name : String)
      → lookup name t.subjects ≡ none
      → before_attempt lib probing (some t) name now ≡ some (allow, some t)
  unfolding before_attempt
  before_attempt-unlisted probing t name missing = rw (missing, before_attempt) refl

  -- Every attempt is answered: no index is out of range.
  pub before_attempt-total :
      (probing : Bool) (t : Option Tracker) (name : String)
      → (d : Decision) × (t' : Option Tracker) × (before_attempt lib probing t name now
          ≡ some (d, t'))
  before_attempt-total probing none name = (allow, none, unfold before_attempt in refl)
  before_attempt-total probing (some t) name = elim (Option-cases (lookup name t.subjects)) [
    | inl missing ↦ (allow, some t, before_attempt-unlisted probing t name missing)
    | inr (s, found) ↦
        let (d, s', e) = decide-total probing (subject_rollover lib now s) in
        (
          d,
          some (record t { subjects = insert name s' t.subjects }),
          before_attempt-answer probing t name s s' d found e,
        )
  ]
