-- ===== src/Quota/Tracker/Within.antt =====
-- Requests admitted one at a time stay within the limits.
use syrogo.Base.{
  ℕ, zero, suc, ◌+◌, ◌≤◌, ◌≡◌, refl, sym, ap, ◌∙◌, subst, ◌⊎◌, inl, inr, String, true, false, not,
  ◌&&◌, List, [], ◌∷◌, ◌++◌, All, map, drop, Option, none, some, if◌then◌else◌, ltb, leb, ◌==◌,
  nat_eq, text_eq, arith, Bool-cases, Option-cases,
}
use syrogo.Base.Map.{lookup, insert, Every, Every-insert, lookup-insert_same}
use syrogo.Quota.Schedule.{TimeLib, bounds}
use syrogo.Quota.Window.{
  UsageEvent, WindowState, Totals, no_usage, add_event, usage_from, usage, is_limited, leading,
  discard, discard_before, discard_through, rollover,
}
use syrogo.Quota.Tracker.{
  Decision, allow, SubjectState, Tracker, concerns, append_event, reset_windows, update_subject,
  subject_rollover, before_attempt, record_client_usage, record_client_request,
}
use syrogo.Quota.Tracker.Admission.{client_attempt-Answer, is_none_left, limited_names}

-- How the handler admits a request: a refused one is not recorded. The two calls read the clock
-- at `asked` and at `told`.
unfoldable pub admit : TimeLib → Tracker → String → ℕ → ℕ → Option (Option Tracker)
unfolding before_attempt record_client_request
admit lib t name asked told = elim (before_attempt lib false (some t) name asked) [
  | none ↦ none
  | some (d, t') ↦ some (if d.allowed then record_client_request lib t' name told else t')
]

-- A window with room for `room` more requests under its limit.
abbrev pub Room : ℕ → WindowState → Type 0
Room room w = (w.max_requests ≡ 0) ⊎ ((usage w.events).requests + room ≤ w.max_requests)

abbrev pub Within : WindowState → Type 0
Within = Room 0

abbrev pub AllWithin : Tracker → Type 0
AllWithin t = Every (λ s. All Within s.windows) t.subjects

usage_from-requests :
    (t : Totals) (events : List UsageEvent)
    → (usage_from t events).requests ≡ t.requests + (usage events).requests
unfolding usage usage_from
usage_from-requests t [] = omega arith
usage_from-requests t (e ∷ events) = ground (
  arith,
  usage_from-requests (add_event t e) events,
  usage_from-requests (add_event no_usage e) events,
)

requests-cons :
    (e : UsageEvent) (events : List UsageEvent)
    → (usage (e ∷ events)).requests ≡ e.requests + (usage events).requests
unfolding usage usage_from
requests-cons e events = omega (arith, usage_from-requests (add_event no_usage e) events)

requests-drop :
    (n : ℕ) (events : List UsageEvent) → (usage (drop n events)).requests ≤ (usage events).requests
requests-drop zero events = omega arith
requests-drop (suc n) [] = omega arith
requests-drop (suc n) (e ∷ events) = omega (arith, requests-drop n events, requests-cons e events)

requests-append :
    (events : List UsageEvent) (e : UsageEvent)
    → (usage (events ++ e ∷ [])).requests ≡ (usage events).requests + e.requests
requests-append [] e = unfold usage usage_from in omega arith
requests-append (f ∷ events) e =
    omega
      (arith, requests-append events e, requests-cons f (events ++ e ∷ []), requests-cons f events)

module _ (lib : TimeLib) (now room : ℕ) where
  reset-Room : (cutoff : ℕ) (w : WindowState) → Room room w → Room room (discard_before cutoff w)
  unfolding discard_before discard
  reset-Room cutoff w (inl h) = inl h
  reset-Room cutoff w (inr h) =
      inr (omega (arith, h, requests-drop (leading (λ e. ltb e.at cutoff) w.events) w.events))

  rollover-Room : (w : WindowState) → Room room w → Room room (rollover lib now w)
  unfolding rollover discard_through discard
  rollover-Room w h = elim (Bool-cases (w.reset == "fixed")) [
    | inl f ↦ rw f (reset-Room (bounds lib w.fixed now).0 w h)
    | inr r ↦ rw r (elim h [
      | inl none_set ↦ inl none_set
      | inr le ↦ inr (
          omega (
            arith,
            le,
            requests-drop (leading (λ e. leb (e.at + w.duration) now) w.events) w.events,
          ))
    ])
  ]

  pub All-map :
      (P : WindowState → Type 0) (f : WindowState → WindowState) (windows : List WindowState)
      → ((w : WindowState) → P w → P (f w))
      → All P windows
      → All P (map f windows)
  All-map P f [] h k = tt
  All-map P f (w ∷ windows) h k = (h w k.0, All-map P f windows h k.1)

  reset_windows-Room :
      (s : SubjectState) → All (Room room) s.windows → All (Room room) (reset_windows lib now s)
  unfolding reset_windows
  reset_windows-Room s h = elim (Bool-cases (s.reset_all.period == "")) [
    | inl e ↦ rw e h
    | inr e ↦ rw e (
        All-map (Room room) (discard_before (bounds lib s.reset_all now).0) s.windows
          (reset-Room (bounds lib s.reset_all now).0) h)
  ]

  subject_rollover-windows :
      (s : SubjectState)
      → (subject_rollover lib now s).windows ≡ map (rollover lib now) (reset_windows lib now s)
  unfolding subject_rollover
  subject_rollover-windows s =
      elim (Bool-cases (not (s.cooldown_until == 0) && not (ltb now s.cooldown_until))) [
        | inl e ↦ rw e refl
        | inr e ↦ rw e refl
      ]

  subject_rollover-Room :
      (s : SubjectState)
      → All (Room room) s.windows
      → All (Room room) (subject_rollover lib now s).windows
  subject_rollover-Room s h = rw (subject_rollover-windows s) (
      All-map (Room room) (rollover lib now) (reset_windows lib now s) rollover-Room
        (reset_windows-Room s h))

-- One more request fits where no limit is reached.
not_limited-Room : (w : WindowState) → is_limited w (usage w.events) ≡ false → Room 1 w
not_limited-Room w free = elim (Bool-cases (w.max_requests == 0)) [
  | inl z ↦ inl (ground arith)
  | inr p ↦ inr (ground arith)
]

append-Within :
    (e : UsageEvent) (w : WindowState) → e.requests ≤ 1 → Room 1 w → Within (append_event e w)
append-Within e w one (inl h) = inl h
append-Within e w one (inr h) = inr (omega (arith, h, one, requests-append w.events e))

All-free :
    (windows : List WindowState)
    → is_none_left (limited_names windows) ≡ true
    → All (Room 1) windows
All-free [] h = tt
All-free (w ∷ windows) h = elim (Bool-cases (is_limited w (usage w.events))) [
  | inl l ↦ let bad : false ≡ true = rw l at h in ground arith
  | inr f ↦ (not_limited-Room w f, All-free windows (rw f at h))
]

module _ (lib : TimeLib) (now : ℕ) where
  abbrev request_event : UsageEvent
  request_event = record { at = now; requests = 1; tokens = 0; cost_micro_usd = 0; unpriced = 0 }

  abbrev count_request : WindowState → WindowState
  count_request w = if concerns request_event w then append_event request_event w else w

  count_request-Within : (w : WindowState) → Room 1 w → Within (count_request w)
  count_request-Within w room = elim (Bool-cases (concerns request_event w)) [
    | inl c ↦ rw c (append-Within request_event w (omega arith) room)
    | inr d ↦ rw d (room_within w room)
  ]
    where
      room_within : (w : WindowState) → Room 1 w → Within w
      room_within w (inl z) = inl z
      room_within w (inr p) = inr (omega (arith, p))

  abbrev counted : SubjectState → SubjectState
  counted s = record s { windows = map count_request s.windows; last_success_at = now }

  record_client_request-known :
      (t : Tracker) (name : String) (s : SubjectState)
      → lookup name t.subjects ≡ some s
      → record_client_request lib (some t) name now
        ≡ some
            (record t { subjects = insert name (counted (subject_rollover lib now s)) t.subjects })
  unfolding record_client_request record_client_usage update_subject
  record_client_request-known t name s found = rw (found, update_subject) refl

  record_client_request-Within :
      (t : Tracker) (name : String) (s : SubjectState)
      → AllWithin t
      → lookup name t.subjects ≡ some s
      → All (Room 1) s.windows
      → AllWithin
          (record t { subjects = insert name (counted (subject_rollover lib now s)) t.subjects })
  record_client_request-Within t name s all found room =
      Every-insert (λ s. All Within s.windows) name (counted (subject_rollover lib now s))
        t.subjects all
        (All-counted (subject_rollover lib now s).windows (subject_rollover-Room lib now 1 s room))
    where
      All-counted :
          (windows : List WindowState)
          → All (Room 1) windows
          → All Within (map count_request windows)
      All-counted [] h = tt
      All-counted (w ∷ windows) h = (count_request-Within w h.0, All-counted windows h.1)

  record_client_request-unknown :
      (t : Tracker) (name : String)
      → lookup name t.subjects ≡ none
      → record_client_request lib (some t) name now ≡ some t
  unfolding record_client_request record_client_usage update_subject
  record_client_request-unknown t name e = rw (e, update_subject) refl

module _ (lib : TimeLib) (asked told : ℕ) where
  -- What the handler does with a request, by the answer.
  admit-answered :
      (t t₁ : Tracker) (name : String) (d : Decision)
      → before_attempt lib false (some t) name asked ≡ some (d, some t₁)
      → admit lib t name asked told
        ≡ some (if d.allowed then record_client_request lib (some t₁) name told else some t₁)
  unfolding admit
  admit-answered t t₁ name d e = rw (e, admit) refl

  before_attempt-unknown :
      (t : Tracker) (name : String)
      → lookup name t.subjects ≡ none
      → before_attempt lib false (some t) name asked ≡ some (allow, some t)
  unfolding before_attempt
  before_attempt-unknown t name e = rw (e, before_attempt) refl

  admit-unknown :
      (t : Tracker) (name : String)
      → lookup name t.subjects ≡ none
      → admit lib t name asked told ≡ some (some t)
  admit-unknown t name e =
      admit-answered t t name allow (before_attempt-unknown t name e)
      ∙ ap some (record_client_request-unknown lib told t name e)

  pub record Admitted (t : Tracker) (name : String) : Type 0 where
    pub tracker : Tracker
    pub result_is : admit lib t name asked told ≡ some (some tracker)
    pub within : AllWithin tracker

  admit-known :
      (t : Tracker) (name : String) (s : SubjectState)
      → AllWithin t
      → lookup name t.subjects ≡ some s
      → Admitted t name
  admit-known t name s all found =
      let a = client_attempt-Answer lib asked t name s found in
      let s₁ = subject_rollover lib asked s in
      let t₁ : Tracker = record t { subjects = insert name s₁ t.subjects } in
      let within₁ : AllWithin t₁ =
        Every-insert (λ s. All Within s.windows) name s₁ t.subjects all
          (subject_rollover-Room lib asked 0 s (all name s found)) in
      let found₁ : lookup name t₁.subjects ≡ some s₁ = lookup-insert_same name s₁ t.subjects in
      let answered = admit-answered t t₁ name a.decision (
        subst (λ x. before_attempt lib false (some t) name asked ≡ some (a.decision, some x))
          a.tracker_is a.result_is) in
      elim (Bool-cases a.decision.allowed) [
        | inl ok ↦ record {
          tracker = record t₁ {
            subjects = insert name (counted lib told (subject_rollover lib told s₁)) t₁.subjects;
          };
          result_is =
              answered ∙ rw ok (ap some (record_client_request-known lib told t₁ name s₁ found₁));
          within =
              record_client_request-Within lib told t₁ name s₁ within₁ found₁
                (All-free s₁.windows (sym a.allowed_is ∙ ok));
        }
        | inr refused ↦ record {
          tracker = t₁;
          result_is = answered ∙ rw refused refl;
          within = within₁;
        }
      ]

  -- Where no window with a limit on requests counts more of them than the limit, admitting a
  -- request of any client, which counts it only where it is allowed, comes to an end without a
  -- panic and leaves no window with more requests than its limit, whatever the clock reads at the
  -- two calls.
  pub admit-Admitted : (t : Tracker) (name : String) → AllWithin t → Admitted t name
  admit-Admitted t name all = elim (Option-cases (lookup name t.subjects)) [
    | inl e ↦ record { tracker = t; result_is = admit-unknown t name e; within = all }
    | inr (s, e) ↦ admit-known t name s all e
  ]
