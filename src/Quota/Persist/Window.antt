-- ===== src/Quota/Persist/Window.antt =====
-- A window comes back from its saved form.
use syrogo.Base.{
  subst, ℕ, ◌<◌, ◌≤◌, ◌≡◌, ◌≢◌, refl, sym, ap, ◌∙◌, inl, inr, String, Bool, true, false, List, [],
  ◌∷◌, ◌++◌, append_assoc, append-nil, All, All-append, map, some, arith, Bool-cases, ◌==◌, text_eq,
  nat_eq, eq_refl, is_empty,
}
use syrogo.Base.Map.{Map, lookup, insert, lookup-insert}
use syrogo.Base.Sort.{insert_by, sort_onto, sort_by}
use syrogo.Router.Order.{contains}
use syrogo.Router.Order.Distinct.{Distinct}
use syrogo.Quota.Schedule.{TimeLib}
use syrogo.Quota.Window.{UsageEvent, WindowState}
use syrogo.Quota.Tracker.{format_time}
use syrogo.Quota.Reconfigure.{schedule_key}
use syrogo.Quota.Reconfigure.Merge.{window_names}
use syrogo.Quota.Persist.{
  PersistedWindowState, earlier, save_event, save_window, save_windows, parse_persisted_time,
  restored_time, restore_events, persisted_compatible, restore_window,
}

-- `time.Time.Format` and `time.Parse` with RFC3339Nano: a time comes back, and its text is not empty.
pub record IsFaithful (lib : TimeLib) : Type 0 where
  pub parse-format : (t : ℕ) → lib.parse (lib.format t) ≡ some t
  pub format_text : (t : ℕ) → is_empty (lib.format t) ≡ false

-- Each event has a time, and none is before the one in front of it.
abbrev pub InOrder : ℕ → List UsageEvent → Type 0
InOrder t [] = Unit
InOrder t (e ∷ events) = (t ≤ e.at) × InOrder e.at events

insert_by-last :
    (e : UsageEvent) (events : List UsageEvent)
    → All (λ (x : UsageEvent). x.at ≤ e.at) events
    → insert_by earlier e events ≡ events ++ e ∷ []
unfolding insert_by
insert_by-last e [] h = refl
insert_by-last e (x ∷ events) h = ground (arith, h.0, insert_by-last e events h.1)

All-le :
    (a b : ℕ) (events : List UsageEvent)
    → a ≤ b
    → All (λ (x : UsageEvent). x.at ≤ a) events
    → All (λ (x : UsageEvent). x.at ≤ b) events
All-le a b [] le h = tt
All-le a b (x ∷ events) le h = (omega (arith, h.0, le), All-le a b events le h.1)

sort_onto-InOrder :
    (t : ℕ) (sorted events : List UsageEvent)
    → All (λ (x : UsageEvent). x.at ≤ t) sorted
    → InOrder t events
    → sort_onto earlier sorted events ≡ sorted ++ events
unfolding sort_onto
sort_onto-InOrder t sorted [] h k = sym (append-nil sorted)
sort_onto-InOrder t sorted (e ∷ events) h k =
    let before = All-le t e.at sorted k.0 h in
    ap (λ s. sort_onto earlier s events) (insert_by-last e sorted before)
    ∙ sort_onto-InOrder e.at (sorted ++ e ∷ []) events
        (All-append _ sorted (e ∷ []) before (omega arith, tt)) k.1
    ∙ append_assoc sorted (e ∷ []) events

-- A list in order is sorted already.
pub sort_by-InOrder :
    (t : ℕ) (events : List UsageEvent) → InOrder t events → sort_by earlier events ≡ events
unfolding sort_by
sort_by-InOrder t events h = sort_onto-InOrder t [] events tt h

module _ (lib : TimeLib) (faithful : IsFaithful lib) where
  parse-format_time : (t : ℕ) → t ≢ 0 → parse_persisted_time lib (format_time lib t) ≡ some t
  unfolding parse_persisted_time
  parse-format_time t h = ground (arith, h, faithful.parse-format t, faithful.format_text t)

  -- A time of zero has no text and leaves what is there.
  pub restored-format_time : (t : ℕ) → restored_time lib (format_time lib t) 0 ≡ t
  unfolding restored_time
  restored-format_time t = elim (Bool-cases (t == 0)) [
    | inl e ↦
        let zero_time : t ≡ 0 = ground (arith, e) in
        subst (λ (n : ℕ). restored_time lib (format_time lib n) 0 ≡ n) (sym zero_time) refl
    | inr e ↦ rw (parse-format_time t (ground (arith, e)), restored_time) refl
  ]

  restore-save_events :
      (t : ℕ) (events : List UsageEvent)
      → 0 < t
      → InOrder t events
      → restore_events lib (map (save_event lib) events) ≡ events
  unfolding restore_events save_event
  restore-save_events t [] p h = refl
  restore-save_events t (e ∷ events) p h =
      rw (parse-format_time e.at (omega (arith, p, h.0)), restore_events)
        (ap (◌∷◌ e) (restore-save_events e.at events (omega (arith, p, h.0)) h.1))

module _ (lib : TimeLib) where
  save_windows-other :
      (name : String) (windows : List WindowState) (m : Map String PersistedWindowState)
      → contains (window_names windows) name ≡ false
      → lookup name (save_windows lib windows m) ≡ lookup name m
  unfolding save_windows
  save_windows-other name [] m h = refl
  save_windows-other name (w ∷ windows) m h =
      save_windows-other name windows (insert w.name (save_window lib w) m) (ground (arith, h))
      ∙ ground (arith, h, lookup-insert w.name name (save_window lib w) m)

  abbrev pub AreSaved : Map String PersistedWindowState → List WindowState → Type 0
  AreSaved saved windows =
      All (λ (w : WindowState). lookup w.name saved ≡ some (save_window lib w)) windows

  pub save_windows-AreSaved :
      (windows : List WindowState) (m : Map String PersistedWindowState)
      → Distinct (window_names windows)
      → AreSaved (save_windows lib windows m) windows
  unfolding save_windows
  save_windows-AreSaved [] m h = tt
  save_windows-AreSaved (w ∷ windows) m h = (
    save_windows-other w.name windows (insert w.name (save_window lib w) m) h.0
        ∙ ground (arith, lookup-insert w.name w.name (save_window lib w) m, eq_refl w.name),
    save_windows-AreSaved windows (insert w.name (save_window lib w) m) h.1,
  )

-- A window without its usage.
abbrev pub blank_window : WindowState → WindowState
blank_window w = record w { events = [] }

-- The usage of the window has times and is in their order.
abbrev pub IsOrdered : WindowState → Type 0
IsOrdered w = InOrder 1 w.events

module _ (lib : TimeLib) (faithful : IsFaithful lib) where
  self_compatible :
      (w : WindowState) (client : Bool)
      → persisted_compatible lib (blank_window w) (save_window lib w) 3 client ≡ true
  unfolding persisted_compatible save_window schedule_key
  self_compatible w client =
      rw (eq_refl w.type_name, eq_refl w.reset, eq_refl (schedule_key lib w)) refl

  restore_window-saved :
      (client : Bool) (saved : Map String PersistedWindowState) (w : WindowState)
      → IsOrdered w
      → lookup w.name saved ≡ some (save_window lib w)
      → restore_window lib 3 client saved (blank_window w) ≡ w
  unfolding restore_window
  restore_window-saved client saved w h found =
      let compatible = self_compatible w client in
      let events : sort_by earlier (restore_events lib (save_window lib w).events) ≡ w.events =
        unfold save_window in
        ap (sort_by earlier) (restore-save_events lib faithful 1 w.events (omega arith) h)
        ∙ sort_by-InOrder 1 w.events h in
      rw (found, compatible, restore_window) (ap (λ events. record w { events = events }) events)

  pub restore_windows-saved :
      (client : Bool) (saved : Map String PersistedWindowState) (windows : List WindowState)
      → All IsOrdered windows
      → AreSaved lib saved windows
      → map (restore_window lib 3 client saved) (map blank_window windows) ≡ windows
  restore_windows-saved client saved [] h k = refl
  restore_windows-saved client saved (w ∷ windows) h k = cc (
    restore_window-saved client saved w h.0 k.0,
    restore_windows-saved client saved windows h.1 k.1,
  )
