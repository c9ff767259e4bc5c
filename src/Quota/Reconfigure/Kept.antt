-- ===== src/Quota/Reconfigure/Kept.antt =====
-- A change of the configuration that reports no change of usage keeps all usage.
use syrogo.Base.{
  subst, ◌≡◌, refl, sym, ap, ◌∙◌, inl, inr, String, Bool, true, false, ◌||◌, List, [], ◌∷◌, All,
  map, Option, none, some, arith, Bool-cases, Option-cases, ◌==◌, text_eq, eq_iff,
}
use syrogo.Base.Map.{Map, lookup, insert, lookup-insert, some_inj}
use syrogo.Router.Order.Distinct.{Distinct}
use syrogo.Quota.Schedule.{TimeLib}
use syrogo.Quota.Window.{UsageEvent, WindowState}
use syrogo.Quota.Tracker.{SubjectState, Tracker}
use syrogo.Quota.Configure.{
  SubjectConfig, WindowConfig, new_window_state, new_subject_state, new_client_state,
  normalize_client_windows,
}
use syrogo.Quota.Reconfigure.{
  has_usage, schedule_text, merge_windows, carry_client, carry_outbound, with_state, usage_removed,
  next_subjects, reconfigure_with, reconfigure_clients, reconfigure,
}
use syrogo.Quota.Reconfigure.Merge.{
  events_at, IsUnused, window_names, any_usage-events, merge_windows-events,
}

-- The usage of a window of a subject, none where the tracker has no such window.
abbrev pub usage_in : String → Option SubjectState → List UsageEvent
usage_in window none = []
usage_in window (some s) = events_at window s.windows

abbrev pub usage_of : String → String → Tracker → List UsageEvent
usage_of subject window t = usage_in window (lookup subject t.subjects)

-- No subject has two windows of one name.
abbrev pub HasDistinctWindows : Map String SubjectState → Type 0
HasDistinctWindows subjects =
    (name : String) (s : SubjectState)
    → lookup name subjects ≡ some s
    → Distinct (window_names s.windows)

events_at-unused :
    (name : String) (windows : List WindowState)
    → All IsUnused windows
    → events_at name windows ≡ []
events_at-unused name [] u = refl
events_at-unused name (w ∷ windows) u = elim (Bool-cases (w.name == name)) [
  | inl e ↦ rw e u.0
  | inr e ↦ rw e (events_at-unused name windows u.1)
]

next_subjects-flag :
    (make : SubjectConfig → SubjectState)
    (carry : SubjectState → SubjectState → SubjectState × Bool) (old : Map String SubjectState)
    (configs : List SubjectConfig) (changed : Bool) (next : Map String SubjectState)
    → (next_subjects make carry old configs changed next).1 ≡ false
    → changed ≡ false
unfolding next_subjects
next_subjects-flag make carry old [] changed next h = h
next_subjects-flag make carry old (c ∷ configs) changed next h =
    elim (Option-cases (lookup c.name old)) [
      | inl new ↦ next_subjects-flag make carry old configs changed _ (rw (new, next_subjects) at h)
      | inr (s, found) ↦
          let both : (carry s (make c)).1 || changed ≡ false =
            next_subjects-flag make carry old configs _ _ (rw (found, next_subjects) at h) in
          ground (arith, both)
    ]

nothing : (name : String) (s : SubjectState) → lookup name [] ≡ some s → ⊥
unfolding lookup
nothing name s e = cc (e)

module _ (make : SubjectConfig → SubjectState)
    (carry : SubjectState → SubjectState → SubjectState × Bool) (window : String)
    (unused : (c : SubjectConfig) → All IsUnused (make c).windows)
    (carries : (s : SubjectState) (c : SubjectConfig)
      → Distinct (window_names s.windows)
      → (carry s (make c)).1 ≡ false
      → events_at window (carry s (make c)).0.windows ≡ events_at window s.windows)
    (old : Map String SubjectState) (distinct : HasDistinctWindows old) where
  -- Each subject that the map has shows the usage that it had.
  abbrev Shows : Map String SubjectState → Type 0
  Shows next =
      (name : String) (s : SubjectState)
      → lookup name next ≡ some s
      → events_at window s.windows ≡ usage_in window (lookup name old)

  Shows-insert :
      (key : String) (v : SubjectState) (next : Map String SubjectState)
      → Shows next
      → events_at window v.windows ≡ usage_in window (lookup key old)
      → Shows (insert key v next)
  Shows-insert key v next h k name s found = elim (Bool-cases (key == name)) [
    | inl e ↦
        let same : v ≡ s = some_inj (ground (arith, lookup-insert key name v next, found, e)) in
        sym (ap (λ (x : SubjectState). events_at window x.windows) same)
        ∙ k
        ∙ ap (λ n. usage_in window (lookup n old)) ((eq_iff key name).0 e)
    | inr e ↦ h name s (ground (arith, lookup-insert key name v next, found, e))
  ]

  next_subjects-Shows :
      (configs : List SubjectConfig) (changed : Bool) (next : Map String SubjectState)
      → Shows next
      → (next_subjects make carry old configs changed next).1 ≡ false
      → Shows (next_subjects make carry old configs changed next).0
  unfolding next_subjects
  next_subjects-Shows [] changed next h k = h
  next_subjects-Shows (c ∷ configs) changed next h k = elim (Option-cases (lookup c.name old)) [
    | inl new ↦
        rw (new, next_subjects)
          (next_subjects-Shows configs changed (insert c.name (make c) next)
            (Shows-insert c.name (make c) next h
              (events_at-unused window _ (unused c) ∙ sym (ap (usage_in window) new)))
            (rw (new, next_subjects) at k))
    | inr (s, found) ↦
        let flag : (next_subjects make carry old configs ((carry s (make c)).1 || changed)
              (insert c.name (carry s (make c)).0 next)).1
            ≡ false =
          rw (found, next_subjects) at k in
        let kept : (carry s (make c)).1 || changed ≡ false =
          next_subjects-flag make carry old configs ((carry s (make c)).1 || changed) _ flag in
        rw (found, next_subjects)
          (next_subjects-Shows configs _ (insert c.name (carry s (make c)).0 next)
            (Shows-insert c.name (carry s (make c)).0 next h (
              carries s c (distinct c.name s found) (ground (arith, kept))
              ∙ sym (ap (usage_in window) found)))
            flag)
  ]

  missing-unused :
      (subjects next : Map String SubjectState) (name : String) (s : SubjectState)
      → usage_removed subjects next ≡ false
      → lookup name subjects ≡ some s
      → lookup name next ≡ none
      → events_at window s.windows ≡ []
  unfolding usage_removed lookup has_usage
  missing-unused [] next name s h found gone = cc (found)
  missing-unused ((key, v) ∷ subjects) next name s h found gone = elim (Bool-cases (key == name)) [
    | inl e ↦
        let same : v ≡ s = some_inj (rw (e, lookup) at found) in
        let absent : lookup key next ≡ none =
          subst (λ n. lookup n next ≡ none) (sym ((eq_iff key name).0 e)) gone in
        ap (λ (x : SubjectState). events_at window x.windows) (sym same)
        ∙ any_usage-events window v.windows (ground (arith, h, absent))
    | inr e ↦ missing-unused subjects next name s (ground (arith, h)) (rw (e, lookup) at found) gone
  ]

  lost :
      (next : Map String SubjectState) (name : String)
      → usage_removed old next ≡ false
      → lookup name next ≡ none
      → usage_in window (lookup name old) ≡ []
  lost next name h gone = elim (Option-cases (lookup name old)) [
    | inl none_old ↦ ap (usage_in window) none_old
    | inr (s, found) ↦ ap (usage_in window) found ∙ missing-unused old next name s h found gone
  ]

  reconfigured :
      (client : Bool) (configs : List SubjectConfig) (subject : String)
      → (reconfigure_with make carry (record { client = client; subjects = old }) configs).1 ≡ false
      → (usage_of subject window
            (reconfigure_with make carry (record { client = client; subjects = old }) configs).0
          ≡ usage_in window (lookup subject old))
  unfolding reconfigure_with
  reconfigured client configs subject h =
      let result : Map String SubjectState × Bool = next_subjects make carry old configs false [] in
      let shows : Shows result.0 =
        next_subjects-Shows configs false [] (λ name s found. absurd (nothing name s found))
          (ground (arith, h)) in
      let removed : usage_removed old result.0 ≡ false = ground (arith, h) in
      elim (Option-cases (lookup subject result.0)) [
        | inr (s, found) ↦ ap (usage_in window) found ∙ shows subject s found
        | inl gone ↦ ap (usage_in window) gone ∙ sym (lost result.0 subject removed gone)
      ]

module _ (lib : TimeLib) where
  new_windows-IsUnused :
      (windows : List WindowConfig) → All IsUnused (map (new_window_state lib) windows)
  unfolding new_window_state
  new_windows-IsUnused [] = tt
  new_windows-IsUnused (w ∷ windows) = (refl, new_windows-IsUnused windows)

  carry_outbound-same :
      (s f : SubjectState)
      → (schedule_text lib s.reset_all == schedule_text lib f.reset_all) ≡ true
      → carry_outbound lib s f ≡ merge_windows lib s (with_state s f)
  unfolding carry_outbound
  carry_outbound-same s f k = rw (k, carry_outbound) refl

  carry_outbound-other :
      (s f : SubjectState)
      → (schedule_text lib s.reset_all == schedule_text lib f.reset_all) ≡ false
      → carry_outbound lib s f ≡ (with_state s f, has_usage s)
  unfolding carry_outbound
  carry_outbound-other s f k = rw (k, carry_outbound) refl

  -- What carries nothing over that has been used.
  abbrev Carried : String → SubjectState → SubjectState × Bool → Type 0
  Carried window s r = r.1 ≡ false → events_at window r.0.windows ≡ events_at window s.windows

  carry_outbound-Carried :
      (window : String) (s f : SubjectState)
      → Distinct (window_names s.windows)
      → All IsUnused f.windows
      → Carried window s (carry_outbound lib s f)
  carry_outbound-Carried window s f d u =
      elim (Bool-cases (schedule_text lib s.reset_all == schedule_text lib f.reset_all)) [
        | inl k ↦
            subst (Carried window s) (sym (carry_outbound-same s f k))
              (merge_windows-events lib s (with_state s f) window d u)
        | inr k ↦ subst (Carried window s) (sym (carry_outbound-other s f k)) (λ h.
            events_at-unused window f.windows u
            ∙ sym (any_usage-events window s.windows (unfold has_usage in h)))
      ]

  carry_outbound-events :
      (window : String) (s : SubjectState) (c : SubjectConfig)
      → Distinct (window_names s.windows)
      → (carry_outbound lib s (new_subject_state lib c)).1 ≡ false
      → events_at window (carry_outbound lib s (new_subject_state lib c)).0.windows
        ≡ events_at window s.windows
  unfolding new_subject_state
  carry_outbound-events window s c d h =
      carry_outbound-Carried window s (new_subject_state lib c) d (new_windows-IsUnused c.windows) h

  carry_client-events :
      (window : String) (s : SubjectState) (c : SubjectConfig)
      → Distinct (window_names s.windows)
      → (carry_client lib s (new_client_state lib c)).1 ≡ false
      → events_at window (carry_client lib s (new_client_state lib c)).0.windows
        ≡ events_at window s.windows
  unfolding carry_client new_client_state
  carry_client-events window s c d h =
      merge_windows-events lib s (new_client_state lib c) window d
        (new_windows-IsUnused (normalize_client_windows c.windows)) h

-- Where a tracker has no two windows of one name for one subject, and the change to another
-- configuration of outbounds reports that it clears no usage, every window of every outbound has
-- the usage that it had: what has any is still configured, and what is new has none.
pub reconfigure-usage_of :
    (lib : TimeLib) (t : Tracker) (configs : List SubjectConfig) (subject window : String)
    → HasDistinctWindows t.subjects
    → (reconfigure lib t configs).1 ≡ false
    → usage_of subject window (reconfigure lib t configs).0 ≡ usage_of subject window t
unfolding reconfigure new_subject_state
reconfigure-usage_of lib t configs subject window distinct h =
    reconfigured (new_subject_state lib) (carry_outbound lib) window
      (λ c. new_windows-IsUnused lib c.windows) (carry_outbound-events lib window) t.subjects
      distinct t.client configs subject h

-- The same where the configuration of the clients changes.
pub reconfigure_clients-usage_of :
    (lib : TimeLib) (t : Tracker) (configs : List SubjectConfig) (subject window : String)
    → HasDistinctWindows t.subjects
    → (reconfigure_clients lib t configs).1 ≡ false
    → usage_of subject window (reconfigure_clients lib t configs).0 ≡ usage_of subject window t
unfolding reconfigure_clients new_client_state
reconfigure_clients-usage_of lib t configs subject window distinct h =
    reconfigured (new_client_state lib) (carry_client lib) window
      (λ c. new_windows-IsUnused lib (normalize_client_windows c.windows))
      (carry_client-events lib window) t.subjects distinct t.client configs subject h
