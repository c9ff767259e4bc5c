-- ===== src/Quota/Reconfigure/Merge.antt =====
-- What the windows of a subject keep when they are merged into new ones.
use syrogo.Base.{
  subst, ◌≡◌, refl, sym, ap, ◌∙◌, ◌⊎◌, inl, inr, String, Bool, true, false, ◌||◌, List, [], ◌∷◌,
  All, Option, none, some, arith, Bool-cases, Option-cases, if◌then◌else◌, ◌==◌, text_eq, eq_iff,
}
use syrogo.Base.Map.{Map, lookup, insert, erase, lookup-insert, lookup-erase}
use syrogo.Router.Order.{contains}
use syrogo.Router.Order.Distinct.{Distinct}
use syrogo.Quota.Schedule.{TimeLib}
use syrogo.Quota.Window.{UsageEvent, WindowState}
use syrogo.Quota.Tracker.{SubjectState}
use syrogo.Quota.Reconfigure.{
  has_events, any_usage, by_name, any_left, compatible, merge_scan, merge_windows,
}

-- The usage of the first window of a name, none where there is no such window.
abbrev pub events_at : String → List WindowState → List UsageEvent
events_at name [] = []
events_at name (w ∷ windows) = if w.name == name then w.events else events_at name windows

abbrev events_of : Option WindowState → List UsageEvent
events_of none = []
events_of (some w) = w.events

abbrev events_in : String → Map String WindowState → List UsageEvent
events_in name m = events_of (lookup name m)

abbrev pub IsUnused : WindowState → Type 0
IsUnused w = w.events ≡ []

has_events-cases : (w : WindowState) → (w.events ≡ []) ⊎ (has_events w ≡ true)
has_events-cases w = list_cases w.events refl
  where
    list_cases :
        (events : List UsageEvent) → w.events ≡ events → (w.events ≡ []) ⊎ (has_events w ≡ true)
    list_cases [] e = inl e
    list_cases (x ∷ xs) e = inr (rw e refl)

pub has_events-false : (w : WindowState) → has_events w ≡ false → w.events ≡ []
has_events-false w h = elim (has_events-cases w) [ inl e ↦ e | inr e ↦ cc (e, h) ]

any_left-events :
    (name : String) (m : Map String WindowState) → any_left m ≡ false → events_in name m ≡ []
unfolding any_left lookup
any_left-events name [] h = refl
any_left-events name ((key, w) ∷ m) h = elim (Bool-cases (key == name)) [
  | inl e ↦ rw (e, lookup) (has_events-false w (ground (arith, h)))
  | inr e ↦ rw (e, lookup) (any_left-events name m (ground (arith, h)))
]

pub any_usage-events :
    (name : String) (windows : List WindowState)
    → any_usage windows ≡ false
    → events_at name windows ≡ []
unfolding any_usage
any_usage-events name [] h = refl
any_usage-events name (w ∷ windows) h = elim (Bool-cases (w.name == name)) [
  | inl e ↦ rw e (has_events-false w (ground (arith, h)))
  | inr e ↦ rw e (any_usage-events name windows (ground (arith, h)))
]

events_in-erase :
    (gone name : String) (m : Map String WindowState)
    → (gone == name) ≡ false
    → events_in name (erase gone m) ≡ events_in name m
events_in-erase gone name m h =
    let e : lookup name (erase gone m) ≡ lookup name m =
      ground (arith, lookup-erase gone name m, h) in
    ap events_of e

events_in-found :
    (name : String) (m : Map String WindowState) (w : WindowState)
    → lookup name m ≡ some w
    → events_in name m ≡ w.events
events_in-found name m w h = ap events_of h

events_in-missing :
    (name : String) (m : Map String WindowState) → lookup name m ≡ none → events_in name m ≡ []
events_in-missing name m h = ap events_of h

abbrev Merged : Type 0
Merged = List WindowState × Bool × Map String WindowState

-- Nothing is cleared and nothing is left: the name has the usage that it had.
abbrev Keeps : String → Map String WindowState → Merged → Type 0
Keeps name old r = r.1 ≡ false → any_left r.2 ≡ false → events_at name r.0 ≡ events_in name old

module _ (name : String) (old : Map String WindowState) (w : WindowState) (rest : Merged) where
  at_name :
      (w.name == name) ≡ true
      → (o : Option WindowState) → lookup w.name old ≡ o
      → lookup name old ≡ o
  at_name e o h = subst (λ n. lookup n old ≡ o) ((eq_iff w.name name).0 e) h

  Keeps-new :
      w.events ≡ []
      → lookup w.name old ≡ none
      → Keeps name old rest
      → Keeps name old (w ∷ rest.0, rest.1, rest.2)
  Keeps-new u new ih k l = elim (Bool-cases (w.name == name)) [
    | inl e ↦ rw e (u ∙ sym (events_in-missing name old (at_name e none new)))
    | inr e ↦ rw e (ih k l)
  ]

  Keeps-kept :
      (previous : WindowState)
      → lookup w.name old ≡ some previous
      → Keeps name (erase w.name old) rest
      → Keeps name old (record w { events = previous.events } ∷ rest.0, rest.1, rest.2)
  Keeps-kept previous found ih k l = elim (Bool-cases (w.name == name)) [
    | inl e ↦ rw e (sym (events_in-found name old previous (at_name e (some previous) found)))
    | inr e ↦ rw e (ih k l ∙ events_in-erase w.name name old e)
  ]

  Keeps-cleared :
      (previous : WindowState)
      → w.events ≡ []
      → lookup w.name old ≡ some previous
      → Keeps name (erase w.name old) rest
      → Keeps name old (w ∷ rest.0, has_events previous || rest.1, rest.2)
  Keeps-cleared previous u found ih k l = elim (Bool-cases (w.name == name)) [
    | inl e ↦ rw e (
        u
        ∙ sym (
            events_in-found name old previous (at_name e (some previous) found)
            ∙ has_events-false previous (ground (arith, k))))
    | inr e ↦ rw e (ih (ground (arith, k)) l ∙ events_in-erase w.name name old e)
  ]

module _ (lib : TimeLib) where
  scan_new :
      (old : Map String WindowState) (w : WindowState) (windows : List WindowState)
      → lookup w.name old ≡ none
      → (let rest = merge_scan lib old windows in
          merge_scan lib old (w ∷ windows) ≡ (w ∷ rest.0, rest.1, rest.2))
  unfolding merge_scan
  scan_new old w windows h = rw (h, merge_scan) refl

  scan_kept :
      (old : Map String WindowState) (w previous : WindowState) (windows : List WindowState)
      → lookup w.name old ≡ some previous
      → compatible lib w previous ≡ true
      → (let rest = merge_scan lib (erase w.name old) windows in
          merge_scan lib old (w ∷ windows)
          ≡ (record w { events = previous.events } ∷ rest.0, rest.1, rest.2))
  unfolding merge_scan
  scan_kept old w previous windows h c = rw (h, c, merge_scan) refl

  scan_cleared :
      (old : Map String WindowState) (w previous : WindowState) (windows : List WindowState)
      → lookup w.name old ≡ some previous
      → compatible lib w previous ≡ false
      → (let rest = merge_scan lib (erase w.name old) windows in
          merge_scan lib old (w ∷ windows) ≡ (w ∷ rest.0, has_events previous || rest.1, rest.2))
  unfolding merge_scan
  scan_cleared old w previous windows h c = rw (h, c, merge_scan) refl

  merge_scan-Keeps :
      (name : String) (old : Map String WindowState) (windows : List WindowState)
      → All IsUnused windows
      → Keeps name old (merge_scan lib old windows)
  merge_scan-Keeps name old [] u = unfold merge_scan in λ k l. sym (any_left-events name old l)
  merge_scan-Keeps name old (w ∷ windows) u = elim (Option-cases (lookup w.name old)) [
    | inl new ↦
        subst (Keeps name old) (sym (scan_new old w windows new))
          (Keeps-new name old w _ u.0 new (merge_scan-Keeps name old windows u.1))
    | inr (previous, found) ↦
        let ih = merge_scan-Keeps name (erase w.name old) windows u.1 in
        elim (Bool-cases (compatible lib w previous)) [
          | inl same ↦
              subst (Keeps name old) (sym (scan_kept old w previous windows found same))
                (Keeps-kept name old w _ previous found ih)
          | inr other ↦
              subst (Keeps name old) (sym (scan_cleared old w previous windows found other))
                (Keeps-cleared name old w _ previous u.0 found ih)
        ]
  ]

abbrev pub window_names : List WindowState → List String
window_names [] = []
window_names (w ∷ windows) = w.name ∷ window_names windows

-- The map of the old windows has the usage of each, since no two have the same name.
by_name-events :
    (name : String) (windows : List WindowState) (m : Map String WindowState)
    → Distinct (window_names windows)
    → events_in name (by_name windows m)
      ≡ (if contains (window_names windows) name then events_at name windows else events_in name m)
unfolding by_name
by_name-events name [] m h = refl
by_name-events name (w ∷ windows) m h = elim (Bool-cases (w.name == name)) [
  | inl e ↦
      let absent : contains (window_names windows) name ≡ false =
        subst (λ n. contains (window_names windows) n ≡ false) ((eq_iff w.name name).0 e) h.0 in
      let found : lookup name (insert w.name w m) ≡ some w =
        ground (arith, lookup-insert w.name name w m, e) in
      by_name-events name windows (insert w.name w m) h.1
      ∙ rw (absent, e) (events_in-found name (insert w.name w m) w found)
  | inr e ↦
      let same : lookup name (insert w.name w m) ≡ lookup name m =
        ground (arith, lookup-insert w.name name w m, e) in
      by_name-events name windows (insert w.name w m) h.1
      ∙ ap
          (λ o.
            if contains (window_names windows) name then events_at name windows else events_of o)
          same
      ∙ rw e refl
]

events_at-absent :
    (name : String) (windows : List WindowState)
    → contains (window_names windows) name ≡ false
    → events_at name windows ≡ []
events_at-absent name [] h = refl
events_at-absent name (w ∷ windows) h = ground (arith, h, events_at-absent name windows)

by_name-events_at :
    (name : String) (windows : List WindowState)
    → Distinct (window_names windows)
    → events_in name (by_name windows []) ≡ events_at name windows
by_name-events_at name windows h = elim (Bool-cases (contains (window_names windows) name)) [
  | inl e ↦ by_name-events name windows [] h ∙ rw e refl
  | inr e ↦
      by_name-events name windows [] h
      ∙ rw e (unfold lookup in sym (events_at-absent name windows e))
]

-- Where the merge of new windows without usage clears nothing, each name has the usage that it had.
pub merge_windows-events :
    (lib : TimeLib) (old fresh : SubjectState) (name : String)
    → Distinct (window_names old.windows)
    → All IsUnused fresh.windows
    → (merge_windows lib old fresh).1 ≡ false
    → events_at name (merge_windows lib old fresh).0.windows ≡ events_at name old.windows
unfolding merge_windows
merge_windows-events lib old fresh name h u k =
    merge_scan-Keeps lib name (by_name old.windows []) fresh.windows u (ground (arith, k))
      (ground (arith, k))
    ∙ by_name-events_at name old.windows h
