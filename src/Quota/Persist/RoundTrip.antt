-- ===== src/Quota/Persist/RoundTrip.antt =====
-- A tracker comes back from its exported state.
use syrogo.Base.{
  subst, ℕ, ◌≡◌, refl, sym, ap, ◌∙◌, inl, inr, String, Bool, false, ◌||◌, List, [], ◌∷◌, All, map,
  Option, none, some, arith, Bool-cases, if◌then◌else◌, ◌==◌, text_eq, nat_eq, eq_iff, eq_refl, ltb,
}
use syrogo.Base.Map.{Map, lookup, insert, lookup-insert}
use syrogo.Router.Order.{contains}
use syrogo.Router.Order.Distinct.{Distinct}
use syrogo.Quota.Schedule.{TimeLib}
use syrogo.Quota.Tracker.{SubjectState, Tracker, subject_rollover}
use syrogo.Quota.Reconfigure.{schedule_text}
use syrogo.Quota.Reconfigure.Merge.{window_names}
use syrogo.Quota.Persist.{
  PersistedSubject, save_subject, save_windows, roll_subjects, save_subjects, export_state,
  restore_windows, restore_subject, import_subjects, import_state,
}
use syrogo.Quota.Persist.Window.{
  IsFaithful, restored-format_time, blank_window, IsOrdered, save_windows-AreSaved,
  restore_windows-saved,
}

-- A subject of the same configuration that has seen nothing.
abbrev pub blank_subject : SubjectState → SubjectState
blank_subject s = record s {
  windows = map blank_window s.windows;
  cooldown_until = 0;
  next_probe_at = 0;
  last_quota_exceeded_at = 0;
  last_success_at = 0;
  probe_in_flight = false;
}

-- What can be saved: no two windows of one name, and usage in the order of its times.
pub record IsStorable (s : SubjectState) : Type 0 where
  pub distinct : Distinct (window_names s.windows)
  pub ordered : All IsOrdered s.windows

module _ (lib : TimeLib) (faithful : IsFaithful lib) where
  restore_subject-saved :
      (client : Bool) (s : SubjectState)
      → IsStorable s
      → restore_subject lib 3 client (save_subject lib s) (blank_subject s)
        ≡ record s { probe_in_flight = false }
  unfolding restore_subject save_subject restore_windows
  restore_subject-saved client s h =
      let saved = save_windows lib s.windows [] in
      let windows : restore_windows lib 3 client
            (ltb 3 2 || schedule_text lib s.reset_all == schedule_text lib s.reset_all) saved
            (map blank_window s.windows)
          ≡ s.windows =
        rw (eq_refl (schedule_text lib s.reset_all), restore_windows)
          (restore_windows-saved lib faithful client saved s.windows h.ordered
            (save_windows-AreSaved lib s.windows [] h.distinct)) in
      let until = restored-format_time lib faithful s.cooldown_until in
      let probe_at = restored-format_time lib faithful s.next_probe_at in
      let exceeded_at = restored-format_time lib faithful s.last_quota_exceeded_at in
      let success_at = restored-format_time lib faithful s.last_success_at in
      λ i. record s {
        windows = windows i;
        cooldown_until = until i;
        next_probe_at = probe_at i;
        last_quota_exceeded_at = exceeded_at i;
        last_success_at = success_at i;
        probe_in_flight = false;
      }

-- A tracker of the same configuration that has seen nothing.
abbrev pub blank_subjects : Map String SubjectState → Map String SubjectState
blank_subjects [] = []
blank_subjects ((name, s) ∷ subjects) = (name, blank_subject s) ∷ blank_subjects subjects

abbrev pub blank_tracker : Tracker → Tracker
blank_tracker t = record t { subjects = blank_subjects t.subjects }

abbrev pub subject_names : Map String SubjectState → List String
subject_names [] = []
subject_names ((name, s) ∷ subjects) = name ∷ subject_names subjects

abbrev pub map_subject : (SubjectState → SubjectState) → Option SubjectState → Option SubjectState
map_subject f none = none
map_subject f (some s) = some (f s)

-- What the key of each entry finds.
abbrev Finds :
    (SubjectState → SubjectState) → Map String SubjectState → Map String SubjectState → Type 0
Finds f m [] = Unit
Finds f m ((name, s) ∷ entries) = (lookup name m ≡ some (f s)) × Finds f m entries

-- A write to a key that no entry has changes nothing for the entries.
Finds-insert :
    (f : SubjectState → SubjectState) (key : String) (v : SubjectState)
    (m entries : Map String SubjectState)
    → contains (subject_names entries) key ≡ false
    → Finds f m entries
    → Finds f (insert key v m) entries
Finds-insert f key v m [] h k = tt
Finds-insert f key v m ((name, s) ∷ entries) h k = (
  ground (arith, h, k.0, lookup-insert key name v m, eq_iff key name, eq_iff name key),
  Finds-insert f key v m entries (ground (arith, h)) k.1,
)

-- Nor does an entry in front of them.
Finds-cons :
    (f : SubjectState → SubjectState) (key : String) (v : SubjectState)
    (m entries : Map String SubjectState)
    → contains (subject_names entries) key ≡ false
    → Finds f m entries
    → Finds f ((key, v) ∷ m) entries
unfolding lookup
Finds-cons f key v m [] h k = tt
Finds-cons f key v m ((name, s) ∷ entries) h k = (
  ground (arith, h, k.0, eq_iff key name, eq_iff name key),
  Finds-cons f key v m entries (ground (arith, h)) k.1,
)

blank-Finds :
    (entries : Map String SubjectState)
    → Distinct (subject_names entries)
    → Finds blank_subject (blank_subjects entries) entries
unfolding lookup
blank-Finds [] h = tt
blank-Finds ((name, s) ∷ entries) h = (
  ground (arith, eq_refl name),
  Finds-cons blank_subject name (blank_subject s) (blank_subjects entries) entries h.0
      (blank-Finds entries h.1),
)

lookup-blank :
    (name : String) (entries : Map String SubjectState)
    → contains (subject_names entries) name ≡ false
    → (lookup name (blank_subjects entries) ≡ none) × (lookup name entries ≡ none)
unfolding lookup
lookup-blank name [] h = (refl, refl)
lookup-blank name ((key, s) ∷ entries) h = ground (arith, h, lookup-blank name entries)

present :
    (name : String) (entries : Map String SubjectState) (f : SubjectState → SubjectState)
    → (if contains (subject_names entries) name
        then map_subject f (lookup name entries)
        else lookup name (blank_subjects entries))
      ≡ map_subject f (lookup name entries)
present name entries f = elim (Bool-cases (contains (subject_names entries) name)) [
  | inl e ↦ rw e refl
  | inr e ↦
      let both = lookup-blank name entries e in rw e (both.0 ∙ sym (ap (map_subject f) both.1))
]

module _ (lib : TimeLib) (faithful : IsFaithful lib) (now : ℕ) (client : Bool) where
  abbrev back : SubjectState → SubjectState
  back s = subject_rollover lib now (record s { probe_in_flight = false })

  import_step :
      (key : String) (s : SubjectState) (rest : Map String PersistedSubject)
      (m : Map String SubjectState)
      → IsStorable s
      → lookup key m ≡ some (blank_subject s)
      → import_subjects lib now 3 client ((key, save_subject lib s) ∷ rest) m
        ≡ import_subjects lib now 3 client rest (insert key (back s) m)
  unfolding import_subjects
  import_step key s rest m h found =
      rw (found, import_subjects)
        (ap
          (λ (x : SubjectState).
            import_subjects lib now 3 client rest (insert key (subject_rollover lib now x) m))
          (restore_subject-saved lib faithful client s h))

  -- An entry in front, for the three results that `name` can have.
  first_entry :
      (key name : String) (s : SubjectState) (entries m : Map String SubjectState)
      → contains (subject_names entries) key ≡ false
      → (if contains (subject_names entries) name
          then map_subject back (lookup name entries)
          else lookup name (insert key (back s) m))
        ≡ (if contains (subject_names ((key, s) ∷ entries)) name
            then map_subject back (lookup name ((key, s) ∷ entries))
            else lookup name m)
  unfolding lookup
  first_entry key name s entries m d = elim (Bool-cases (key == name)) [
    | inl e ↦
        let absent : contains (subject_names entries) name ≡ false =
          subst (λ n. contains (subject_names entries) n ≡ false) ((eq_iff key name).0 e) d in
        rw (absent, e) (lookup-insert key name (back s) m ∙ rw e refl)
    | inr e ↦
        let same : lookup name (insert key (back s) m) ≡ lookup name m =
          lookup-insert key name (back s) m ∙ rw e refl in
        rw e (
          ap
            (λ o.
              if contains (subject_names entries) name
              then map_subject back (lookup name entries)
              else o)
            same)
  ]

  import_subjects-saved :
      (entries m : Map String SubjectState) (name : String)
      → All (λ (e : String × SubjectState). IsStorable e.1) entries
      → Distinct (subject_names entries)
      → Finds blank_subject m entries
      → lookup name (import_subjects lib now 3 client (save_subjects lib entries) m) ≡ (
          if contains (subject_names entries) name
          then map_subject back (lookup name entries)
          else lookup name m)
  unfolding save_subjects
  import_subjects-saved [] m name h d k = unfold import_subjects in refl
  import_subjects-saved ((key, s) ∷ entries) m name h d k =
      ap (lookup name) (import_step key s (save_subjects lib entries) m h.0 k.0)
      ∙ import_subjects-saved entries (insert key (back s) m) name h.1 d.1
          (Finds-insert blank_subject key (back s) m entries d.0 k.1)
      ∙ first_entry key name s entries m d.0

-- The state that a tracker exports, imported at a later reading of the clock into a tracker of the
-- same configuration that has seen nothing, brings every subject back as the export left it, rolled
-- over at that reading and with no probe under way, where Go's time format is faithful, no two
-- subjects have one name, and in each subject no two windows have one name and the usage that is
-- left has times in their order.
pub import-export :
    (lib : TimeLib) (faithful : IsFaithful lib) (t : Tracker) (saved_at now : ℕ) (name : String)
    → All (λ (e : String × SubjectState). IsStorable e.1) (export_state lib saved_at t).1.subjects
    → Distinct (subject_names (export_state lib saved_at t).1.subjects)
    → lookup name
        (import_state lib now
          (export_state lib saved_at t).0
          (blank_tracker (export_state lib saved_at t).1)).subjects
      ≡ map_subject
          (λ s. subject_rollover lib now (record s { probe_in_flight = false }))
          (lookup name (export_state lib saved_at t).1.subjects)
unfolding export_state import_state
import-export lib faithful t saved_at now name h d =
    let subjects = roll_subjects lib saved_at t.subjects in
    import_subjects-saved lib faithful now t.client subjects (blank_subjects subjects) name h d
      (blank-Finds subjects d)
    ∙ present name subjects (back lib faithful now t.client)
