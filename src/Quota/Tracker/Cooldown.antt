-- ===== src/Quota/Tracker/Cooldown.antt =====
-- The cooldown after a quota error: one probe, and refusals until its outcome is recorded.
use syrogo.Base.{
  ℕ, ◌≤◌, ◌<◌, ◌≡◌, ◌≢◌, refl, sym, ap, ◌∙◌, String, Bool, true, false, not, ◌&&◌, List, [], ◌∷◌,
  ◌++◌, All, map, append-nil, Option, none, some, if◌then◌else◌, ltb, ◌==◌, nat_eq, text_eq, arith,
}
use syrogo.Base.Map.{lookup, insert, lookup-insert_same}
use syrogo.Quota.Schedule.{TimeLib}
use syrogo.Quota.Window.{rollover}
use syrogo.Quota.Tracker.{
  Decision, SubjectState, Tracker, allow_probe, refuse, cooldown, in_cooldown, reset_windows,
  decide, subject_rollover, before_attempt,
}

-- The answers to a sequence of attempts at given times, as far as they come without a panic.
unfoldable pub attempts : TimeLib → Option Tracker → String → List ℕ → List Decision
unfolding before_attempt
attempts lib t name [] = []
attempts lib t name (now ∷ times) = elim (before_attempt lib true t name now) [
  | none ↦ []
  | some (d, t') ↦ d ∷ attempts lib t' name times
]

-- An outbound in a cooldown, with its times and whether a probe is on its way.
pub record Cooling (t : Tracker) (name : String) (until next : ℕ) (probing : Bool) : Type 0 where
  pub subject : SubjectState
  pub found : lookup name t.subjects ≡ some subject
  pub until_is : subject.cooldown_until ≡ until
  pub next_is : subject.next_probe_at ≡ next
  pub probing_is : subject.probe_in_flight ≡ probing

module _ (lib : TimeLib) where
  -- A rollover before the end leaves the cooldown alone.
  subject_rollover-cooling :
      (now : ℕ) (s : SubjectState)
      → now < s.cooldown_until
      → subject_rollover lib now s
        ≡ record s { windows = map (rollover lib now) (reset_windows lib now s) }
  unfolding subject_rollover
  subject_rollover-cooling now s early =
      let go_on : (not (s.cooldown_until == 0) && not (ltb now s.cooldown_until)) ≡ false =
        ground arith in
      rw go_on refl

  abbrev may_probe : ℕ → ℕ → Bool → Bool
  may_probe now next probing = not (next == 0) && not (ltb now next) && not probing

  decide-cooling :
      (now : ℕ) (s : SubjectState)
      → now < s.cooldown_until
      → decide lib now true s ≡ (
          if may_probe now s.next_probe_at s.probe_in_flight
          then some (allow_probe, record s { probe_in_flight = true })
          else some (refuse cooldown s.next_probe_at [], s))
  unfolding decide
  decide-cooling now s early =
      let cooling : in_cooldown s now ≡ true = unfold in_cooldown in ground arith in
      rw (cooling, decide) refl

  -- One attempt during the cooldown: its answer, and the cooldown that goes on.
  record Step (t : Tracker) (name : String) (now until next : ℕ) (d : Decision) (probing : Bool)
      : Type 0 where
    pub tracker : Tracker
    pub result_is : before_attempt lib true (some t) name now ≡ some (d, some tracker)
    pub cooling : Cooling tracker name until next probing

  before_attempt-decided :
      (t : Tracker) (name : String) (now : ℕ) (s s' : SubjectState) (d : Decision)
      → lookup name t.subjects ≡ some s
      → decide lib now true (subject_rollover lib now s) ≡ some (d, s')
      → before_attempt lib true (some t) name now
        ≡ some (d, some (record t { subjects = insert name s' t.subjects }))
  unfolding before_attempt
  before_attempt-decided t name now s s' d found e = rw (found, e, before_attempt) refl

  rolled : ℕ → SubjectState → SubjectState
  rolled now s = record s { windows = map (rollover lib now) (reset_windows lib now s) }

  decide-rolled :
      (now : ℕ) (s : SubjectState)
      → now < s.cooldown_until
      → decide lib now true (subject_rollover lib now s) ≡ (
          if may_probe now s.next_probe_at s.probe_in_flight
          then some (allow_probe, record (rolled now s) { probe_in_flight = true })
          else some (refuse cooldown s.next_probe_at [], rolled now s))
  unfolding rolled
  decide-rolled now s early =
      ap (decide lib now true) (subject_rollover-cooling now s early)
      ∙ decide-cooling now (rolled now s) early

  refused-Step :
      {t : Tracker} {name : String} {until next : ℕ} {probing : Bool} (now : ℕ)
      → Cooling t name until next probing
      → now < until
      → may_probe now next probing ≡ false
      → Step t name now until next (refuse cooldown next []) probing
  unfolding rolled
  refused-Step {t} {name} {until} {next} {probing} now c early no_probe =
      let early' : now < c.subject.cooldown_until = rw c.until_is early in
      record {
        tracker = record t { subjects = insert name (rolled now c.subject) t.subjects };
        result_is =
            before_attempt-decided t name now c.subject (rolled now c.subject)
              (refuse cooldown next []) c.found
              (decide-rolled now c.subject early' ∙ rw (c.next_is, c.probing_is, no_probe) refl);
        cooling = record {
          subject = rolled now c.subject;
          found = lookup-insert_same name (rolled now c.subject) t.subjects;
          until_is = c.until_is;
          next_is = c.next_is;
          probing_is = c.probing_is;
        };
      }

  probe-Step :
      {t : Tracker} {name : String} {until next : ℕ} {probing : Bool} (now : ℕ)
      → Cooling t name until next probing
      → now < until
      → may_probe now next probing ≡ true
      → Step t name now until next allow_probe true
  unfolding rolled
  probe-Step {t} {name} {until} {next} {probing} now c early ok =
      let early' : now < c.subject.cooldown_until = rw c.until_is early in
      let s' : SubjectState = record (rolled now c.subject) { probe_in_flight = true } in
      record {
        tracker = record t { subjects = insert name s' t.subjects };
        result_is =
            before_attempt-decided t name now c.subject s' allow_probe c.found
              (decide-rolled now c.subject early' ∙ rw (c.next_is, c.probing_is, ok) refl);
        cooling = record {
          subject = s';
          found = lookup-insert_same name s' t.subjects;
          until_is = c.until_is;
          next_is = c.next_is;
          probing_is = refl;
        };
      }

  attempts-Step :
      {t : Tracker} {name : String} {now until next : ℕ} {d : Decision} {probing : Bool}
      (times : List ℕ)
      → (step : Step t name now until next d probing)
      → attempts lib (some t) name (now ∷ times) ≡ d ∷ attempts lib (some step.tracker) name times
  unfolding attempts
  attempts-Step {t} {name} {now} times step = rw (step.result_is, attempts) refl

  -- Attempts that no probe is due for are refused, each with the time of the next probe.
  attempts-refused :
      {name : String} {until next : ℕ} {probing : Bool} (times rest : List ℕ) {t : Tracker}
      → Cooling t name until next probing
      → All (λ now. (now < until) × (may_probe now next probing ≡ false)) times
      → (t' : Tracker) × Cooling t' name until next probing
        × (attempts lib (some t) name (times ++ rest)
            ≡ map (λ now. refuse cooldown next []) times ++ attempts lib (some t') name rest)
  attempts-refused [] rest {t} c h = (t, c, refl)
  attempts-refused {next = next} (now ∷ times) rest c h =
      let step = refused-Step now c h.0.0 h.0.1 in
      let (t', c', e) = attempts-refused times rest step.cooling h.1 in
      (t', c', attempts-Step (times ++ rest) step ∙ ap (◌∷◌ (refuse cooldown next [])) e)

  not_due :
      (until next : ℕ) (times : List ℕ)
      → All (λ time. (time < until) × (time < next)) times
      → All (λ now. (now < until) × (may_probe now next false ≡ false)) times
  not_due until next [] h = tt
  not_due until next (now ∷ times) h =
      ((h.0.0, ground (arith, h.0.1)), not_due until next times h.1)

  in_flight :
      (until next : ℕ) (times : List ℕ)
      → All (λ time. time < until) times
      → All (λ now. (now < until) × (may_probe now next true ≡ false)) times
  in_flight until next [] h = tt
  in_flight until next (now ∷ times) h = ((h.0, ground arith), in_flight until next times h.1)

  due_now : (next now : ℕ) → next ≢ 0 → next ≤ now → may_probe now next false ≡ true
  due_now next now set due = ground arith

  -- During a cooldown, before any outcome is recorded: the attempts before the probe is due are
  -- refused, the first one from then on is let through as the probe, and all that follow it
  -- are refused, with the cooldown as the reason and the time of the probe.
  pub attempts-probe :
      (t : Tracker) (name : String) (until next : ℕ) (before : List ℕ) (now : ℕ) (after : List ℕ)
      → Cooling t name until next false
      → next ≢ 0
      → All (λ time. (time < until) × (time < next)) before
      → next ≤ now
      → now < until
      → All (λ time. time < until) after
      → attempts lib (some t) name (before ++ now ∷ after)
        ≡ map (λ time. refuse cooldown next []) before
          ++ allow_probe ∷ map (λ time. refuse cooldown next []) after
  unfolding attempts
  attempts-probe t name until next before now after c set early due in_time late =
      let waiting = attempts-refused before (now ∷ after) c (not_due until next before early) in
      let step = probe-Step now waiting.1 in_time (due_now next now set due) in
      let done = attempts-refused after [] step.cooling (in_flight until next after late) in
      waiting.2
      ∙ ap (map (λ time. refuse cooldown next []) before ++◌) (
          attempts-Step after step
          ∙ ap (◌∷◌ allow_probe) (
              ap (attempts lib (some step.tracker) name) (sym (append-nil after))
              ∙ done.2
              ∙ append-nil (map (λ time. refuse cooldown next []) after)))
