-- ===== src/Quota/Snapshot/Decided.antt =====
-- The state that is shown is the one that the next attempt meets.
use syrogo.Base.{
  ℕ, ◌≡◌, refl, inl, inr, String, true, false, not, ◌&&◌, List, [], ◌∷◌, Option, none, some,
  Bool-cases, if◌then◌else◌, ◌==◌, nat_eq, ltb,
}
use syrogo.Quota.Schedule.{TimeLib}
use syrogo.Quota.Tracker.{
  Decision, QuotaReason, BlockingWindow, SubjectState, in_cooldown, blocking_from, decide,
}
use syrogo.Quota.Snapshot.{snapshot_state}

abbrev pub shown_state : Option (String × ℕ) → Option String
shown_state none = none
shown_state (some (state, retry)) = some state

-- The state that an answer to an attempt stands for.
abbrev pub state_of : Decision → String
state_of d = elim d.reason [
  | QuotaReason.no_reason ↦ if d.probe then "cooldown" else "available"
  | QuotaReason.limited ↦ "limited"
  | QuotaReason.cooldown ↦ "cooldown"
]

abbrev pub decided_state : Option (Decision × SubjectState) → Option String
decided_state none = none
decided_state (some (d, s)) = some (state_of d)

module _ (lib : TimeLib) (now : ℕ) (s : SubjectState) where
  abbrev Agrees : Type 0
  Agrees = shown_state (snapshot_state lib now s) ≡ decided_state (decide lib now true s)

  agrees-cooling : in_cooldown s now ≡ true → Agrees
  unfolding snapshot_state decide
  agrees-cooling h =
      elim (Bool-cases
        (not (s.next_probe_at == 0) && not (ltb now s.next_probe_at) && not s.probe_in_flight)) [
          | inl m ↦ rw (h, m) refl
          | inr m ↦ rw (h, m) refl
        ]

  agrees-open :
      (reached : Option (ℕ × List BlockingWindow))
      → blocking_from lib now 0 s.windows ≡ reached
      → in_cooldown s now ≡ false
      → Agrees
  unfolding snapshot_state decide
  agrees-open none e h = rw (h, e, snapshot_state, decide) refl
  agrees-open (some (latest, [])) e h = rw (h, e, snapshot_state, decide) refl
  agrees-open (some (latest, b ∷ blocking)) e h = rw (h, e, snapshot_state, decide) refl

-- The state that the snapshot shows of an outbound, whose usage is rolled over, is the one that an
-- attempt at that moment meets: available where the attempt is let through, limited where a window
-- refuses it, and cooldown where the cooldown refuses it or a probe is let through.
pub snapshot_state-decide :
    (lib : TimeLib) (now : ℕ) (s : SubjectState)
    → shown_state (snapshot_state lib now s) ≡ decided_state (decide lib now true s)
snapshot_state-decide lib now s = elim (Bool-cases (in_cooldown s now)) [
  | inl h ↦ agrees-cooling lib now s h
  | inr h ↦ agrees-open lib now s (blocking_from lib now 0 s.windows) refl h
]
