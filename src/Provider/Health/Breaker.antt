-- ===== src/Provider/Health/Breaker.antt =====
-- What the tracker promises, as a circuit breaker for each outbound.
use mathlib.Core.Option
use syrogo.Base.{
  ℕ, suc, ◌+◌, ◌≡◌, refl, ap, String, Option, none, some, List, [], ◌∷◌, ◌++◌, if◌then◌else◌, ltb,
  leb, ◌==◌, text_eq, eq_iff, arith, Option-cases, Bool-cases, inl, inr,
}
use syrogo.Base.Map.{Map, lookup, lookup-insert}
use syrogo.Provider.Error.{ErrorKind, is_recoverable}
use syrogo.Provider.Health.{
  HealthDecision, HealthState, HealthTracker, failure_threshold, attempt_state, success_state,
  failure_state, put_state, before_attempt, record_success, record_failure,
}

-- Closed after so many failures, open up to a time, or with its one probe out.
pub data Breaker : Type 0 where
  closed : ℕ → Breaker
  open_until : ℕ → Breaker
  half_open : Breaker

pub data Verdict : Type 0 where
  pass probe refuse : Verdict

pub data Call : Type 0 where
  attempt : ℕ → Call
  success : ℕ → Call
  failure : ErrorKind → ℕ → Call

abbrev pub try : Breaker → ℕ → Verdict × Breaker
try (closed n) now = (pass, closed n)
try (open_until d) now = if leb d now then (probe, half_open) else (refuse, open_until d)
try half_open now = (refuse, half_open)

abbrev pub trip : ℕ → Breaker → ℕ → Breaker
trip interval (closed n) now =
    if ltb (suc n) failure_threshold then closed (suc n) else open_until (now + interval)
trip interval _ now = open_until (now + interval)

abbrev pub breaker_step : ℕ → Call → Breaker → Breaker
breaker_step interval (attempt now) b = (try b now).1
breaker_step interval (success now) b = closed 0
breaker_step interval (failure kind now) b = if is_recoverable kind then trip interval b now else b

-- An outbound that is not tracked always passes.
abbrev pub breaker_answer : Call → Option Breaker → List Verdict
breaker_answer (attempt now) none = pass ∷ []
breaker_answer (attempt now) (some b) = (try b now).0 ∷ []
breaker_answer _ b = []

unfoldable pub breaker_run : ℕ → Option Breaker → List Call → List Verdict
breaker_run interval b [] = []
breaker_run interval b (c ∷ cs) =
    breaker_answer c b ++ breaker_run interval (Option.map (breaker_step interval c) b) cs

abbrev pub breaker_of : HealthState → Breaker
breaker_of s =
    if ltb s.consecutive_failures failure_threshold
    then closed s.consecutive_failures
    else if s.probe_in_flight
    then half_open
    else open_until s.next_probe_at

abbrev pub view : Option HealthTracker → String → Option Breaker
view none o = none
view (some t) o = Option.map breaker_of (lookup o t.outbounds)

abbrev pub verdict_of : HealthDecision → Verdict
verdict_of d = if d.allowed then (if d.probe then probe else pass) else refuse

abbrev pub step : Option HealthTracker → String → Call → Option HealthTracker
step t o (attempt now) = (before_attempt t o now).1
step t o (success now) = record_success t o now
step t o (failure kind now) = record_failure t o kind now

abbrev pub answer : Option HealthTracker → String → Call → List Verdict
answer t o (attempt now) = verdict_of (before_attempt t o now).0 ∷ []
answer t o _ = []

-- The verdicts that the attempts on `o` are given along a sequence of calls on all outbounds.
unfoldable pub answers : String → Option HealthTracker → Map String Call → List Verdict
answers o t [] = []
answers o t ((p, c) ∷ cs) = (if p == o then answer t p c else []) ++ answers o (step t p c) cs

abbrev pub calls_of : String → Map String Call → List Call
calls_of o [] = []
calls_of o ((p, c) ∷ cs) = if p == o then c ∷ calls_of o cs else calls_of o cs

attempt-breaker :
    (s : HealthState) (now : ℕ)
    → (verdict_of (attempt_state s now).0 ≡ (try (breaker_of s) now).0)
      × (breaker_of (attempt_state s now).1 ≡ (try (breaker_of s) now).1)
unfolding attempt_state
attempt-breaker s now = ground arith

failure-breaker :
    (interval : ℕ) (kind : ErrorKind) (s : HealthState) (now : ℕ)
    → breaker_of (failure_state interval kind s now) ≡ trip interval (breaker_of s) now
unfolding failure_state
failure-breaker interval kind s now = ground arith

abbrev pub interval_of : Option HealthTracker → ℕ
interval_of none = 0
interval_of (some t) = t.probe_interval

step-interval :
    (t : HealthTracker) (p : String) (c : Call) → interval_of (step (some t) p c) ≡ t.probe_interval
unfolding before_attempt record_success record_failure
step-interval t p (attempt now) = ground arith
step-interval t p (success now) = ground arith
step-interval t p (failure kind now) = ground arith

put_state-view :
    (t : HealthTracker) (o p : String) (s : HealthState)
    → view (some (put_state t p s)) o ≡ (if p == o then some (breaker_of s) else view (some t) o)
unfolding put_state
put_state-view t o p s = ground (arith, lookup-insert p o s t.outbounds)

-- A call whose effect on its own entry is known, seen from any outbound.
update-view :
    (t : HealthTracker) (o p : String) (s : HealthState) (f : Breaker → Breaker) (s' : HealthState)
    → lookup p t.outbounds ≡ some s
    → breaker_of s' ≡ f (breaker_of s)
    → view (some (put_state t p s')) o
      ≡ (if p == o then Option.map f (view (some t) o) else view (some t) o)
update-view t o p s f s' found e = ground (arith, put_state-view t o p s', eq_iff p o)

missing-view :
    (t : HealthTracker) (o p : String) (f : Breaker → Breaker)
    → lookup p t.outbounds ≡ none
    → view (some t) o ≡ (if p == o then Option.map f (view (some t) o) else view (some t) o)
missing-view t o p f missing = ground (arith, eq_iff p o)

step-view :
    (t : HealthTracker) (o p : String) (c : Call)
    → view (step (some t) p c) o ≡ (
        if p == o
        then Option.map (breaker_step t.probe_interval c) (view (some t) o)
        else view (some t) o)
unfolding before_attempt record_success record_failure
step-view t o p (attempt now) = elim (Option-cases (lookup p t.outbounds)) [
  | inl e ↦ ground (arith, missing-view t o p (breaker_step t.probe_interval (attempt now)) e)
  | inr (s, e) ↦ ground (
    arith,
    update-view t o p s (breaker_step t.probe_interval (attempt now)) (attempt_state s now).1 e,
    attempt-breaker s now,
  )
]
step-view t o p (success now) = elim (Option-cases (lookup p t.outbounds)) [
  | inl e ↦ ground (arith, missing-view t o p (breaker_step t.probe_interval (success now)) e)
  | inr (s, e) ↦ ground (
    arith,
    update-view t o p s (breaker_step t.probe_interval (success now)) (success_state s now) e
        (unfold success_state in refl),
  )
]
step-view t o p (failure kind now) = elim (Bool-cases (is_recoverable kind)) [
  | inl r ↦ elim (Option-cases (lookup p t.outbounds)) [
    | inl e ↦
        ground (arith, missing-view t o p (breaker_step t.probe_interval (failure kind now)) e)
    | inr (s, e) ↦ ground (
      arith,
      update-view t o p s (breaker_step t.probe_interval (failure kind now))
          (failure_state t.probe_interval kind s now) e,
      failure-breaker t.probe_interval kind s now,
    )
  ]
  | inr r ↦ ground (arith, Option-cases (view (some t) o))
]

answer-view :
    (t : HealthTracker) (p : String) (c : Call)
    → answer (some t) p c ≡ breaker_answer c (view (some t) p)
unfolding before_attempt
answer-view t p (attempt now) = elim (Option-cases (lookup p t.outbounds)) [
  | inl e ↦ rw (e, before_attempt) refl
  | inr (s, e) ↦ rw (e, before_attempt) (ap (λ v. v ∷ []) (attempt-breaker s now).0)
]
answer-view t p (success now) = refl
answer-view t p (failure kind now) = refl

-- A nil tracker has no entries, and stays nil.
any-step-view :
    (t : Option HealthTracker) (o p : String) (c : Call)
    → (view (step t p c) o
        ≡ (if p == o then Option.map (breaker_step (interval_of t) c) (view t o) else view t o))
      × (interval_of (step t p c) ≡ interval_of t)
      × (answer t p c ≡ breaker_answer c (view t p))
any-step-view (some t) o p c = (step-view t o p c, step-interval t p c, answer-view t p c)
any-step-view none o p (attempt now) = unfold before_attempt in ground arith
any-step-view none o p (success now) = unfold record_success in ground arith
any-step-view none o p (failure kind now) = unfold record_failure in ground arith

-- Along every sequence of attempts, successes and failures on any outbounds, the attempts on an
-- outbound are given the verdicts of a circuit breaker that sees only that outbound's calls.
pub answers-breaker_run :
    (o : String) (t : Option HealthTracker) (cs : Map String Call)
    → answers o t cs ≡ breaker_run (interval_of t) (view t o) (calls_of o cs)
unfolding answers breaker_run
answers-breaker_run o t [] = refl
answers-breaker_run o t ((p, c) ∷ cs) = elim (Bool-cases (p == o)) [
  | inl same ↦
      let facts = any-step-view t o p c in
      let e : p ≡ o = (eq_iff p o).0 same in
      rw same
        (rw (answers-breaker_run o (step t p c) cs, facts.1, facts.0, same, facts.2) (rw e refl))
  | inr other ↦
      let facts = any-step-view t o p c in
      rw other (rw (answers-breaker_run o (step t p c) cs, facts.1, facts.0, other) refl)
]
