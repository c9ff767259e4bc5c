-- ===== src/Provider/Health/Probe.antt =====
-- The one probe of an outbound that failed too often, and what the snapshot says of it.
use syrogo.Base.{ℕ, ◌≡◌, refl, String, false, Option, some, List, [], ◌∷◌, All, arith}
use syrogo.Base.Map.{Map}
use syrogo.Provider.Error.{is_recoverable}
use syrogo.Provider.Health.{
  HealthState, HealthTracker, available, degraded, probing, attempt_state, snapshot_reason,
}
use syrogo.Provider.Health.Breaker.{
  half_open, pass, probe, refuse, Call, attempt, success, failure, breaker_run, view, interval_of,
  answers, calls_of, answers-breaker_run, verdict_of,
}

-- A call that reports no success and no failure that the tracker counts.
abbrev pub IsQuiet : Call → Type 0
IsQuiet (attempt now) = Unit
IsQuiet (success now) = ⊥
IsQuiet (failure kind now) = is_recoverable kind ≡ false

breaker_run-half_open :
    (interval : ℕ) (cs : List Call)
    → All IsQuiet cs
    → All (λ v. v ≡ refuse) (breaker_run interval (some half_open) cs)
unfolding breaker_run
breaker_run-half_open interval [] q = tt
breaker_run-half_open interval (attempt now ∷ cs) q = (refl, breaker_run-half_open interval cs q.1)
breaker_run-half_open interval (success now ∷ cs) q = absurd q.0
breaker_run-half_open interval (failure kind now ∷ cs) q =
    rw q.0 (breaker_run-half_open interval cs q.1)

-- While the probe of an outbound is out, every attempt on it is refused, at whatever time, until
-- a success or a recoverable failure of that outbound is recorded: calls on other outbounds and
-- failures of a kind that is not recoverable change nothing.
pub answers-half_open :
    (o : String) (t : Option HealthTracker) (cs : Map String Call)
    → view t o ≡ some half_open
    → All IsQuiet (calls_of o cs)
    → All (λ v. v ≡ refuse) (answers o t cs)
answers-half_open o t cs out q =
    rw (answers-breaker_run o t cs, out) (breaker_run-half_open (interval_of t) (calls_of o cs) q)

-- The snapshot agrees with the next attempt: an available outbound lets it pass, one that is
-- given the probe is shown as probing, and with no probe out a refused one is shown as degraded
-- and one shown as probing is given the probe.
pub snapshot_reason-attempt_state :
    (s : HealthState) (now : ℕ)
    → (snapshot_reason s now ≡ available → verdict_of (attempt_state s now).0 ≡ pass)
      × (verdict_of (attempt_state s now).0 ≡ probe → snapshot_reason s now ≡ probing)
      × (s.probe_in_flight ≡ false
          → verdict_of (attempt_state s now).0 ≡ refuse
          → snapshot_reason s now ≡ degraded)
      × (s.probe_in_flight ≡ false
          → snapshot_reason s now ≡ probing
          → verdict_of (attempt_state s now).0 ≡ probe)
unfolding snapshot_reason attempt_state
snapshot_reason-attempt_state s now = ground arith
