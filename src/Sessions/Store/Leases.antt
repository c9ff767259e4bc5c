-- ===== src/Sessions/Store/Leases.antt =====
-- What a sweep leaves in the store.
use syrogo.Base.{
  ℕ, ◌+◌, ◌≤◌, ◌<◌, length, subst, sym, ◌≡◌, refl, inl, inr, String, Bool, true, false, not, ◌&&◌,
  ◌||◌, [], ◌∷◌, All, Option, some, if◌then◌else◌, ltb, ◌==◌, nat_eq, text_eq, arith, Bool-cases,
}
use syrogo.Base.Map.{Map}
use syrogo.Sessions.Store.{
  Session, Store, SweepResult, heartbeat_capability_v1, lease_over, is_stopped, sweep_session,
  sweep_from, sweep, Swept, kept, pruned, expired, degraded,
}

-- A session that a sweep at a time leaves: stopped not too long ago, or with a lease, if it has
-- the capability and a lease at all, that has not expired.
abbrev pub IsCurrent : ℕ → ℕ → Session → Type 0
IsCurrent retention now s =
    (is_stopped s ≡ true → 0 < retention → now ≤ s.last_seen_at + retention)
    × (is_stopped s ≡ false
        → s.heartbeat_capability ≡ heartbeat_capability_v1
        → (at : ℕ) → s.lease_expires_at ≡ some at
        → now < at)

abbrev LeavesCurrent : ℕ → ℕ → Session → Swept → Type 0
LeavesCurrent retention now s kept = IsCurrent retention now s
LeavesCurrent retention now s pruned = Unit
LeavesCurrent retention now s (expired t) = IsCurrent retention now t
LeavesCurrent retention now s (degraded t) = IsCurrent retention now t

live-IsCurrent :
    (retention now : ℕ) (s : Session)
    → is_stopped s ≡ false
    → (s.heartbeat_capability == heartbeat_capability_v1 && lease_over now s.lease_expires_at)
      ≡ false
    → IsCurrent retention now s
live-IsCurrent retention now s live lease = (
  λ h. ground (arith, live, h),
  λ h v1 at has. fresh (s.lease_expires_at) at has (rw v1 at lease),
)
  where
    fresh : (lease : Option ℕ) (at : ℕ) → lease ≡ some at → lease_over now lease ≡ false → now < at
    fresh lease at e o = ground (arith, rw e at o)

sweep_session-LeavesCurrent :
    (retention transient now : ℕ) (s : Session)
    → LeavesCurrent retention now s (sweep_session retention transient now s)
unfolding sweep_session
sweep_session-LeavesCurrent retention transient now s = elim (Bool-cases (is_stopped s)) [
  | inl h ↦ elim (Bool-cases (ltb 0 retention && ltb (s.last_seen_at + retention) now)) [
    | inl old ↦ rw (h, old) tt
    | inr new ↦ rw (h, new) (λ k set. ground (arith, new, set), λ k. ground (arith, h, k))
  ]
  | inr h ↦
      elim (Bool-cases
        (s.heartbeat_capability == heartbeat_capability_v1 && lease_over now s.lease_expires_at)) [
          | inl over ↦ rw (h, over) (λ k set. omega arith, λ k. ground (arith, k))
          | inr fresh ↦
              elim (Bool-cases (
                ltb 0 transient
                && (s.status == "tool_running" || s.status == "compacting")
                && not (s.status_observed_at == 0)
                && not (ltb now (s.status_observed_at + transient)))) [
                  | inl stale ↦
                      rw (h, fresh, stale)
                        (live-IsCurrent retention now
                          (record s { status = "unknown"; status_observed_at = now }) refl fresh)
                  | inr other ↦ rw (h, fresh, other) (live-IsCurrent retention now s h fresh)
                ]
        ]
]

module _ (deep_equal : Session → Session → Bool) (retention transient now : ℕ) where
  written :
      (s t : Session)
      → ((a b : Session) → deep_equal a b ≡ true → a ≡ b)
      → IsCurrent retention now t
      → IsCurrent retention now (if deep_equal s t then s else t)
  written s t sound h = elim (Bool-cases (deep_equal s t)) [
    | inl e ↦ rw e (subst (IsCurrent retention now) (sym (sound s t e)) h)
    | inr e ↦ rw e h
  ]

  -- What a sweep of some sessions gives.
  abbrev Good : Map String Session → Map String Session × ℕ × SweepResult → Type 0
  Good before r =
      All (λ e. IsCurrent retention now e.1) r.0 × (length r.0 + r.2.stopped_pruned ≡ length before)

  -- One more session before the rest.
  sweep_one :
      (id : String) (s : Session) (sessions : Map String Session)
      (r : Map String Session × ℕ × SweepResult) (w : Swept)
      → ((a b : Session) → deep_equal a b ≡ true → a ≡ b)
      → sweep_session retention transient now s ≡ w
      → sweep_from deep_equal retention transient now sessions ≡ r
      → LeavesCurrent retention now s w
      → Good sessions r
      → Good
          ((id, s) ∷ sessions)
          (sweep_from deep_equal retention transient now ((id, s) ∷ sessions))
  unfolding sweep_from
  sweep_one id s sessions r kept sound e f h g =
      rw (e, f, sweep_from) ((h, g.0), omega (arith, g.1))
  sweep_one id s sessions r pruned sound e f h g = rw (e, f, sweep_from) (g.0, omega (arith, g.1))
  sweep_one id s sessions r (expired t) sound e f h g =
      rw (e, f, sweep_from) ((written s t sound h, g.0), omega (arith, g.1))
  sweep_one id s sessions r (degraded t) sound e f h g =
      rw (e, f, sweep_from) ((written s t sound h, g.0), omega (arith, g.1))

  sweep_from-Good :
      (sessions : Map String Session)
      → ((a b : Session) → deep_equal a b ≡ true → a ≡ b)
      → Good sessions (sweep_from deep_equal retention transient now sessions)
  sweep_from-Good [] sound = unfold sweep_from in (tt, omega arith)
  sweep_from-Good ((id, s) ∷ sessions) sound =
      sweep_one id s sessions (sweep_from deep_equal retention transient now sessions)
        (sweep_session retention transient now s) sound refl refl
        (sweep_session-LeavesCurrent retention transient now s) (sweep_from-Good sessions sound)

-- After a sweep, where no two different sessions count as equal: every stopped session was seen
-- within the time for which it is kept, if there is such a time; no other session that sends
-- heartbeats has an expired lease; and the sessions that are gone are those counted as pruned.
pub sweep-IsCurrent :
    (deep_equal : Session → Session → Bool) (retention transient now : ℕ) (store : Store)
    → ((a b : Session) → deep_equal a b ≡ true → a ≡ b)
    → let swept = sweep deep_equal retention transient now store in
      All (λ e. IsCurrent retention now e.1) swept.1.sessions
      × (length swept.1.sessions + swept.0.stopped_pruned ≡ length store.sessions)
unfolding sweep
sweep-IsCurrent deep_equal retention transient now store sound =
    sweep_from-Good deep_equal retention transient now store.sessions sound
