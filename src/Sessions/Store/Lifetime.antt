-- ===== src/Sessions/Store/Lifetime.antt =====
-- A stopped session stays as it is until a sweep deletes it.
use syrogo.Base.{
  ◌+◌, ltb, ℕ, ◌≡◌, refl, sym, ap, ◌∙◌, ◌⊎◌, inl, inr, String, Bool, true, false, ◌&&◌, [], ◌∷◌,
  none, some, if◌then◌else◌, ◌==◌, text_eq, eq_iff, arith, Bool-cases,
}
use syrogo.Base.Map.{Map, lookup, some_inj}
use syrogo.Sessions.State.{HookEvent}
use syrogo.Sessions.Store.{
  hook_session, stop_session, Session, Store, is_stopped, register, apply_hook_event, mark_stopped,
  heartbeat, sweep, sweep_from, sweep_session, Swept, kept, pruned, expired, degraded,
}
use syrogo.Sessions.Store.Final.{on_owned-stopped, register-stopped, heartbeat-stopped}

-- The operations that may change the store.
pub data Operation : Type 0 where
  registration : Session → Operation
  hook : String → String → HookEvent → Operation
  stop : String → String → String → ℕ → Operation
  beat : String → String → String → Operation
  sweeping : ℕ → ℕ → Operation

unfoldable pub perform : (Session → Session → Bool) → (ℕ → ℕ) → Operation → ℕ → Store → Store
unfolding register apply_hook_event mark_stopped heartbeat sweep
perform deep_equal lower (registration s) now store = (register deep_equal s now store).1
perform deep_equal lower (hook client inbound event) now store =
    (apply_hook_event deep_equal lower client inbound event now store).1
perform deep_equal lower (stop client inbound id code) now store =
    (mark_stopped deep_equal client inbound id code now store).1
perform deep_equal lower (beat client inbound id) now store =
    (heartbeat deep_equal client inbound id now store).1
perform deep_equal lower (sweeping retention transient) now store =
    (sweep deep_equal retention transient now store).1

-- No two entries for the same key, as in every Go map.
abbrev pub DistinctKeys : Map String Session → Type 0
DistinctKeys [] = Unit
DistinctKeys ((id, s) ∷ sessions) = (lookup id sessions ≡ none) × DistinctKeys sessions

abbrev pub is_sweeping : Operation → Bool
is_sweeping (sweeping retention transient) = true
is_sweeping _ = false

module _ (deep_equal : Session → Session → Bool) where
  -- A sweep keeps a stopped session or deletes it, and brings back no key.
  abbrev pub swept : ℕ → ℕ → ℕ → Map String Session → Map String Session
  swept retention transient now sessions =
      (sweep_from deep_equal retention transient now sessions).0

  abbrev pub after_session : String → Session → Swept → Map String Session → Map String Session
  after_session id s kept rest = (id, s) ∷ rest
  after_session id s pruned rest = rest
  after_session id s (expired t) rest = (id, if deep_equal s t then s else t) ∷ rest
  after_session id s (degraded t) rest = (id, if deep_equal s t then s else t) ∷ rest

  pub swept-cons :
      (retention transient now : ℕ) (id : String) (s : Session) (sessions : Map String Session)
      (w : Swept)
      → sweep_session retention transient now s ≡ w
      → swept retention transient now ((id, s) ∷ sessions)
        ≡ after_session id s w (swept retention transient now sessions)
  unfolding sweep_from
  swept-cons retention transient now id s sessions kept e = rw (swept, e, sweep_from) refl
  swept-cons retention transient now id s sessions pruned e = rw (swept, e, sweep_from) refl
  swept-cons retention transient now id s sessions (expired t) e = rw (swept, e, sweep_from) refl
  swept-cons retention transient now id s sessions (degraded t) e = rw (swept, e, sweep_from) refl

  after-other :
      (id key : String) (s : Session) (w : Swept) (rest : Map String Session)
      → (id == key) ≡ false
      → lookup key (after_session id s w rest) ≡ lookup key rest
  unfolding lookup
  after-other id key s kept rest apart = rw apart refl
  after-other id key s pruned rest apart = refl
  after-other id key s (expired t) rest apart = rw apart refl
  after-other id key s (degraded t) rest apart = rw apart refl

  lookup-other :
      (id key : String) (s : Session) (sessions : Map String Session)
      → (id == key) ≡ false
      → lookup key ((id, s) ∷ sessions) ≡ lookup key sessions
  unfolding lookup
  lookup-other id key s sessions apart = rw apart refl

  lookup-same :
      (id key : String) (s : Session) (sessions : Map String Session)
      → (id == key) ≡ true
      → lookup key ((id, s) ∷ sessions) ≡ some s
  unfolding lookup
  lookup-same id key s sessions same = rw same refl

  pub swept-missing :
      (retention transient now : ℕ) (key : String) (sessions : Map String Session)
      → lookup key sessions ≡ none
      → lookup key (swept retention transient now sessions) ≡ none
  swept-missing retention transient now key [] h = unfold sweep_from in h
  swept-missing retention transient now key ((id, s) ∷ sessions) h =
      let w = sweep_session retention transient now s in
      let rest = swept retention transient now sessions in
      elim (Bool-cases (id == key)) [
        | inl same ↦
            let bad : some s ≡ none = sym (lookup-same id key s sessions same) ∙ h in
            ground (arith, bad)
        | inr apart ↦
            ap (lookup key) (swept-cons retention transient now id s sessions w refl)
            ∙ after-other id key s w rest apart
            ∙ swept-missing retention transient now key sessions
                (sym (lookup-other id key s sessions apart) ∙ h)
      ]

  -- A stopped session is kept or deleted.
  sweep_session-stopped :
      (retention transient now : ℕ) (s : Session)
      → is_stopped s ≡ true
      → (sweep_session retention transient now s ≡ kept)
        ⊎ (sweep_session retention transient now s ≡ pruned)
  unfolding sweep_session
  sweep_session-stopped retention transient now s over =
      elim (Bool-cases (ltb 0 retention && ltb (s.last_seen_at + retention) now)) [
        | inl old ↦ inr (rw (over, old) refl)
        | inr new ↦ inl (rw (over, new) refl)
      ]

  swept-stopped :
      (retention transient now : ℕ) (key : String) (x : Session) (sessions : Map String Session)
      → DistinctKeys sessions
      → lookup key sessions ≡ some x
      → is_stopped x ≡ true
      → (lookup key (swept retention transient now sessions) ≡ some x)
        ⊎ (lookup key (swept retention transient now sessions) ≡ none)
  swept-stopped retention transient now key x [] distinct found over =
      let bad : none ≡ some x = unfold lookup in found in ground (arith, bad)
  swept-stopped retention transient now key x ((id, s) ∷ sessions) distinct found over =
      let rest = swept retention transient now sessions in
      elim (Bool-cases (id == key)) [
        | inr apart ↦
            let w = sweep_session retention transient now s in
            let same =
              ap (lookup key) (swept-cons retention transient now id s sessions w refl)
              ∙ after-other id key s w rest apart in
            rw same (
              swept-stopped retention transient now key x sessions distinct.1
                (sym (lookup-other id key s sessions apart) ∙ found) over)
        | inl same ↦
            let is_x : s ≡ x = some_inj (sym (lookup-same id key s sessions same) ∙ found) in
            elim (sweep_session-stopped retention transient now s (ap is_stopped is_x ∙ over)) [
              | inl k ↦ inl (
                  ap (lookup key) (swept-cons retention transient now id s sessions kept k)
                  ∙ lookup-same id key s rest same
                  ∙ ap some is_x)
              | inr p ↦ inr (
                  ap (lookup key) (swept-cons retention transient now id s sessions pruned p)
                  ∙ swept-missing retention transient now key sessions
                      (ap (λ k. lookup k sessions) (sym ((eq_iff id key).0 same)) ∙ distinct.0))
            ]
      ]

-- Whatever operation is performed on a store, by whichever client, a stopped session is left
-- exactly as it is; only a sweep may delete it.
pub perform-stopped :
    (deep_equal : Session → Session → Bool) (lower : ℕ → ℕ) (op : Operation) (now : ℕ)
    (store : Store) (key : String) (x : Session)
    → DistinctKeys store.sessions
    → lookup key store.sessions ≡ some x
    → is_stopped x ≡ true
    → let after = perform deep_equal lower op now store in
      (lookup key after.sessions ≡ some x)
      ⊎ ((is_sweeping op ≡ true) × (lookup key after.sessions ≡ none))
unfolding perform
perform-stopped deep_equal lower (registration s) now store key x distinct found over =
    inl (register-stopped deep_equal s now key x store found over)
perform-stopped deep_equal lower (hook client inbound event) now store key x distinct found over =
    inl (
      unfold apply_hook_event in
      on_owned-stopped deep_equal (λ s. hook_session lower event s now) client inbound
        event.session_id key x store found over)
perform-stopped deep_equal lower (stop client inbound id code) now store key x distinct found over =
    inl (
      unfold mark_stopped in
      on_owned-stopped deep_equal (λ s. stop_session code s now) client inbound id key x store found
        over)
perform-stopped deep_equal lower (beat client inbound id) now store key x distinct found over =
    inl (heartbeat-stopped deep_equal client inbound id now key x store found over)
perform-stopped deep_equal lower (sweeping retention transient) now store key x distinct found
      over =
    elim (swept-stopped deep_equal retention transient now key x store.sessions distinct found
      over) [ inl same ↦ inl (unfold sweep in same) | inr gone ↦ inr (refl, unfold sweep in gone) ]
