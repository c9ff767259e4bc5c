-- ===== src/Sessions/Store/Final.antt =====
-- The operations on one session leave every stopped one as it is.
use syrogo.Base.{
  ℕ, ◌≡◌, refl, ◌∙◌, inl, inr, String, Bool, true, false, none, some, ◌==◌, text_eq, eq_iff,
  Bool-cases, Option-cases,
}
use syrogo.Base.Map.{lookup, lookup-insert}
use syrogo.Sessions.Store.{
  Session, Store, is_stopped, owned, set_session, register, on_owned, heartbeat, beat_session,
  heartbeat_capability_v1, merge_existing, register_defaults,
}

module _ (deep_equal : Session → Session → Bool) where
  -- A write under another key.
  set_session-other :
      (id other : String) (s : Session) (store : Store)
      → (id == other) ≡ false
      → lookup other (set_session deep_equal id s store).sessions ≡ lookup other store.sessions
  unfolding set_session
  set_session-other id other s store apart =
      elim (Bool-cases
        (elim (lookup id store.sessions) [ none ↦ false | some old ↦ deep_equal old s ])) [
          | inl h ↦ rw h refl
          | inr h ↦ rw h (lookup-insert id other s store.sessions ∙ rw apart refl)
        ]

  -- An operation on one session leaves a stopped one alone, whichever session it is on.
  pub on_owned-stopped :
      (f : Session → Session) (client inbound id key : String) (x : Session) (store : Store)
      → lookup key store.sessions ≡ some x
      → is_stopped x ≡ true
      → lookup key (on_owned deep_equal f client inbound id store).1.sessions ≡ some x
  unfolding on_owned
  on_owned-stopped f client inbound id key x store found over = elim (Bool-cases (id == key)) [
    | inl same ↦
        let at_id : lookup id store.sessions ≡ some x = rw ((eq_iff id key).0 same) found in
        elim (Bool-cases (owned x client inbound)) [
          | inl mine ↦ rw (at_id, mine, over, on_owned) found
          | inr theirs ↦ rw (at_id, theirs, on_owned) found
        ]
    | inr apart ↦ elim (Option-cases (lookup id store.sessions)) [
      | inl missing ↦ rw (missing, on_owned) found
      | inr (s, there) ↦ elim (Bool-cases (owned s client inbound)) [
        | inr theirs ↦ rw (there, theirs, on_owned) found
        | inl mine ↦ elim (Bool-cases (is_stopped s)) [
          | inl h ↦ rw (there, mine, h, on_owned) found
          | inr h ↦
              rw (there, mine, h, on_owned) (set_session-other id key (f s) store apart ∙ found)
        ]
      ]
    ]
  ]

  -- The session that is written is another one than a stopped one that is found.
  write-stopped :
      (id key : String) (s x : Session) (store : Store)
      → lookup key store.sessions ≡ some x
      → (id == key) ≡ false
      → lookup key (set_session deep_equal id s store).sessions ≡ some x
  write-stopped id key s x store found apart = set_session-other id key s store apart ∙ found

  defaults-id : (s : Session) (now : ℕ) → (register_defaults s now).id ≡ s.id
  unfolding register_defaults
  defaults-id s now = refl

  merged-id :
      (existing s : Session) (now : ℕ)
      → (register_defaults (merge_existing existing s) now).id ≡ s.id
  unfolding register_defaults merge_existing
  merged-id existing s now = refl

  pub register-stopped :
      (s : Session) (now : ℕ) (key : String) (x : Session) (store : Store)
      → lookup key store.sessions ≡ some x
      → is_stopped x ≡ true
      → lookup key (register deep_equal s now store).1.sessions ≡ some x
  unfolding register
  register-stopped s now key x store found over = elim (Bool-cases (s.id == key)) [
    | inl same ↦
        let at_id : lookup s.id store.sessions ≡ some x = rw ((eq_iff s.id key).0 same) found in
        elim (Bool-cases (owned x s.client_name s.inbound_name)) [
          | inl mine ↦ rw (at_id, mine, over, register) found
          | inr theirs ↦ rw (at_id, theirs, register) found
        ]
    | inr apart ↦ elim (Option-cases (lookup s.id store.sessions)) [
      | inl missing ↦
          rw (missing, register)
            (write-stopped (register_defaults s now).id key (register_defaults s now) x store found
              (rw (defaults-id s now) apart))
      | inr (old, there) ↦ elim (Bool-cases (owned old s.client_name s.inbound_name)) [
        | inr theirs ↦ rw (there, theirs, register) found
        | inl mine ↦ elim (Bool-cases (is_stopped old)) [
          | inl h ↦ rw (there, mine, h, register) found
          | inr h ↦
              let made : Session = register_defaults (merge_existing old s) now in
              rw (there, mine, h, register)
                (write-stopped made.id key made x store found (rw (merged-id old s now) apart))
        ]
      ]
    ]
  ]

  pub heartbeat-stopped :
      (client inbound id : String) (now : ℕ) (key : String) (x : Session) (store : Store)
      → lookup key store.sessions ≡ some x
      → is_stopped x ≡ true
      → lookup key (heartbeat deep_equal client inbound id now store).1.sessions ≡ some x
  unfolding heartbeat
  heartbeat-stopped client inbound id now key x store found over = elim (Bool-cases (id == key)) [
    | inl same ↦
        let at_id : lookup id store.sessions ≡ some x = rw ((eq_iff id key).0 same) found in
        elim (Bool-cases (owned x client inbound)) [
          | inl mine ↦ rw (at_id, mine, over, heartbeat) found
          | inr theirs ↦ rw (at_id, theirs, heartbeat) found
        ]
    | inr apart ↦ elim (Option-cases (lookup id store.sessions)) [
      | inl missing ↦ rw (missing, heartbeat) found
      | inr (s, there) ↦ elim (Bool-cases (owned s client inbound)) [
        | inr theirs ↦ rw (there, theirs, heartbeat) found
        | inl mine ↦ elim (Bool-cases (is_stopped s)) [
          | inl h ↦ rw (there, mine, h, heartbeat) found
          | inr h ↦ elim (Bool-cases (s.heartbeat_capability == heartbeat_capability_v1)) [
            | inr no_beats ↦ rw (there, mine, h, no_beats, heartbeat) found
            | inl beats ↦
                rw (there, mine, h, beats, heartbeat)
                  (write-stopped id key (beat_session s now) x store found apart)
          ]
        ]
      ]
    ]
  ]
