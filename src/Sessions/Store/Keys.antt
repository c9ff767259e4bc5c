-- ===== src/Sessions/Store/Keys.antt =====
-- Every operation keeps the keys of the store apart.
use syrogo.Base.{
  ℕ, ◌≡◌, refl, sym, ap, ◌∙◌, inl, inr, String, Bool, false, [], ◌∷◌, none, some, ◌==◌, text_eq,
  eq_iff, arith, Bool-cases, Option-cases, subst,
}
use syrogo.Base.Map.{Map, lookup, insert, lookup-insert}
use syrogo.Sessions.Store.{
  Session, Store, is_stopped, owned, set_session, register, on_owned, apply_hook_event,
  mark_stopped, heartbeat, beat_session, sweep, sweep_from, sweep_session, Swept, kept, pruned,
  expired, degraded, merge_existing, register_defaults, hook_session, stop_session,
  heartbeat_capability_v1,
}
use syrogo.Sessions.Store.Lifetime.{
  Operation, registration, hook, stop, beat, sweeping, perform, DistinctKeys, swept, after_session,
  swept-cons, swept-missing,
}

insert-DistinctKeys :
    (id : String) (s : Session) (sessions : Map String Session)
    → DistinctKeys sessions
    → DistinctKeys (insert id s sessions)
unfolding insert
insert-DistinctKeys id s [] d = unfold lookup in (refl, tt)
insert-DistinctKeys id s ((j, t) ∷ sessions) d = elim (Bool-cases (j == id)) [
  | inl same ↦ rw same (ap (λ k. lookup k sessions) (sym ((eq_iff j id).0 same)) ∙ d.0, d.1)
  | inr apart ↦
      let away : (id == j) ≡ false = ground (arith, apart, eq_iff j id, eq_iff id j) in
      rw apart (
        (lookup-insert id j s sessions ∙ rw away refl) ∙ d.0,
        insert-DistinctKeys id s sessions d.1,
      )
]

module _ (deep_equal : Session → Session → Bool) where
  set_session-DistinctKeys :
      (id : String) (s : Session) (store : Store)
      → DistinctKeys store.sessions
      → DistinctKeys (set_session deep_equal id s store).sessions
  unfolding set_session
  set_session-DistinctKeys id s store d =
      elim (Bool-cases
        (elim (lookup id store.sessions) [ none ↦ false | some old ↦ deep_equal old s ])) [
          | inl h ↦ rw h d
          | inr h ↦ rw h (insert-DistinctKeys id s store.sessions d)
        ]

  on_owned-DistinctKeys :
      (f : Session → Session) (client inbound id : String) (store : Store)
      → DistinctKeys store.sessions
      → DistinctKeys (on_owned deep_equal f client inbound id store).1.sessions
  unfolding on_owned
  on_owned-DistinctKeys f client inbound id store d =
      elim (Option-cases (lookup id store.sessions)) [
        | inl missing ↦ rw (missing, on_owned) d
        | inr (s, there) ↦ elim (Bool-cases (owned s client inbound)) [
          | inr theirs ↦ rw (there, theirs, on_owned) d
          | inl mine ↦ elim (Bool-cases (is_stopped s)) [
            | inl h ↦ rw (there, mine, h, on_owned) d
            | inr h ↦ rw (there, mine, h, on_owned) (set_session-DistinctKeys id (f s) store d)
          ]
        ]
      ]

  register-DistinctKeys :
      (s : Session) (now : ℕ) (store : Store)
      → DistinctKeys store.sessions
      → DistinctKeys (register deep_equal s now store).1.sessions
  unfolding register
  register-DistinctKeys s now store d = elim (Option-cases (lookup s.id store.sessions)) [
    | inl missing ↦
        let made : Session = register_defaults s now in
        rw (missing, register) (set_session-DistinctKeys made.id made store d)
    | inr (old, there) ↦ elim (Bool-cases (owned old s.client_name s.inbound_name)) [
      | inr theirs ↦ rw (there, theirs, register) d
      | inl mine ↦ elim (Bool-cases (is_stopped old)) [
        | inl h ↦ rw (there, mine, h, register) d
        | inr h ↦
            let made : Session = register_defaults (merge_existing old s) now in
            rw (there, mine, h, register) (set_session-DistinctKeys made.id made store d)
      ]
    ]
  ]

  heartbeat-DistinctKeys :
      (client inbound id : String) (now : ℕ) (store : Store)
      → DistinctKeys store.sessions
      → DistinctKeys (heartbeat deep_equal client inbound id now store).1.sessions
  unfolding heartbeat
  heartbeat-DistinctKeys client inbound id now store d =
      elim (Option-cases (lookup id store.sessions)) [
        | inl missing ↦ rw (missing, heartbeat) d
        | inr (s, there) ↦ elim (Bool-cases (owned s client inbound)) [
          | inr theirs ↦ rw (there, theirs, heartbeat) d
          | inl mine ↦ elim (Bool-cases (is_stopped s)) [
            | inl h ↦ rw (there, mine, h, heartbeat) d
            | inr h ↦ elim (Bool-cases (s.heartbeat_capability == heartbeat_capability_v1)) [
              | inr no_beats ↦ rw (there, mine, h, no_beats, heartbeat) d
              | inl beats ↦
                  rw (there, mine, h, beats, heartbeat)
                    (set_session-DistinctKeys id (beat_session s now) store d)
            ]
          ]
        ]
      ]

  after-DistinctKeys :
      (id : String) (s : Session) (w : Swept) (rest : Map String Session)
      → lookup id rest ≡ none
      → DistinctKeys rest
      → DistinctKeys (after_session deep_equal id s w rest)
  after-DistinctKeys id s kept rest h d = (h, d)
  after-DistinctKeys id s pruned rest h d = d
  after-DistinctKeys id s (expired t) rest h d = (h, d)
  after-DistinctKeys id s (degraded t) rest h d = (h, d)

  swept-DistinctKeys :
      (retention transient now : ℕ) (sessions : Map String Session)
      → DistinctKeys sessions
      → DistinctKeys (swept deep_equal retention transient now sessions)
  swept-DistinctKeys retention transient now [] d = unfold sweep_from in tt
  swept-DistinctKeys retention transient now ((id, s) ∷ sessions) d =
      let w = sweep_session retention transient now s in
      subst DistinctKeys (sym (swept-cons deep_equal retention transient now id s sessions w refl))
        (after-DistinctKeys id s w (swept deep_equal retention transient now sessions)
          (swept-missing deep_equal retention transient now id sessions d.0)
          (swept-DistinctKeys retention transient now sessions d.1))

-- Every operation on a store whose keys are distinct leaves them distinct.
pub perform-DistinctKeys :
    (deep_equal : Session → Session → Bool) (lower : ℕ → ℕ) (op : Operation) (now : ℕ)
    (store : Store)
    → DistinctKeys store.sessions
    → DistinctKeys (perform deep_equal lower op now store).sessions
unfolding perform
perform-DistinctKeys deep_equal lower (registration s) now store d =
    register-DistinctKeys deep_equal s now store d
perform-DistinctKeys deep_equal lower (hook client inbound event) now store d =
    unfold apply_hook_event in
    on_owned-DistinctKeys deep_equal (λ s. hook_session lower event s now) client inbound
      event.session_id store d
perform-DistinctKeys deep_equal lower (stop client inbound id code) now store d =
    unfold mark_stopped in
    on_owned-DistinctKeys deep_equal (λ s. stop_session code s now) client inbound id store d
perform-DistinctKeys deep_equal lower (beat client inbound id) now store d =
    heartbeat-DistinctKeys deep_equal client inbound id now store d
perform-DistinctKeys deep_equal lower (sweeping retention transient) now store d =
    unfold sweep in swept-DistinctKeys deep_equal retention transient now store.sessions d
