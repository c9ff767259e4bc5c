-- ===== src/Quota/Events/Bounded.antt =====
-- The recorder keeps the latest events, up to its number of entries.
use syrogo.Base.{
  subst, ℕ, zero, suc, ◌-◌, ◌≤◌, ◌<◌, ◌≡◌, ◌≢◌, refl, sym, ap, ◌∙◌, inl, inr, String, false, List,
  [], ◌∷◌, ◌++◌, map, append-nil, append_assoc, Option, some, if◌then◌else◌, ◌==◌, nat_eq, arith,
  Bool-cases, length, drop, is_empty, length-append, length-drop,
}
use syrogo.Quota.Events.{Event, EventRecorder, push_out, record_event, event_snapshot, new_recorder}

-- The recorder after a sequence of events, each with the text of its time.
unfoldable pub record_all : Option EventRecorder → List (String × Event) → Option EventRecorder
record_all r [] = r
record_all r ((stamp, event) ∷ events) = record_all (record_event r stamp event) events

abbrev pub stamped : String → Event → Event
stamped stamp event = record event { time = if is_empty event.time then stamp else event.time }

abbrev pub stamped_all : List (String × Event) → List Event
stamped_all events = map (λ e. stamped e.0 e.1) events

-- The last elements of a list.
abbrev pub last {ℓ} : {A : Type ℓ} → ℕ → List A → List A
last n xs = drop (length xs - n) xs

module _ {ℓ} {A : Type ℓ} where
  pub drop-append : (n : ℕ) (xs ys : List A) → n ≤ length xs → drop n (xs ++ ys) ≡ drop n xs ++ ys
  drop-append zero xs ys h = refl
  drop-append (suc n) [] ys h = ground (arith, h)
  drop-append (suc n) (x ∷ xs) ys h = drop-append n xs ys (omega (arith, h))

  drop-drop_one : (n : ℕ) (xs : List A) → drop 1 (drop n xs) ≡ drop (suc n) xs
  drop-drop_one zero xs = refl
  drop-drop_one (suc n) [] = refl
  drop-drop_one (suc n) (x ∷ xs) = drop-drop_one n xs

push_out-drop :
    (events : List Event) (e : Event)
    → 0 < length events
    → push_out events e ≡ drop 1 events ++ e ∷ []
unfolding push_out
push_out-drop [] e h = ground (arith, h)
push_out-drop (f ∷ events) e h = refl

-- Recording one event, and how many are kept.
unfoldable record_one : ℕ → List Event → Event → List Event
record_one n events e = if length events == n then push_out events e else events ++ e ∷ []

record_one-last :
    (n : ℕ) (seen : List Event) (e : Event)
    → n ≢ 0
    → record_one n (last n seen) e ≡ last n (seen ++ e ∷ [])
unfolding record_one
record_one-last n seen e set = elim (Bool-cases (length (last n seen) == n)) [
  | inl full ↦
      let long : n ≤ length seen = ground (arith, full, length-drop (length seen - n) seen) in
      let k : ℕ = length seen - n in
      let next : length (seen ++ e ∷ []) - n ≡ suc k =
        omega (arith, long, length-append seen (e ∷ [])) in
      let fits : suc k ≤ length seen = ground (arith, long, set) in
      rw full (
        push_out-drop (drop k seen) e (ground (arith, long, set, length-drop k seen))
        ∙ ap (◌++ e ∷ []) (drop-drop_one k seen)
        ∙ sym (drop-append (suc k) seen (e ∷ []) fits)
        ∙ ap (λ m. drop m (seen ++ e ∷ [])) (sym next))
  | inr room ↦
      let short : length seen < n = ground (arith, room, length-drop (length seen - n) seen) in
      let now : length seen - n ≡ 0 = omega (arith, short) in
      let next : length (seen ++ e ∷ []) - n ≡ 0 =
        omega (arith, short, length-append seen (e ∷ [])) in
      rw room (rw (now, next) refl)
]

record_event-some :
    (r : EventRecorder) (stamp : String) (event : Event)
    → record_event (some r) stamp event
      ≡ some (record r { events = record_one r.max_entries r.events (stamped stamp event) })
unfolding record_event record_one
record_event-some r stamp event = elim (Bool-cases (length r.events == r.max_entries)) [
  | inl h ↦ rw h refl
  | inr h ↦ rw h refl
]

record_all-last :
    (n : ℕ) (seen : List Event) (events : List (String × Event))
    → n ≢ 0
    → record_all (some (record { max_entries = n; events = last n seen })) events
      ≡ some (record { max_entries = n; events = last n (seen ++ stamped_all events) })
unfolding record_all
record_all-last n seen [] set = rw (append-nil seen) refl
record_all-last n seen ((stamp, event) ∷ events) set =
    let e = stamped stamp event in
    let first = record_event-some (record { max_entries = n; events = last n seen }) stamp event in
    rw (first, record_one-last n seen e set)
      (record_all-last n (seen ++ e ∷ []) events set
        ∙ ap (λ xs. some (record { max_entries = n; events = last n xs }))
            (append_assoc seen (e ∷ []) (stamped_all events)))

-- Whatever is recorded with a new recorder, it shows the events in their order, each with its
-- own time or the time of its recording, and of them the last ones up to its number of entries.
pub record_all-new :
    (n : ℕ) (events : List (String × Event))
    → n ≢ 0
    → event_snapshot (record_all (new_recorder n) events) ≡ last n (stamped_all events)
unfolding new_recorder event_snapshot
record_all-new n events set =
    let made : (n == 0) ≡ false = ground arith in
    let zero_left : 0 - n ≡ 0 = omega arith in
    let start : last {A = Event} n [] ≡ [] = rw zero_left refl in
    let begun =
      subst
        (λ xs.
          record_all (some (record { max_entries = n; events = xs })) events
          ≡ some (record { max_entries = n; events = last n (stamped_all events) }))
        start (record_all-last n [] events set) in
    rw made (ap event_snapshot begun)
