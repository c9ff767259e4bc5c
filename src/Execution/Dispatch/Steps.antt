-- ===== src/Execution/Dispatch/Steps.antt =====
-- What one step of a dispatch leaves in the store.
use syrogo.Base.{
  ℕ, ◌≡◌, refl, sym, ap, ◌∙◌, ◌⊎◌, inl, inr, String, Bool, true, false, none, some, [], ◌∷◌, ◌++◌,
  arith, Bool-cases, Option-cases, ◌==◌, text_eq, is_some, ◌&&◌,
}
use syrogo.Runtime.{ExecutionPlan, ExecutionStep, Request, Response, UsageRecord, UsageStatus}
use syrogo.Provider.Error.{
  Error, nil, is_nil_error, new_error, normalize_error, fallback_allowed, is_quota_exceeded,
  is_recoverable, ErrorKind,
}
use syrogo.Provider.Health
use syrogo.Quota.Tracker.Admission.{before_attempt-total}
use syrogo.Execution.{
  normalized_usage_tokens, kind_text, Env, Context, Dispatcher, Clock, add_event,
  record_outbound_limited, record_provider_health_limited, record_provider_error, record_success,
  record_usage, record_client_terminal_success, finalize_usage_record,
}
use syrogo.Execution.Preferred.{select_preferred_error, model_unavailable_error}
use syrogo.Execution.Dispatch.{
  Turn, StepResult, next, stop, Admission, refused, admitted, admit_attempt, failed_step, step_body,
  after_admission, completed, no_response, step_model,
}

abbrev pub is_success : UsageStatus → Bool
is_success UsageStatus.success = true
is_success UsageStatus.failed = false

-- The trackers and the recorder of events leave the store alone.
pub record_provider_error-store :
    (env : Env) (outbound : String) (kind : ErrorKind) (clock : Clock) (d : Dispatcher)
    → (record_provider_error env outbound kind clock d).store ≡ d.store
unfolding record_provider_error add_event
record_provider_error-store env outbound kind clock d =
    elim (Bool-cases (is_some d.quota_tracker && is_quota_exceeded kind)) [
      | inl h ↦ rw h refl
      | inr h ↦ rw h refl
    ]

pub record_success-store :
    (env : Env) (outbound : String) (tokens : ℕ) (quota_probe health_probe : Bool) (clock : Clock)
    (d : Dispatcher)
    → (record_success env outbound tokens quota_probe health_probe clock d).store ≡ d.store
unfolding record_success add_event
record_success-store env outbound tokens true true clock d = refl
record_success-store env outbound tokens true false clock d = refl
record_success-store env outbound tokens false true clock d = refl
record_success-store env outbound tokens false false clock d = refl

status-cases : (s : UsageStatus) → (s ≡ UsageStatus.success) ⊎ (s ≡ UsageStatus.failed)
status-cases UsageStatus.success = inl refl
status-cases UsageStatus.failed = inr refl

pub record_client_terminal_success-store :
    (env : Env) (r : UsageRecord) (clock : Clock) (d : Dispatcher)
    → (record_client_terminal_success env r clock d).store ≡ d.store
unfolding record_client_terminal_success
record_client_terminal_success-store env r clock d = elim (status-cases r.status) [
  | inl h ↦ rw (h, record_client_terminal_success) refl
  | inr h ↦ rw (h, record_client_terminal_success) refl
]

select_preferred-set :
    (current e : Error)
    → is_nil_error e ≡ false
    → is_nil_error (select_preferred_error current e) ≡ false
unfolding select_preferred_error
select_preferred-set current e h = ground (arith, h)

pub model_unavailable_error-set :
    (env : Env) (plan : ExecutionPlan) (req : Request)
    → is_nil_error (model_unavailable_error env plan req) ≡ false
unfolding model_unavailable_error new_error
model_unavailable_error-set env plan req = ground arith

-- An answered admission, the store as before.
pub data IsAnswered (d : Dispatcher) : Admission → Type 0 where
  no :
      {e : Error} {d' : Dispatcher}
      → is_nil_error e ≡ false
      → d'.store ≡ d.store
      → IsAnswered d (refused e d')
  yes : {p q : Bool} {d' : Dispatcher} → d'.store ≡ d.store → IsAnswered d (admitted p q d')

module _ (env : Env) where
  pub admit_attempt-IsAnswered :
      (clock : Clock) (s : ExecutionStep) (d : Dispatcher)
      → IsAnswered d (admit_attempt env clock s d)
  unfolding admit_attempt new_error record_outbound_limited record_provider_health_limited add_event
  admit_attempt-IsAnswered clock s d =
      let (decision, quota, e) =
        before_attempt-total env.time clock.quota_at true d.quota_tracker s.outbound_name in
      rw (e, admit_attempt)
        (elim (Bool-cases decision.allowed) [
          | inr h ↦ rw h (no refl refl)
          | inl h ↦
              rw h
                (elim (Bool-cases
                  (Health.before_attempt d.health_tracker s.outbound_name
                    clock.health_at).0.allowed) [
                      | inr k ↦ rw k (no refl refl)
                      | inl k ↦ rw k (yes refl)
                    ])
        ])

-- A step that is passed over records no use; one that ends the dispatch records one use, as a
-- success exactly when it returns no error.
pub data IsOnce {ℓ} {R : Type ℓ} (d : Dispatcher) : StepResult R → Type ℓ where
  passes :
      {e : Error} {d' : Dispatcher}
      → is_nil_error e ≡ false
      → d'.store ≡ d.store
      → IsOnce d (next e d')
  ends :
      {answer : R} {e : Error} {d' : Dispatcher} (r : UsageRecord)
      → d'.store ≡ d.store ++ r ∷ []
      → is_success r.status ≡ is_nil_error e
      → IsOnce d (stop answer e d')

recorded-ends {ℓ} :
    {R : Type ℓ} (d d' : Dispatcher) (answer : R) (e : Error) (r : UsageRecord)
    → d'.store ≡ d.store
    → is_success r.status ≡ is_nil_error e
    → IsOnce d (stop answer e (record_usage r d'))
unfolding record_usage
recorded-ends d d' answer e r store status = ends r (ap (◌++ r ∷ []) store) status

-- The conditions under which a fallback does not panic.
abbrev pub IsCondition : String → Type 0
IsCondition c = (c ≡ "") ⊎ ((c ≡ "always") ⊎ ((c ≡ "retryable") ⊎ (c ≡ "quota_exceeded")))

pub fallback_allowed-total :
    (c : String) (kind : ErrorKind) (is_last : Bool)
    → IsCondition c
    → (b : Bool) × (fallback_allowed c kind is_last ≡ some b)
unfolding fallback_allowed
fallback_allowed-total c kind true ok = (false, refl)
fallback_allowed-total c kind false (inl e) = (is_recoverable kind, rw e refl)
fallback_allowed-total c kind false (inr (inl e)) = (is_recoverable kind, rw e refl)
fallback_allowed-total c kind false (inr (inr (inl e))) = (is_recoverable kind, rw e refl)
fallback_allowed-total c kind false (inr (inr (inr e))) = (is_quota_exceeded kind, rw e refl)

module _ {ℓ} {R : Type ℓ} (env : Env) (nothing : R) (ctx : Context) (req : Request)
    (plan : ExecutionPlan) (started : ℕ) where
  failed_step-IsOnce :
      (clock : Clock) (i : ℕ) (is_last : Bool) (last_err err : Error) (s : ExecutionStep)
      (d : Dispatcher)
      → IsCondition s.on_error
      → is_nil_error err ≡ false
      → IsOnce d (failed_step env nothing ctx req plan started clock i is_last last_err err s d)
  unfolding failed_step
  failed_step-IsOnce clock i is_last last_err err s d ok set =
      let (b, e) = fallback_allowed-total s.on_error (normalize_error err) is_last ok in
      let preferred : Error = select_preferred_error last_err err in
      let preferred_set = select_preferred-set last_err err set in
      let store = record_provider_error-store env s.outbound_name (normalize_error err) clock d in
      let r =
        finalize_usage_record env ctx plan s (step_model req s) (step_model req s) none
          UsageStatus.failed (kind_text (normalize_error preferred)) started clock.finished_at i in
      elim (Bool-cases b) [
        | inl h ↦ rw (e, h, failed_step) (passes preferred_set store)
        | inr h ↦
            rw (e, h, failed_step)
              (recorded-ends d
                (record_provider_error env s.outbound_name (normalize_error err) clock d) nothing
                preferred r store (unfold finalize_usage_record in sym preferred_set))
      ]

-- A step that the router plans, for an outbound that has its provider.
pub record IsReady (s : ExecutionStep) : Type 0 where
  pub type_is : s.step_type ≡ "outbound"
  pub condition : IsCondition s.on_error
  pub target : is_some s.outbound_target ≡ true

module _ (env : Env) (ctx : Context) (req : Request) (plan : ExecutionPlan) (started : ℕ) where
  completed-IsOnce :
      (clock : Clock) (i : ℕ) (s : ExecutionStep) (p q : Bool) (resp : Response) (d₀ d : Dispatcher)
      → d.store ≡ d₀.store
      → let done = completed env ctx req plan started clock i s p q resp d in
        IsOnce d₀ (stop done.0 nil done.1)
  unfolding completed record_usage
  completed-IsOnce clock i s p q resp d₀ d same =
      let r =
        finalize_usage_record env ctx plan s (step_model req s) resp.model resp.usage
          UsageStatus.success "" started clock.finished_at i in
      let told : Dispatcher =
        record_success env s.outbound_name (normalized_usage_tokens resp.usage) p q clock d in
      ends r
        (record_client_terminal_success-store env r clock (record_usage r told)
          ∙ ap (◌++ r ∷ []) (
              record_success-store env s.outbound_name (normalized_usage_tokens resp.usage) p q
                clock d
              ∙ same))
        (unfold finalize_usage_record in refl)

  IsOnce-store :
      (d d' : Dispatcher) (x : StepResult Response) → d'.store ≡ d.store → IsOnce d' x → IsOnce d x
  IsOnce-store d d' x same (passes set e) = passes set (e ∙ same)
  IsOnce-store d d' x same (ends r e status) = ends r (e ∙ ap (◌++ r ∷ []) same) status

  answered-IsOnce :
      (turn : Turn Response) (i : ℕ) (is_last : Bool) (last_err : Error) (s : ExecutionStep)
      (d : Dispatcher) (a : Admission)
      → IsCondition s.on_error
      → IsAnswered d a
      → IsOnce d (
          after_admission env no_response ctx req plan started
            (completed env ctx req plan started)
            turn
            i
            is_last
            last_err
            s
            a)
  unfolding after_admission
  answered-IsOnce turn i is_last last_err s d a ok (no {e} {d'} set same) =
      passes (select_preferred-set last_err e set) same
  answered-IsOnce turn i is_last last_err s d a ok (yes {p} {q} {d'} same) =
      elim (Bool-cases (is_nil_error turn.call.err)) [
        | inl h ↦
            rw (h, after_admission) (completed-IsOnce turn.clock i s p q turn.call.answer d d' same)
        | inr h ↦
            rw (h, after_admission)
              (IsOnce-store d d'
                (failed_step env no_response ctx req plan started turn.clock i is_last last_err
                  turn.call.err s d')
                same
                (failed_step-IsOnce env no_response ctx req plan started turn.clock i is_last
                  last_err turn.call.err s d' ok h))
      ]

  pub step_body-IsOnce :
      (turn : Turn Response) (i : ℕ) (is_last : Bool) (last_err : Error) (s : ExecutionStep)
      (d : Dispatcher)
      → IsReady s
      → IsOnce d (
          step_body env no_response ctx req plan started
            (completed env ctx req plan started)
            turn
            i
            is_last
            last_err
            s
            d)
  unfolding step_body
  step_body-IsOnce turn i is_last last_err s d ready =
      let outbound : (s.step_type == "outbound") ≡ true = rw ready.type_is refl in
      elim (Bool-cases s.model_unavailable) [
        | inl h ↦
            rw (outbound, h)
              (passes
                (select_preferred-set last_err (model_unavailable_error env plan req)
                  (model_unavailable_error-set env plan req))
                refl)
        | inr h ↦ elim (Option-cases s.outbound_target) [
          | inl missing ↦ let bad : false ≡ true = rw missing at ready.target in ground arith
          | inr (target, found) ↦
              rw (outbound, h, found, step_body)
                (answered-IsOnce turn i is_last last_err s d (admit_attempt env turn.clock s d)
                  ready.condition (admit_attempt-IsAnswered env turn.clock s d))
        ]
      ]

  pub IsOnce-cases :
      (d : Dispatcher) (x : StepResult Response)
      → IsOnce d x
      → ((e : Error) × (d' : Dispatcher) × (x ≡ next e d')
          × (is_nil_error e ≡ false)
          × (d'.store ≡ d.store))
        ⊎ ((answer : Response) × (e : Error) × (d' : Dispatcher) × (r : UsageRecord) × (x
              ≡ stop answer e d')
            × (d'.store ≡ d.store ++ r ∷ [])
            × (is_success r.status ≡ is_nil_error e))
  IsOnce-cases d x (passes {e} {d'} set same) = inl (e, d', refl, set, same)
  IsOnce-cases d x (ends {answer} {e} {d'} r store status) =
      inr (answer, e, d', r, refl, store, status)
