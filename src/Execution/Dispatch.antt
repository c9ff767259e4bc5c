-- ===== src/Execution/Dispatch.antt =====
-- internal/execution/dispatcher.go: `Dispatch`, and `DispatchStream` up to the stream, whose loops
-- are the same but for what a successful call gives. What the provider answers at a step, if it is
-- called, is given with the readings of the clock during that step.
pub mod Steps
pub mod Once
pub mod Planned
pub mod Returned
use syrogo.Base.{
  ℕ, suc, ◌-◌, String, Bool, true, false, not, Option, none, some, if◌then◌else◌, ◌==◌, text_eq,
  is_empty, List, [], ◌∷◌, is_nil,
}
use syrogo.Runtime.{
  ExecutionPlan, ExecutionStep, Request, Response, Message, FinishReason, other_reason, Usage,
  UsageRecord, UsageStatus,
}
use syrogo.Provider.Error.{
  Error, nil, plain, is_nil_error, new_error, quota_exceeded, retryable, normalize_error,
  fallback_allowed,
}
use syrogo.Provider.Health
use syrogo.Quota.Tracker.{before_attempt}
use syrogo.Execution.{
  Env, Context, Dispatcher, Clock, kind_text, quota_reason_text, health_reason_text,
  normalized_usage_tokens, record_outbound_limited, record_provider_health_limited,
  record_provider_error, record_success, record_usage, record_client_terminal_success,
  finalize_usage_record,
}
use syrogo.Execution.Preferred.{select_preferred_error, model_unavailable_error}

abbrev pub no_message : Message
no_message = record {
  role = "";
  parts = [];
  tool_calls = [];
  tool_call_id = "";
  tool_call_type = "";
  tool_result_is_error = false;
}

-- `runtime.Response{}`.
abbrev pub no_response : Response
no_response = record {
  id = "";
  object = "";
  model = "";
  message = no_message;
  finish_reason = other_reason "";
  usage = none;
}

-- What `ChatCompletion` or `StreamCompletion` returns: an answer and an error, nil on success.
pub record Call {ℓ} (A : Type ℓ) : Type ℓ where
  pub answer : A
  pub err : Error

-- What happens around a step: the readings of the clock and what its provider would return.
pub record Turn {ℓ} (A : Type ℓ) : Type ℓ where
  pub clock : Clock
  pub call : Call A

-- A step is passed over with the preferred error, or it ends the dispatch.
pub data StepResult {ℓ} (R : Type ℓ) : Type ℓ where
  next : Error → Dispatcher → StepResult R
  stop : R → Error → Dispatcher → StepResult R
  crash : StepResult R

-- Whether both trackers let an attempt pass, and which of them calls it a probe.
pub data Admission : Type 0 where
  refused : Error → Dispatcher → Admission
  admitted : Bool → Bool → Dispatcher → Admission
  panicked : Admission

-- A dispatch returns an answer and an error, or it panics.
pub data Dispatched {ℓ} (R : Type ℓ) : Type ℓ where
  returned : R → Error → Dispatcher → Dispatched R
  panic : Dispatched R

abbrev pub is_none_left : List ExecutionStep → Bool
is_none_left [] = true
is_none_left (s ∷ steps) = false

abbrev pub last_step : ExecutionStep → List ExecutionStep → ExecutionStep
last_step s [] = s
last_step s (t ∷ steps) = last_step t steps

-- `stepReq.Model`.
abbrev pub step_model : Request → ExecutionStep → String
step_model req s = if not (is_empty s.model) then s.model else req.model

module _ (env : Env) where
  unfoldable pub admit_attempt : Clock → ExecutionStep → Dispatcher → Admission
  unfolding before_attempt Health.before_attempt record_outbound_limited
      record_provider_health_limited new_error quota_reason_text health_reason_text
  admit_attempt clock s d =
      elim (before_attempt env.time true d.quota_tracker s.outbound_name clock.quota_at) [
        | none ↦ panicked
        | some (decision, quota) ↦
            let d₁ : Dispatcher = record d { quota_tracker = quota } in
            elim decision.allowed [
              | false ↦
                  refused
                    (new_error quota_exceeded (
                      plain (
                        env.errorf "outbound %q quota %s"
                          (s.outbound_name ∷ quota_reason_text decision.reason ∷ []))))
                    (record_outbound_limited env s.outbound_name decision clock d₁)
              | true ↦
                  let (health_decision, health) =
                    Health.before_attempt d₁.health_tracker s.outbound_name clock.health_at in
                  let d₂ : Dispatcher = record d₁ { health_tracker = health } in
                  elim health_decision.allowed [
                    | false ↦
                        refused
                          (new_error retryable (
                            plain (
                              env.errorf "outbound %q health %s" (
                                s.outbound_name ∷ health_reason_text health_decision.reason ∷ []))))
                          (record_provider_health_limited env s.outbound_name health_decision clock
                            d₂)
                    | true ↦ admitted decision.probe health_decision.probe d₂
                  ]
            ]
      ]

  module _ {ℓ} {R : Type ℓ} (nothing : R) (ctx : Context) (req : Request) (plan : ExecutionPlan)
      (started : ℕ) where
    -- The failure of a call.
    unfoldable pub failed_step :
        Clock → ℕ → Bool → Error → Error → ExecutionStep → Dispatcher → StepResult R
    unfolding select_preferred_error normalize_error record_provider_error fallback_allowed
        record_usage finalize_usage_record kind_text
    failed_step clock i is_last last_err err s d =
        let preferred : Error = select_preferred_error last_err err in
        let kind = normalize_error err in
        let d₁ : Dispatcher = record_provider_error env s.outbound_name kind clock d in
        elim (fallback_allowed s.on_error kind is_last) [
          | none ↦ crash
          | some true ↦ next preferred d₁
          | some false ↦ stop nothing preferred (
              record_usage
                (finalize_usage_record env ctx plan s (step_model req s) (step_model req s) none
                  UsageStatus.failed (kind_text (normalize_error preferred)) started
                  clock.finished_at i)
                d₁)
        ]

  module _ {ℓ} {A : Type ℓ} {R : Type ℓ} (nothing : R) (ctx : Context) (req : Request)
      (plan : ExecutionPlan) (started : ℕ) where
    -- The rest of the body, once the trackers were asked; `succeed` is what follows a call
    -- without an error.
    unfoldable pub after_admission :
        (Clock → ℕ → ExecutionStep → Bool → Bool → A → Dispatcher → R × Dispatcher)
        → Turn A
        → ℕ
        → Bool
        → Error
        → ExecutionStep
        → Admission
        → StepResult R
    unfolding failed_step select_preferred_error
    after_admission succeed turn i is_last last_err s panicked = crash
    after_admission succeed turn i is_last last_err s (refused e d) =
        next (select_preferred_error last_err e) d
    after_admission succeed turn i is_last last_err s (admitted quota_probe health_probe d) =
        elim (is_nil_error turn.call.err) [
          | true ↦
              let done = succeed turn.clock i s quota_probe health_probe turn.call.answer d in
              stop done.0 nil done.1
          | false ↦
              failed_step nothing ctx req plan started turn.clock i is_last last_err turn.call.err s
                d
        ]

    -- The body of the loop.
    unfoldable pub step_body :
        (Clock → ℕ → ExecutionStep → Bool → Bool → A → Dispatcher → R × Dispatcher)
        → Turn A
        → ℕ
        → Bool
        → Error
        → ExecutionStep
        → Dispatcher
        → StepResult R
    unfolding admit_attempt after_admission select_preferred_error model_unavailable_error
    step_body succeed turn i is_last last_err s d =
        if not (s.step_type == "outbound")
        then stop nothing
            (plain (env.errorf "unsupported execution step type %q" (s.step_type ∷ []))) d
        else if s.model_unavailable
        then next (select_preferred_error last_err (model_unavailable_error env plan req)) d
        else elim s.outbound_target [
          | none ↦ stop nothing (plain "outbound target is required") d
          | some target ↦
              after_admission succeed turn i is_last last_err s (admit_attempt turn.clock s d)
        ]

    -- The loop over the steps from the `i`th on, and what follows it.
    unfoldable pub dispatch_from :
        (Clock → ℕ → ExecutionStep → Bool → Bool → A → Dispatcher → R × Dispatcher)
        → (ℕ → Turn A)
        → ExecutionStep
        → ℕ
        → ℕ
        → Error
        → List ExecutionStep
        → Dispatcher
        → Dispatched R
    unfolding step_body record_usage finalize_usage_record kind_text normalize_error
    dispatch_from succeed turns last finished i last_err [] d = returned nothing last_err (
        record_usage
          (finalize_usage_record env ctx plan last req.model req.model none UsageStatus.failed
            (kind_text (normalize_error last_err)) started finished (i - 1))
          d)
    dispatch_from succeed turns last finished i last_err (s ∷ steps) d =
        elim (step_body succeed (turns i) i (is_none_left steps) last_err s d) [
          | crash ↦ panic
          | stop answer err d₁ ↦ returned answer err d₁
          | next err d₁ ↦ dispatch_from succeed turns last finished (suc i) err steps d₁
        ]

  -- `Dispatch` on a call that succeeded.
  unfoldable pub completed :
      Context
      → Request
      → ExecutionPlan
      → ℕ
      → Clock
      → ℕ
      → ExecutionStep
      → Bool
      → Bool
      → Response
      → Dispatcher
      → Response × Dispatcher
  unfolding record_success normalized_usage_tokens finalize_usage_record record_usage
      record_client_terminal_success
  completed ctx req plan started clock i s quota_probe health_probe resp d =
      let r =
        finalize_usage_record env ctx plan s (step_model req s) resp.model resp.usage
          UsageStatus.success "" started clock.finished_at i in
      (
        resp,
        record_client_terminal_success env r clock (
            record_usage r (
              record_success env s.outbound_name (normalized_usage_tokens resp.usage) quota_probe
                health_probe clock d)),
      )

  -- `finished` is the reading of the clock behind the loop.
  unfoldable pub dispatch :
      Context
      → Request
      → ExecutionPlan
      → ℕ
      → (ℕ → Turn Response)
      → ℕ
      → Dispatcher
      → Dispatched Response
  unfolding dispatch_from completed
  dispatch ctx req plan started turns finished d = elim plan.steps [
    | [] ↦ returned no_response (plain "execution plan has no steps") d
    | s ∷ steps ↦
        dispatch_from no_response ctx req plan started (completed ctx req plan started) turns
          (last_step s steps) finished 0 nil (s ∷ steps) d
  ]
