-- ===== src/Execution/Stream.antt =====
-- internal/execution/dispatcher.go: `DispatchStream`, and the goroutine of `wrapStream` as a run
-- over what its selects receive, one after the other.
pub mod Once
use syrogo.Base.{
  ℕ, String, Bool, true, false, not, ◌&&◌, List, [], ◌∷◌, ◌++◌, Option, none, some, if◌then◌else◌,
  is_empty,
}
use syrogo.Runtime.{
  ExecutionPlan, ExecutionStep, Request, Usage, UsageStatus, StreamEvent, StreamEventType,
}
use syrogo.Provider.Error.{nil, plain, is_nil_error, normalize_error}
use syrogo.Execution.{
  Env, Context, Dispatcher, Clock, kind_text, normalized_usage_tokens, record_provider_error,
  record_success, record_usage, record_client_terminal_success, finalize_usage_record,
}
use syrogo.Execution.Dispatch.{Turn, Dispatched, returned, dispatch_from, last_step, step_model}

-- The arguments of `wrapStream`; `events` is the channel.
pub record OpenStream {ℓ} (A : Type ℓ) : Type ℓ where
  pub step : ExecutionStep
  pub requested_model : String
  pub fallback_count : ℕ
  pub quota_probe : Bool
  pub health_probe : Bool
  pub events : A

-- What a select receives: an event, and whether it could be sent on before the context was done;
-- the close of the channel, and whether the context had an error then; or the end of the context.
pub data StreamInput : Type 0 where
  event : StreamEvent → Bool → StreamInput
  closed : Bool → StreamInput
  cancelled : StreamInput

-- The variables of the goroutine, and what it has sent on.
pub record StreamState : Type 0 where
  pub dispatcher : Dispatcher
  pub usage : Option Usage
  pub executed_model : String
  pub recorded : Bool
  pub sent : List StreamEvent

-- The goroutine waits for its next input, or it has closed the channel behind it.
pub data StreamRun : Type 0 where
  waiting : StreamState → StreamRun
  finished : StreamState → StreamRun

abbrev is_error_type : StreamEventType → Bool
is_error_type StreamEventType.error = true
is_error_type _ = false

-- The event that ends in a usage record.
abbrev pub is_failure : StreamEvent → Bool
is_failure e = is_error_type e.event_type && not (is_nil_error e.err)

-- What the event says of the model and of the use.
unfoldable pub note_event : StreamEvent → StreamState → StreamState
note_event e st = record st {
  executed_model = if not (is_empty e.model) then e.model else st.executed_model;
  usage = elim e.usage [ none ↦ st.usage | some u ↦ some u ];
}

module _ {ℓ} {A : Type ℓ} (env : Env) (ctx : Context) (plan : ExecutionPlan) (started : ℕ)
    (o : OpenStream A) where
  unfoldable pub record_stream_error : Clock → StreamEvent → StreamState → StreamState
  unfolding normalize_error record_provider_error record_usage finalize_usage_record kind_text
  record_stream_error clock e st =
      let kind = normalize_error e.err in
      record st {
        recorded = true;
        dispatcher =
            record_usage
              (finalize_usage_record env ctx plan o.step o.requested_model st.executed_model
                st.usage UsageStatus.failed (kind_text kind) started clock.finished_at
                o.fallback_count)
              (record_provider_error env o.step.outbound_name kind clock st.dispatcher);
      }

  unfoldable pub record_stream_success : Clock → StreamState → StreamState
  unfolding record_success normalized_usage_tokens finalize_usage_record record_usage
      record_client_terminal_success
  record_stream_success clock st =
      let r =
        finalize_usage_record env ctx plan o.step o.requested_model st.executed_model st.usage
          UsageStatus.success "" started clock.finished_at o.fallback_count in
      record st {
        dispatcher = record_client_terminal_success env r clock (
            record_usage r (
              record_success env o.step.outbound_name (normalized_usage_tokens st.usage)
                o.quota_probe o.health_probe clock st.dispatcher));
      }

  -- An event up to the send.
  unfoldable pub receive_event : Clock → StreamEvent → StreamState → StreamState
  unfolding note_event record_stream_error
  receive_event clock e st =
      let noted : StreamState = note_event e st in
      if is_failure e && not st.recorded then record_stream_error clock e noted else noted

  unfoldable pub stream_step : Clock → StreamInput → StreamState → StreamRun
  unfolding receive_event record_stream_success
  stream_step clock (event e is_sent) st =
      let received : StreamState = receive_event clock e st in
      if is_sent
      then waiting (record received { sent = received.sent ++ e ∷ [] })
      else finished received
  stream_step clock (closed is_done) st =
      if is_done
      then finished st
      else if not st.recorded
      then finished (record_stream_success clock st)
      else finished st
  stream_step clock cancelled st = finished st

  unfoldable pub stream_run : List (Clock × StreamInput) → StreamState → StreamRun
  unfolding stream_step
  stream_run [] st = waiting st
  stream_run (input ∷ inputs) st = elim (stream_step input.0 input.1 st) [
    | finished st' ↦ finished st'
    | waiting st' ↦ stream_run inputs st'
  ]

  unfoldable pub wrap_stream : List (Clock × StreamInput) → Dispatcher → StreamRun
  unfolding stream_run
  wrap_stream inputs d = stream_run inputs (record {
    dispatcher = d;
    usage = none;
    executed_model = o.requested_model;
    recorded = false;
    sent = [];
  })

-- `DispatchStream`; the request that a provider is called with asks for a stream.
unfoldable pub dispatch_stream {ℓ} :
    {A : Type ℓ}
    → Env
    → Context
    → Request
    → ExecutionPlan
    → ℕ
    → (ℕ → Turn A)
    → ℕ
    → Dispatcher
    → Dispatched (Option (OpenStream A))
unfolding dispatch_from
dispatch_stream env ctx req plan started turns end d = elim plan.steps [
  | [] ↦ returned none (plain "execution plan has no steps") d
  | s ∷ steps ↦
      dispatch_from env none ctx req plan started
        (λ clock i s quota_probe health_probe events d. (
          some (record {
            step = s;
            requested_model = step_model req s;
            fallback_count = i;
            quota_probe = quota_probe;
            health_probe = health_probe;
            events = events;
          }),
          d,
        ))
        turns (last_step s steps) end 0 nil (s ∷ steps) d
]
