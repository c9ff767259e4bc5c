-- ===== src/Tests/Execution.antt =====
-- Runs of the dispatcher.
use syrogo.Base.{
  ℕ, ◌≡◌, ◌≢◌, refl, inl, inr, String, false, none, some, List, [], ◌∷◌, arith, if◌then◌else◌,
}
use syrogo.Runtime.{
  Response, other_reason, StreamEvent, StreamEventType, mock, ExecutionStep, ExecutionPlan,
}
use syrogo.Provider.Error.{Error, nil, plain, provider_error, auth_failed, retryable, is_nil_error}
use syrogo.Router.Plan.{rule_plan}
use syrogo.Router.Plan.Targets.{IsWired, new_router-IsWired}
use syrogo.Execution.{Env, Context, Dispatcher, Clock}
use syrogo.Execution.Dispatch.{Turn, Dispatched, returned, panic, dispatch, no_response}
use syrogo.Execution.Dispatch.Steps.{IsReady}
use syrogo.Execution.Dispatch.Once.{Once, dispatch-Once}
use syrogo.Execution.Dispatch.Planned.{plan-IsReady, plan-dispatch-Once}
use syrogo.Execution.Preferred.{select_preferred_error}
use syrogo.Execution.Preferred.Highest.{preferred}
use syrogo.Execution.Dispatch.Returned.{Returns, attempt_errors, dispatch-Returns}
use syrogo.Execution.Stream.{OpenStream, wrap_stream}
use syrogo.Execution.Stream.Once.{to_the_end, Streamed, wrap_stream-Streamed}
use syrogo.Tests.Router.{
  numbered, rules, providers, outbounds, router, ctx, request, planned, moved, plan-run,
  new_router-run,
}
use syrogo.Tests.Quota.{lib}

abbrev env : Env
env = record {
  time = lib;
  errorf = λ format arguments. format;
  cost_usd_with_match = λ provider model breakdown. (0, false);
  micro_usd = λ bits. bits;
}

abbrev context : Context
context = record { request_id = "r"; session_id = ""; agent = "" }

abbrev dispatcher : Dispatcher
dispatcher = record {
  store = [];
  quota_tracker = none;
  client_quota_tracker = none;
  health_tracker = none;
  event_recorder = none;
}

abbrev clock : Clock
clock = record {
  quota_at = 1;
  health_at = 1;
  record_quota_at = 2;
  record_health_at = 2;
  client_at = 2;
  finished_at = 2000001;
  stamp = "";
}

abbrev auth_error : Error
auth_error = provider_error auth_failed (plain "key") 401 "" ""

abbrev busy_error : Error
busy_error = provider_error retryable (plain "busy") 0 "" ""

-- The first outbound is busy, and the second one answers.
abbrev turns : ℕ → Turn Response
turns i = record {
  clock = clock;
  call = record {
    answer = record no_response { id = "x" };
    err = elim i [ ℕ.zero ↦ busy_error | ℕ.suc n ↦ nil ];
  };
}

planned-steps : planned.steps ≢ []
unfolding rule_plan
planned-steps e = ground (arith, e)

abbrev id_of : Dispatched Response → String
id_of panic = "panic"
id_of (returned answer err after) = if is_nil_error err then answer.id else "error"

dispatch-run : id_of (dispatch env context request planned 0 turns 9 dispatcher) ≡ "x"
unfolding dispatch rule_plan
dispatch-run = refl

plan-dispatch-Once_example :
    Once dispatcher (dispatch env context request planned 0 turns 9 dispatcher)
plan-dispatch-Once_example =
    plan-dispatch-Once router moved ctx planned env context request 0 turns 9 dispatcher wired
      plan-run planned-steps
  where
    wired : IsWired router
    wired = new_router-IsWired numbered rules providers outbounds router new_router-run

-- The first outbound is busy, and the second one fails for an unknown reason.
abbrev failing : ℕ → Turn Response
failing i = record {
  clock = clock;
  call = record {
    answer = no_response;
    err = elim i [ ℕ.zero ↦ busy_error | ℕ.suc n ↦ plain "other" ];
  };
}

dispatch-Returns_example :
    Returns
      (attempt_errors env context request planned 0 failing 0 planned.steps dispatcher)
      (dispatch env context request planned 0 failing 9 dispatcher)
dispatch-Returns_example =
    dispatch-Returns env context request planned 0 failing 9 dispatcher planned-steps (
      plan-IsReady router moved ctx planned
        (new_router-IsWired numbered rules providers outbounds router new_router-run) plan-run)

abbrev error_of : Dispatched Response → Error
error_of panic = nil
error_of (returned answer err after) = err

-- The first error is returned, which has the higher priority.
failing-run :
    (error_of (dispatch env context request planned 0 failing 9 dispatcher) ≡ busy_error)
    × (attempt_errors env context request planned 0 failing 0 planned.steps dispatcher
        ≡ busy_error ∷ plain "other" ∷ [])
unfolding dispatch rule_plan attempt_errors
failing-run = (refl, refl)

preferred-run : preferred nil (busy_error ∷ auth_error ∷ plain "other" ∷ []) ≡ auth_error
unfolding preferred select_preferred_error
preferred-run = refl

abbrev stream_event : StreamEventType → Error → StreamEvent
stream_event event_type err = record {
  event_type = event_type;
  response_id = "";
  model = "m";
  message_role = "";
  delta = none;
  tool_call = none;
  tool_call_index = 0;
  finish_reason = other_reason "";
  usage = none;
  err = err;
}

abbrev step : ExecutionStep
step = record {
  step_type = "outbound";
  outbound_name = "a";
  outbound_protocol = "mock";
  outbound_target = some (record { name = "a"; provider_type = mock });
  model = "";
  model_unavailable = false;
  on_error = "retryable";
}

abbrev one_step : ExecutionPlan
one_step = record planned { steps = step ∷ [] }

step-IsReady : IsReady step
step-IsReady = record { type_is = refl; condition = inr (inr (inl refl)); target = refl }

abbrev opened : OpenStream ℕ
opened = record {
  step = step;
  requested_model = "gpt-4";
  fallback_count = 0;
  quota_probe = false;
  health_probe = false;
  events = 0;
}

abbrev events : List (Clock × StreamEvent)
events =
    (clock, stream_event StreamEventType.message_start nil)
    ∷ (clock, stream_event StreamEventType.error busy_error)
    ∷ []

wrap_stream-Streamed_example :
    Streamed env context planned 0 opened dispatcher events
      (wrap_stream env context planned 0 opened (to_the_end events clock) dispatcher)
wrap_stream-Streamed_example =
    wrap_stream-Streamed env context planned 0 opened dispatcher events clock

dispatch-Once_example : Once dispatcher (dispatch env context request one_step 0 turns 9 dispatcher)
dispatch-Once_example =
    dispatch-Once env context request one_step 0 turns 9 dispatcher (λ e. ground (arith, e))
      (step-IsReady, tt)
