-- ===== src/Runtime.antt =====
-- internal/runtime/runtime.go: the neutral request, response, stream and plan types. A
-- `json.RawMessage` is a text, "" where it is nil. A completion provider is known by its name and
-- its concrete type; what a call of it returns is given where the call is made.
use Prim.Native.Char.{code}
use syrogo.Base.{ℕ, String, Bool, Option, List, [], ◌∷◌}
use syrogo.Provider.Error.{Error}

-- The code points of a text. `String` has its own `[]` and `∷`.
abbrev pub codes : String → List ℕ
codes String.[] = []
codes (String.◌∷◌ c s) = code c ∷ codes s

pub data ContentPartType : Type 0 where
  text json : ContentPartType

pub record ContentPart : Type 0 where
  pub part_type : ContentPartType
  pub text : String
  pub raw : String

pub record ToolCall : Type 0 where
  pub id : String
  pub call_type : String
  pub name : String
  pub arguments : String
  pub input : String

pub record Message : Type 0 where
  pub role : String
  pub parts : List ContentPart
  pub tool_calls : List ToolCall
  pub tool_call_id : String
  pub tool_call_type : String
  pub tool_result_is_error : Bool

pub record ToolDefinition : Type 0 where
  pub tool_type : String
  pub name : String
  pub description : String
  pub input_schema : String
  pub format : String
  pub raw : String

pub record Request : Type 0 where
  pub model : String
  pub system : String
  pub max_tokens : ℕ
  pub messages : List Message
  pub tools : List ToolDefinition
  pub tool_choice : String
  pub stream : Bool
  pub previous_response_id : String
  pub metadata : String
  pub thinking_type : String
  pub context_management : String
  pub output_effort : String

pub record Usage : Type 0 where
  pub input_tokens : ℕ
  pub output_tokens : ℕ
  pub cached_input_read_tokens : ℕ
  pub cached_input_write_tokens : ℕ
  pub total_tokens : ℕ
  pub source : String

pub data FinishReason : Type 0 where
  stop length error tool_use end_turn : FinishReason
  other_reason : String → FinishReason

pub record Response : Type 0 where
  pub id : String
  pub object : String
  pub model : String
  pub message : Message
  pub finish_reason : FinishReason
  pub usage : Option Usage

pub data StreamEventType : Type 0 where
  message_start content_delta message_end usage error : StreamEventType
  other_event : String → StreamEventType

pub record StreamEvent : Type 0 where
  pub event_type : StreamEventType
  pub response_id : String
  pub model : String
  pub message_role : String
  pub delta : Option ContentPart
  pub tool_call : Option ToolCall
  pub tool_call_index : ℕ
  pub finish_reason : FinishReason
  pub usage : Option Usage
  pub err : Error

-- The concrete types that `providerProtocol` tells apart.
pub data ProviderType : Type 0 where
  mock openai_compatible anthropic_messages other_type : ProviderType

pub record CompletionProvider : Type 0 where
  pub name : String
  pub provider_type : ProviderType

pub record RouteContext : Type 0 where
  pub request : Request
  pub client_name : String
  pub inbound_name : String
  pub inbound_protocol : String
  pub active_tag : String

pub record ExecutionStep : Type 0 where
  pub step_type : String
  pub outbound_name : String
  pub outbound_protocol : String
  pub outbound_target : Option CompletionProvider
  pub model : String
  pub model_unavailable : Bool
  pub on_error : String

pub record ExecutionPlan : Type 0 where
  pub client_name : String
  pub inbound_name : String
  pub inbound_protocol : String
  pub active_tag : String
  pub requested_model : String
  pub matched_rule : String
  pub strategy : String
  pub resolved_to_tags : List String
  pub steps : List ExecutionStep

-- Without the tool units, which no code under internal/ sets.
pub record UsageBreakdown : Type 0 where
  pub request_count : ℕ
  pub input_tokens : ℕ
  pub output_tokens : ℕ
  pub cached_input_read_tokens : ℕ
  pub cached_input_write_tokens : ℕ
  pub total_tokens : ℕ

pub data UsageStatus : Type 0 where
  success failed : UsageStatus

-- A floating-point number is the number of its bits.
pub record UsageRecord : Type 0 where
  pub request_id : String
  pub client_name : String
  pub inbound_name : String
  pub inbound_protocol : String
  pub active_tag : String
  pub matched_rule : String
  pub strategy : String
  pub outbound_name : String
  pub outbound_protocol : String
  pub provider_name : String
  pub requested_model : String
  pub executed_model : String
  pub usage_source : String
  pub status : UsageStatus
  pub error_kind : String
  pub session_id : String
  pub agent : String
  pub cost_usd : ℕ
  pub priced : Bool
  pub breakdown : UsageBreakdown
  pub started_at : ℕ
  pub finished_at : ℕ
  pub latency_ms : ℕ
  pub fallback_count : ℕ
