-- ===== src/EventStream.antt =====
-- internal/eventstream/model.go: events of content blocks, without the results of tools, which no
-- code builds into them. A nil pointer is `none`; copies of a block are the block.
pub mod Adapter
pub mod Blockwise
use syrogo.Base.{ℕ, String, Option, List}
use syrogo.Runtime.{FinishReason, Usage}
use syrogo.Provider.Error.{Error}

pub data EventType : Type 0 where
  message_start content_block_start content_block_delta content_block_stop : EventType
  message_delta message_stop usage error : EventType

pub data BlockType : Type 0 where
  text tool_use json thinking : BlockType

-- `no_reason` is "".
pub data StopReason : Type 0 where
  no_reason end_turn tool_use max_tokens error : StopReason

pub record ToolCallSnapshot : Type 0 where
  pub id : String
  pub name : String
  pub arguments : String

pub record ContentBlock : Type 0 where
  pub block_type : BlockType
  pub text : String
  pub data_text : String
  pub tool_call : Option ToolCallSnapshot

pub record Event : Type 0 where
  pub event_type : EventType
  pub message_id : String
  pub model : String
  pub role : String
  pub block_index : ℕ
  pub block : Option ContentBlock
  pub text_delta : String
  pub tool_call : Option ToolCallSnapshot
  pub usage : Option Usage
  pub finish_reason : StopReason
  pub err : Error

pub record ResponseSnapshot : Type 0 where
  pub id : String
  pub model : String
  pub role : String
  pub blocks : List ContentBlock
  pub finish_reason : StopReason
  pub usage : Option Usage

unfoldable pub stop_reason_from_runtime : FinishReason → StopReason
stop_reason_from_runtime FinishReason.tool_use = StopReason.tool_use
stop_reason_from_runtime FinishReason.length = max_tokens
stop_reason_from_runtime FinishReason.error = StopReason.error
stop_reason_from_runtime _ = end_turn

unfoldable pub stop_reason_to_runtime : StopReason → FinishReason
stop_reason_to_runtime StopReason.tool_use = FinishReason.tool_use
stop_reason_to_runtime max_tokens = FinishReason.length
stop_reason_to_runtime StopReason.error = FinishReason.error
stop_reason_to_runtime _ = FinishReason.end_turn
