-- ===== src/EventStream/Blockwise.antt =====
-- internal/eventstream/stream.go: a stream of runtime events as events of content blocks. The
-- channels are the lists of what passes through them; a text block that is not open is `none`.
pub mod Brackets
use syrogo.Base.{
  ℕ, suc, String, Bool, true, false, List, [], ◌∷◌, ◌++◌, map, Option, none, some, nat_eq,
}
use syrogo.Base.Map.{Map, lookup, insert}
use syrogo.Runtime.{StreamEvent, StreamEventType, ContentPart, ContentPartType, ToolCall}
use syrogo.Provider.Error.{nil}
use syrogo.EventStream.{
  Event, EventType, BlockType, StopReason, ContentBlock, ToolCallSnapshot, stop_reason_from_runtime,
}

pub record BlockState : Type 0 where
  pub text_block : Option ℕ
  pub next_block : ℕ
  pub tool_blocks : Map ℕ ℕ

abbrev pub no_blocks : BlockState
no_blocks = record { text_block = none; next_block = 0; tool_blocks = [] }

-- The fields that every event takes over.
abbrev pub stream_event : StreamEvent → EventType → Event
stream_event e event_type = record {
  event_type = event_type;
  message_id = e.response_id;
  model = e.model;
  role = e.message_role;
  block_index = 0;
  block = none;
  text_delta = "";
  tool_call = none;
  usage = none;
  finish_reason = StopReason.no_reason;
  err = nil;
}

abbrev pub block_event : StreamEvent → EventType → ℕ → Option ContentBlock → Event
block_event e event_type i b = record (stream_event e event_type) { block_index = i; block = b }

abbrev pub stop_event : StreamEvent → ℕ → Event
stop_event e i = block_event e EventType.content_block_stop i none

unfoldable pub stop_text : StreamEvent → Option ℕ → List Event
stop_text e none = []
stop_text e (some i) = stop_event e i ∷ []

abbrev text_of : String → ContentBlock
text_of s = record { block_type = BlockType.text; text = s; data_text = ""; tool_call = none }

abbrev json_of : String → ContentBlock
json_of s = record { block_type = BlockType.json; text = ""; data_text = s; tool_call = none }

abbrev tool_of : ToolCall → String → ContentBlock
tool_of c arguments = record {
  block_type = BlockType.tool_use;
  text = "";
  data_text = "";
  tool_call = some (record { id = c.id; name = c.name; arguments = arguments });
}

unfoldable pub json_part : StreamEvent → ContentPart → BlockState → List Event × BlockState
unfolding stop_text
json_part e p st =
    let i : ℕ = st.next_block in
    (
      stop_text e st.text_block
          ++ block_event e EventType.content_block_start i (some (json_of p.raw))
            ∷ block_event e EventType.content_block_delta i (some (json_of p.raw))
            ∷ stop_event e i
            ∷ [],
      record st { text_block = none; next_block = suc i },
    )

abbrev text_delta_event : StreamEvent → ContentPart → ℕ → Event
text_delta_event e p i =
    record (block_event e EventType.content_block_delta i (some (text_of p.text))) {
      text_delta = p.text;
    }

unfoldable pub text_part : StreamEvent → ContentPart → BlockState → List Event × BlockState
text_part e p st = elim st.text_block [
  | some i ↦ (text_delta_event e p i ∷ [], st)
  | none ↦ (
    block_event e EventType.content_block_start st.next_block (some (text_of ""))
        ∷ text_delta_event e p st.next_block
        ∷ [],
    record st { text_block = some st.next_block; next_block = suc st.next_block },
  )
]

unfoldable pub delta_part : StreamEvent → BlockState → List Event × BlockState
unfolding json_part text_part
delta_part e st = elim e.delta [
  | none ↦ ([], st)
  | some p ↦ elim p.part_type [
    | ContentPartType.json ↦ json_part e p st
    | ContentPartType.text ↦ text_part e p st
  ]
]

abbrev tool_delta_event : StreamEvent → ToolCall → ℕ → Event
tool_delta_event e c i =
    record (block_event e EventType.content_block_delta i (some (tool_of c c.arguments))) {
      tool_call = some (record { id = c.id; name = c.name; arguments = c.arguments });
    }

unfoldable pub tool_part : StreamEvent → BlockState → List Event × BlockState
unfolding stop_text lookup insert
tool_part e st = elim e.tool_call [
  | none ↦ ([], st)
  | some c ↦ elim (lookup e.tool_call_index st.tool_blocks) [
    | some i ↦
        (stop_text e st.text_block ++ tool_delta_event e c i ∷ [], record st { text_block = none })
    | none ↦ (
      stop_text e st.text_block
          ++ block_event e EventType.content_block_start st.next_block (some (tool_of c ""))
            ∷ tool_delta_event e c st.next_block
            ∷ [],
      record {
        text_block = none;
        next_block = suc st.next_block;
        tool_blocks = insert e.tool_call_index st.next_block st.tool_blocks;
      },
    )
  ]
]

unfoldable pub closing : StreamEvent → List Event
unfolding stop_reason_from_runtime
closing e =
    record (stream_event e EventType.message_delta) {
      finish_reason = stop_reason_from_runtime e.finish_reason;
      usage = e.usage;
    }
    ∷ record (stream_event e EventType.message_stop) {
      finish_reason = stop_reason_from_runtime e.finish_reason;
    }
    ∷ []

-- The order of the tool blocks is that of a `range` over their map.
unfoldable pub end_part : StreamEvent → BlockState → List Event × BlockState
unfolding stop_text closing
end_part e st = (
  stop_text e st.text_block ++ (map (λ (t : ℕ × ℕ). stop_event e t.1) st.tool_blocks ++ closing e),
  record st { text_block = none; tool_blocks = [] },
)

unfoldable pub block_step : StreamEvent → BlockState → List Event × BlockState
unfolding delta_part tool_part end_part
block_step e st = elim e.event_type [
  | StreamEventType.message_start ↦ (stream_event e EventType.message_start ∷ [], st)
  | StreamEventType.content_delta ↦
      let first = delta_part e st in
      let second = tool_part e first.1 in (first.0 ++ second.0, second.1)
  | StreamEventType.usage ↦ (record (stream_event e EventType.usage) { usage = e.usage } ∷ [], st)
  | StreamEventType.message_end ↦ end_part e st
  | StreamEventType.error ↦ (record (stream_event e EventType.error) { err = e.err } ∷ [], st)
  | StreamEventType.other_event name ↦ ([], st)
]

unfoldable pub block_run : List StreamEvent → BlockState → List Event × BlockState
unfolding block_step
block_run [] st = ([], st)
block_run (e ∷ events) st =
    let rest = block_run events (block_step e st).1 in ((block_step e st).0 ++ rest.0, rest.1)

unfoldable pub event_stream_from_runtime : List StreamEvent → List Event
unfolding block_run
event_stream_from_runtime events = (block_run events no_blocks).0
