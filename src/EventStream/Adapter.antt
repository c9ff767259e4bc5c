-- ===== src/EventStream/Adapter.antt =====
-- internal/eventstream/adapter.go: a response as events, and the response that events make up.
pub mod Blocks
pub mod RoundTrip
use syrogo.Base.{
  ℕ, suc, ◌+◌, String, Bool, true, false, not, ◌&&◌, ◌||◌, List, [], ◌∷◌, ◌++◌, map, Option, none,
  some, if◌then◌else◌, ◌==◌, nat_eq, is_empty, length,
}
use syrogo.Base.Map.{Map, lookup, insert}
use syrogo.Runtime.{Response, ContentPart, ContentPartType, ToolCall, Usage}
use syrogo.Provider.Error.{nil}
use syrogo.Router.Order.{contains}
use syrogo.EventStream.{
  Event, EventType, message_start, content_block_start, content_block_delta, content_block_stop,
  message_delta, message_stop, BlockType, StopReason, ContentBlock, ToolCallSnapshot,
  ResponseSnapshot, stop_reason_from_runtime,
}

-- The fields that every event of a response has.
abbrev pub response_event : Response → EventType → Event
response_event r event_type = record {
  event_type = event_type;
  message_id = r.id;
  model = r.model;
  role = r.message.role;
  block_index = 0;
  block = none;
  text_delta = "";
  tool_call = none;
  usage = none;
  finish_reason = StopReason.no_reason;
  err = nil;
}

unfoldable pub block_of_part : ContentPart → ContentBlock
block_of_part p = elim p.part_type [
  | ContentPartType.json ↦ record {
    block_type = BlockType.json;
    text = "";
    data_text = p.raw;
    tool_call = none;
  }
  | ContentPartType.text ↦ record {
    block_type = BlockType.text;
    text = p.text;
    data_text = "";
    tool_call = none;
  }
]

unfoldable pub block_of_call : ToolCall → ContentBlock
block_of_call c = record {
  block_type = BlockType.tool_use;
  text = "";
  data_text = "";
  tool_call = some (record { id = c.id; name = c.name; arguments = c.arguments });
}

-- The start, the delta and the stop of a block.
unfoldable pub block_events : Response → ℕ → ContentBlock → List Event
block_events r i b =
    record (response_event r content_block_start) { block_index = i; block = some b }
    ∷ record (response_event r content_block_delta) {
      block_index = i;
      block = some b;
      text_delta = b.text;
      tool_call = b.tool_call;
    }
    ∷ record (response_event r content_block_stop) { block_index = i }
    ∷ []

-- The two loops, over the blocks that they build.
unfoldable pub all_block_events : Response → ℕ → List ContentBlock → List Event
unfolding block_events
all_block_events r i [] = []
all_block_events r i (b ∷ blocks) = block_events r i b ++ all_block_events r (suc i) blocks

abbrev pub blocks_of : Response → List ContentBlock
blocks_of r = map block_of_part r.message.parts ++ map block_of_call r.message.tool_calls

abbrev pub closing_events : Response → List Event
closing_events r =
    (elim r.usage [
      | none ↦ []
      | some u ↦ record (response_event r EventType.usage) { usage = some u } ∷ []
    ])
    ++ record (response_event r message_delta) {
      finish_reason = stop_reason_from_runtime r.finish_reason;
      usage = r.usage;
    }
      ∷ record (response_event r message_stop) {
        finish_reason = stop_reason_from_runtime r.finish_reason;
      }
      ∷ []

unfoldable pub events_from_runtime_response : Response → List Event
unfolding all_block_events block_of_part block_of_call stop_reason_from_runtime
events_from_runtime_response r =
    response_event r message_start ∷ all_block_events r 0 (blocks_of r) ++ closing_events r

-- The variables of `SnapshotFromEvents`.
pub record SnapshotState : Type 0 where
  pub snapshot : ResponseSnapshot
  pub blocks : Map ℕ ContentBlock
  pub order : List ℕ
  pub seen : List ℕ

abbrev pub or_text : String → String → String
or_text old new = if is_empty old && not (is_empty new) then new else old

abbrev pub is_usage : EventType → Bool
is_usage EventType.usage = true
is_usage _ = false

abbrev pub is_closing : EventType → Bool
is_closing message_delta = true
is_closing message_stop = true
is_closing _ = false

abbrev pub or_reason : StopReason → StopReason → StopReason
or_reason old StopReason.no_reason = old
or_reason old new = new

abbrev pub or_usage : Option Usage → Option Usage → Option Usage
or_usage old none = old
or_usage old (some u) = some u

unfoldable pub snapshot_step : SnapshotState → Event → SnapshotState
unfolding insert
snapshot_step st e =
    let s : ResponseSnapshot = st.snapshot in
    record {
      snapshot = record s {
        id = or_text s.id e.message_id;
        model = or_text s.model e.model;
        role = or_text s.role e.role;
        finish_reason =
            if is_closing e.event_type
            then or_reason s.finish_reason e.finish_reason
            else s.finish_reason;
        usage =
            if is_usage e.event_type || is_closing e.event_type
            then or_usage s.usage e.usage
            else s.usage;
      };
      blocks = elim e.block [ none ↦ st.blocks | some b ↦ insert e.block_index b st.blocks ];
      order = elim e.block [
        | none ↦ st.order
        | some b ↦
            if contains st.seen e.block_index then st.order else st.order ++ e.block_index ∷ []
      ];
      seen = elim e.block [
        | none ↦ st.seen
        | some b ↦ if contains st.seen e.block_index then st.seen else e.block_index ∷ st.seen
      ];
    }

unfoldable pub snapshot_run : SnapshotState → List Event → SnapshotState
unfolding snapshot_step
snapshot_run st [] = st
snapshot_run st (e ∷ events) = snapshot_run (snapshot_step st e) events

abbrev pub empty_block : ContentBlock
empty_block = record { block_type = BlockType.text; text = ""; data_text = ""; tool_call = none }

-- `blocks[idx]`; each index of the order has a block.
unfoldable pub block_at : Map ℕ ContentBlock → ℕ → ContentBlock
unfolding lookup
block_at blocks i = elim (lookup i blocks) [ none ↦ empty_block | some b ↦ b ]

abbrev pub empty_state : SnapshotState
empty_state = record {
  snapshot = record {
    id = "";
    model = "";
    role = "";
    blocks = [];
    finish_reason = StopReason.no_reason;
    usage = none;
  };
  blocks = [];
  order = [];
  seen = [];
}

unfoldable pub snapshot_from_events : List Event → ResponseSnapshot
unfolding snapshot_run block_at
snapshot_from_events events =
    let st : SnapshotState = snapshot_run empty_state events in
    record st.snapshot { blocks = map (block_at st.blocks) st.order }
