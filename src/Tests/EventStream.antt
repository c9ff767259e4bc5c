-- ===== src/Tests/EventStream.antt =====
-- Runs of the adapter between responses and events, and of the translation of a stream.
use syrogo.Base.{◌+◌, ◌≡◌, refl, false, List, [], ◌∷◌, Option, none, some}
use syrogo.Runtime.{
  Response, ContentPart, ContentPartType, ToolCall, FinishReason, StreamEvent, StreamEventType,
}
use syrogo.Provider.Error.{nil}
use syrogo.EventStream.{stop_reason_from_runtime}
use syrogo.EventStream.Adapter.{blocks_of, events_from_runtime_response, snapshot_from_events}
use syrogo.EventStream.Adapter.RoundTrip.{snapshot_from_events-response}
use syrogo.EventStream.Blockwise.{no_blocks, block_run, event_stream_from_runtime}
use syrogo.EventStream.Blockwise.Brackets.{
  started, stops, count_up, open_blocks, event_stream-Brackets,
}

abbrev response : Response
response = record {
  id = "r1";
  object = "";
  model = "m";
  message = record {
    role = "assistant";
    parts = record { part_type = ContentPartType.text; text = "hello"; raw = "" } ∷ [];
    tool_calls =
        record { id = "t1"; call_type = ""; name = "run"; arguments = "{}"; input = "" } ∷ [];
    tool_call_id = "";
    tool_call_type = "";
    tool_result_is_error = false;
  };
  finish_reason = FinishReason.tool_use;
  usage = none;
}

snapshot-run :
    (snapshot_from_events (events_from_runtime_response response)).blocks ≡ blocks_of response
unfolding snapshot_from_events events_from_runtime_response
snapshot-run = refl

snapshot_from_events-response_example :
    snapshot_from_events (events_from_runtime_response response) ≡ record {
      id = "r1";
      model = "m";
      role = "assistant";
      blocks = blocks_of response;
      finish_reason = stop_reason_from_runtime FinishReason.tool_use;
      usage = none;
    }
snapshot_from_events-response_example = snapshot_from_events-response response

abbrev streamed : StreamEventType → Option ContentPart → Option ToolCall → StreamEvent
streamed event_type delta tool_call = record {
  event_type = event_type;
  response_id = "r1";
  model = "m";
  message_role = "assistant";
  delta = delta;
  tool_call = tool_call;
  tool_call_index = 0;
  finish_reason = FinishReason.tool_use;
  usage = none;
  err = nil;
}

abbrev stream : List StreamEvent
stream =
    streamed StreamEventType.message_start none none
    ∷ streamed StreamEventType.content_delta
        (some (record { part_type = ContentPartType.text; text = "hel"; raw = "" })) none
    ∷ streamed StreamEventType.content_delta
        (some (record { part_type = ContentPartType.text; text = "lo"; raw = "" })) none
    ∷ streamed StreamEventType.content_delta none
        (some (record { id = "t1"; call_type = ""; name = "run"; arguments = "{}"; input = "" }))
    ∷ streamed StreamEventType.message_end none none
    ∷ []

stream-run : started (event_stream_from_runtime stream) ≡ 0 ∷ 1 ∷ []
unfolding event_stream_from_runtime
stream-run = refl

event_stream-Brackets_example :
    started (event_stream_from_runtime stream)
    ≡ count_up 0
        (stops (event_stream_from_runtime stream) + open_blocks (block_run stream no_blocks).1)
event_stream-Brackets_example = event_stream-Brackets stream
