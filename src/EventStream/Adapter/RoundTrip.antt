-- ===== src/EventStream/Adapter/RoundTrip.antt =====
-- A response comes back from the events that it is turned into.
use syrogo.Base.{
  ℕ, ◌≡◌, refl, ap, ◌∙◌, ◌||◌, List, [], ◌++◌, map, Option, none, some, if◌then◌else◌, nat_eq,
  text_eq,
}
use syrogo.Base.Map.{Map}
use syrogo.Runtime.{FinishReason, Response, Usage}
use syrogo.EventStream.{
  EventType, message_start, message_delta, message_stop, StopReason, ContentBlock, ResponseSnapshot,
  stop_reason_from_runtime,
}
use syrogo.EventStream.Adapter.{
  response_event, all_block_events, blocks_of, closing_events, events_from_runtime_response,
  SnapshotState, snapshot_step, snapshot_run, block_at, empty_state, snapshot_from_events,
  or_reason, or_usage, is_closing, is_usage,
}
use syrogo.EventStream.Adapter.Blocks.{
  or_text-same, run-step, amid, Collected, start-amid, collect-all,
}

reason-set :
    (old : StopReason) (f : FinishReason)
    → or_reason old (stop_reason_from_runtime f) ≡ stop_reason_from_runtime f
unfolding stop_reason_from_runtime
reason-set old FinishReason.stop = refl
reason-set old FinishReason.length = refl
reason-set old FinishReason.error = refl
reason-set old FinishReason.tool_use = refl
reason-set old FinishReason.end_turn = refl
reason-set old (FinishReason.other_reason text) = refl

run-none : (st : SnapshotState) → snapshot_run st [] ≡ st
unfolding snapshot_run
run-none st = refl

module _ (r : Response) where
  abbrev whole : ResponseSnapshot
  whole = record {
    id = r.id;
    model = r.model;
    role = r.message.role;
    blocks = [];
    finish_reason = stop_reason_from_runtime r.finish_reason;
    usage = r.usage;
  }

  -- The state with a reason and a use.
  abbrev ending : StopReason → Option Usage → Map ℕ ContentBlock → List ℕ → List ℕ → SnapshotState
  ending f u blocks order seen = record (amid r blocks order seen) {
    snapshot = record whole { finish_reason = f; usage = u };
  }

  quiet-step :
      (t : EventType) (f g : StopReason) (u v : Option Usage) (blocks : Map ℕ ContentBlock)
      (order seen : List ℕ)
      → snapshot_step
          (ending f u blocks order seen)
          (record (response_event r t) { finish_reason = g; usage = v })
        ≡ ending
            (if is_closing t then or_reason f g else f)
            (if is_usage t || is_closing t then or_usage u v else u)
            blocks
            order
            seen
  unfolding snapshot_step
  quiet-step t f g u v blocks order seen =
      rw (or_text-same r.id, or_text-same r.model, or_text-same r.message.role) refl

  closing-whole :
      (u : Option Usage) (blocks : Map ℕ ContentBlock) (order seen : List ℕ)
      → r.usage ≡ u
      → snapshot_run (amid r blocks order seen) (closing_events r)
        ≡ record { snapshot = whole; blocks = blocks; order = order; seen = seen }
  closing-whole none blocks order seen h =
      let f : StopReason = stop_reason_from_runtime r.finish_reason in
      rw h (
        run-step _ (ending f none blocks order seen) _ _ (
          quiet-step message_delta StopReason.no_reason f none none blocks order seen
          ∙ ap (λ g. ending g none blocks order seen)
              (reason-set StopReason.no_reason r.finish_reason))
        ∙ run-step _ (ending f none blocks order seen) _ [] (
            quiet-step message_stop f f none none blocks order seen
            ∙ ap (λ g. ending g none blocks order seen) (reason-set f r.finish_reason))
        ∙ run-none (ending f none blocks order seen))
  closing-whole (some v) blocks order seen h =
      let f : StopReason = stop_reason_from_runtime r.finish_reason in
      rw h (
        run-step _ (ending StopReason.no_reason (some v) blocks order seen) _ _ (
          quiet-step EventType.usage StopReason.no_reason StopReason.no_reason none (some v) blocks
            order seen)
        ∙ run-step _ (ending f (some v) blocks order seen) _ _ (
            quiet-step message_delta StopReason.no_reason f (some v) (some v) blocks order seen
            ∙ ap (λ g. ending g (some v) blocks order seen)
                (reason-set StopReason.no_reason r.finish_reason))
        ∙ run-step _ (ending f (some v) blocks order seen) _ [] (
            quiet-step message_stop f f (some v) none blocks order seen
            ∙ ap (λ g. ending g (some v) blocks order seen) (reason-set f r.finish_reason))
        ∙ run-none (ending f (some v) blocks order seen))

  -- What `SnapshotFromEvents` makes of its variables in the end.
  abbrev snapshot_of : SnapshotState → ResponseSnapshot
  snapshot_of st = record st.snapshot { blocks = map (block_at st.blocks) st.order }

  -- The snapshot of the events of a response is the response: its id, model and role, the blocks
  -- of its parts and then of its tool calls, in their order, its use, and its finish reason as a
  -- stop reason.
  pub snapshot_from_events-response :
      snapshot_from_events (events_from_runtime_response r) ≡ record {
        id = r.id;
        model = r.model;
        role = r.message.role;
        blocks = blocks_of r;
        finish_reason = stop_reason_from_runtime r.finish_reason;
        usage = r.usage;
      }
  unfolding snapshot_from_events events_from_runtime_response
  snapshot_from_events-response =
      let nothing : Collected r 0 [] [] [] [] = record {
        blocks_are = refl;
        below = tt;
        unseen = λ j le. refl;
      } in
      let (blocks, order, seen, e, are) =
        collect-all r (blocks_of r) 0 [] [] [] [] (closing_events r) nothing in
      ap snapshot_of (
        run-step empty_state (amid r [] [] []) (response_event r message_start)
          (all_block_events r 0 (blocks_of r) ++ closing_events r) (start-amid r)
        ∙ e
        ∙ closing-whole r.usage blocks order seen refl)
      ∙ ap (λ bs. record whole { blocks = bs }) are
