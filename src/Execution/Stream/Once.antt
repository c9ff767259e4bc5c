-- ===== src/Execution/Stream/Once.antt =====
-- What a stream that ends by itself sends on and records.
use syrogo.Base.{
  ℕ, ◌≡◌, refl, sym, ap, ◌∙◌, inl, inr, Bool, none, true, false, not, ◌&&◌, ◌||◌, List, [], ◌∷◌,
  ◌++◌, map, append_assoc, append-nil, Bool-cases, arith,
}
use syrogo.Runtime.{ExecutionPlan, StreamEvent, UsageRecord, UsageStatus}
use syrogo.Provider.Error.{normalize_error}
use syrogo.Execution.{
  Env, Context, Dispatcher, Clock, kind_text, normalized_usage_tokens, record_success, record_usage,
  finalize_usage_record,
}
use syrogo.Execution.Dispatch.Steps.{
  is_success, record_provider_error-store, record_success-store,
  record_client_terminal_success-store,
}
use syrogo.Execution.Stream.{
  OpenStream, StreamInput, event, closed, StreamState, StreamRun, finished, is_failure, note_event,
  record_stream_error, record_stream_success, receive_event, stream_step, stream_run, wrap_stream,
}

abbrev pub any_failure : List (Clock × StreamEvent) → Bool
any_failure [] = false
any_failure (e ∷ events) = is_failure e.1 || any_failure events

-- Events that are all sent on, and then the close of the channel.
abbrev pub to_the_end : List (Clock × StreamEvent) → Clock → List (Clock × StreamInput)
to_the_end [] at = (at, closed false) ∷ []
to_the_end (e ∷ events) at = (e.0, event e.1 true) ∷ to_the_end events at

module _ {ℓ} {A : Type ℓ} (env : Env) (ctx : Context) (plan : ExecutionPlan) (started : ℕ)
    (o : OpenStream A) where
  -- A run to the end: what it sent on, and what it recorded where no use was recorded before.
  record Ending (failing : Bool) (st : StreamState) (events : List StreamEvent) (run : StreamRun)
      : Type 0 where
    pub after : StreamState
    pub result_is : run ≡ finished after
    pub sent_is : after.sent ≡ st.sent ++ events
    pub kept : st.recorded ≡ true → after.dispatcher.store ≡ st.dispatcher.store
    pub once :
        st.recorded ≡ false
        → (r : UsageRecord) × (after.dispatcher.store ≡ st.dispatcher.store ++ r ∷ [])
          × (is_success r.status ≡ not failing)

  record_stream_error-store :
      (clock : Clock) (e : StreamEvent) (st : StreamState)
      → (r : UsageRecord) × ((record_stream_error env ctx plan started o clock e
            st).dispatcher.store
          ≡ st.dispatcher.store ++ r ∷ [])
        × (is_success r.status ≡ false)
  unfolding record_stream_error record_usage finalize_usage_record
  record_stream_error-store clock e st =
      let r =
        finalize_usage_record env ctx plan o.step o.requested_model st.executed_model st.usage
          UsageStatus.failed (kind_text (normalize_error e.err)) started clock.finished_at
          o.fallback_count in
      (
        r,
        ap (◌++ r ∷ []) (
            record_provider_error-store env o.step.outbound_name (normalize_error e.err) clock
              st.dispatcher),
        refl,
      )

  record_stream_success-store :
      (clock : Clock) (st : StreamState)
      → (r : UsageRecord) × ((record_stream_success env ctx plan started o clock
            st).dispatcher.store
          ≡ st.dispatcher.store ++ r ∷ [])
        × (is_success r.status ≡ true)
  unfolding record_stream_success record_usage finalize_usage_record
  record_stream_success-store clock st =
      let r =
        finalize_usage_record env ctx plan o.step o.requested_model st.executed_model st.usage
          UsageStatus.success "" started clock.finished_at o.fallback_count in
      let told =
        record_success env o.step.outbound_name (normalized_usage_tokens st.usage) o.quota_probe
          o.health_probe clock st.dispatcher in
      (
        r,
        record_client_terminal_success-store env r clock (record_usage r told)
            ∙ ap (◌++ r ∷ []) (
                record_success-store env o.step.outbound_name (normalized_usage_tokens st.usage)
                  o.quota_probe o.health_probe clock st.dispatcher),
        refl,
      )

  close-recorded :
      (clock : Clock) (st : StreamState)
      → st.recorded ≡ true
      → stream_run env ctx plan started o ((clock, closed false) ∷ []) st ≡ finished st
  unfolding stream_run stream_step
  close-recorded clock st h = rw (h, stream_run) refl

  close-unrecorded :
      (clock : Clock) (st : StreamState)
      → st.recorded ≡ false
      → stream_run env ctx plan started o ((clock, closed false) ∷ []) st
        ≡ finished (record_stream_success env ctx plan started o clock st)
  unfolding stream_run stream_step
  close-unrecorded clock st h = rw (h, stream_run) refl

  close-Ending :
      (clock : Clock) (st : StreamState)
      → Ending false st [] (stream_run env ctx plan started o ((clock, closed false) ∷ []) st)
  close-Ending clock st = elim (Bool-cases st.recorded) [
    | inl h ↦ record {
      after = st;
      result_is = close-recorded clock st h;
      sent_is = sym (append-nil st.sent);
      kept = λ e. refl;
      once = λ e. ground (arith, h, e);
    }
    | inr h ↦ record {
      after = record_stream_success env ctx plan started o clock st;
      result_is = close-unrecorded clock st h;
      sent_is = unfold record_stream_success in sym (append-nil st.sent);
      kept = λ e. ground (arith, h, e);
      once = λ e. record_stream_success-store clock st;
    }
  ]

  -- What an event leaves before it is sent on.
  received-failure :
      (clock : Clock) (e : StreamEvent) (st : StreamState)
      → (is_failure e && not st.recorded) ≡ true
      → receive_event env ctx plan started o clock e st
        ≡ record_stream_error env ctx plan started o clock e (note_event e st)
  unfolding receive_event
  received-failure clock e st h = rw h refl

  received-other :
      (clock : Clock) (e : StreamEvent) (st : StreamState)
      → (is_failure e && not st.recorded) ≡ false
      → receive_event env ctx plan started o clock e st ≡ note_event e st
  unfolding receive_event
  received-other clock e st h = rw h refl

  abbrev send : StreamEvent → StreamState → StreamState
  send e st = record st { sent = st.sent ++ e ∷ [] }

  run-event :
      (clock : Clock) (e : StreamEvent) (inputs : List (Clock × StreamInput)) (st st' : StreamState)
      → receive_event env ctx plan started o clock e st ≡ st'
      → stream_run env ctx plan started o ((clock, event e true) ∷ inputs) st
        ≡ stream_run env ctx plan started o inputs (send e st')
  unfolding stream_run stream_step
  run-event clock e inputs st st' h = rw (h, stream_run) refl

  event-Ending :
      (clock : Clock) (e : StreamEvent) (failing : Bool) (st : StreamState)
      (events : List StreamEvent) (inputs : List (Clock × StreamInput))
      → ((st' : StreamState)
          → Ending failing st' events (stream_run env ctx plan started o inputs st'))
      → Ending
          (is_failure e || failing)
          st
          (e ∷ events)
          (stream_run env ctx plan started o ((clock, event e true) ∷ inputs) st)
  unfolding note_event
  event-Ending clock e failing st events inputs rest =
      elim (Bool-cases (is_failure e && not st.recorded)) [
        | inl h ↦
            let st' : StreamState =
              record_stream_error env ctx plan started o clock e (note_event e st) in
            let end = rest (send e st') in
            let (r, store, status) = record_stream_error-store clock e (note_event e st) in
            record {
              after = end.after;
              result_is =
                  run-event clock e inputs st st' (received-failure clock e st h) ∙ end.result_is;
              sent_is =
                  end.sent_is
                  ∙ (unfold record_stream_error in append_assoc st.sent (e ∷ []) events);
              kept = λ k. ground (arith, h, k);
              once = λ k. (
                r,
                end.kept (unfold record_stream_error in refl) ∙ store,
                status ∙ ground (arith, h),
              );
            }
        | inr h ↦
            let st' : StreamState = note_event e st in
            let end = rest (send e st') in
            record {
              after = end.after;
              result_is =
                  run-event clock e inputs st st' (received-other clock e st h) ∙ end.result_is;
              sent_is = end.sent_is ∙ append_assoc st.sent (e ∷ []) events;
              kept = λ k. end.kept k;
              once = λ k.
                  let (r, store, status) = end.once k in (r, store, status ∙ ground (arith, h, k));
            }
      ]

  run-Ending :
      (events : List (Clock × StreamEvent)) (at : Clock) (st : StreamState)
      → Ending
          (any_failure events)
          st
          (map (λ e. e.1) events)
          (stream_run env ctx plan started o (to_the_end events at) st)
  run-Ending [] at st = close-Ending at st
  run-Ending (e ∷ events) at st =
      event-Ending e.0 e.1 (any_failure events) st (map (λ e. e.1) events) (to_the_end events at)
        (run-Ending events at)

  -- What a stream comes to: all its events sent on, and one use recorded.
  pub record Streamed (d : Dispatcher) (events : List (Clock × StreamEvent)) (run : StreamRun)
      : Type 0 where
    pub after : StreamState
    pub usage_record : UsageRecord
    pub result_is : run ≡ finished after
    pub sent_is : after.sent ≡ map (λ e. e.1) events
    pub store_is : after.dispatcher.store ≡ d.store ++ usage_record ∷ []
    pub status_is : is_success usage_record.status ≡ not (any_failure events)

  -- A stream whose events can all be sent on and whose channel is closed without an error of the
  -- context: the goroutine sends on exactly the events, in their order, closes its own channel,
  -- and hands exactly one usage record to the store, a failure exactly when some event was an
  -- error event with an error.
  pub wrap_stream-Streamed :
      (d : Dispatcher) (events : List (Clock × StreamEvent)) (at : Clock)
      → Streamed d events (wrap_stream env ctx plan started o (to_the_end events at) d)
  unfolding wrap_stream
  wrap_stream-Streamed d events at =
      let end = run-Ending events at (first_state d) in
      let (r, store, status) = end.once refl in
      record {
        after = end.after;
        usage_record = r;
        result_is = end.result_is;
        sent_is = end.sent_is;
        store_is = store;
        status_is = status;
      }
    where
      first_state : Dispatcher → StreamState
      first_state d = record {
        dispatcher = d;
        usage = none;
        executed_model = o.requested_model;
        recorded = false;
        sent = [];
      }
