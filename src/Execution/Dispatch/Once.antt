-- ===== src/Execution/Dispatch/Once.antt =====
-- What every dispatch leaves in the store.
use syrogo.Base.{
  ◌-◌, ℕ, suc, ◌≡◌, ◌≢◌, refl, sym, ap, ◌∙◌, ◌⊎◌, inl, inr, false, none, List, [], ◌∷◌, ◌++◌, All,
  arith, text_eq,
}
use syrogo.Runtime.{ExecutionPlan, ExecutionStep, Request, Response, UsageRecord, UsageStatus}
use syrogo.Provider.Error.{Error, nil, is_nil_error, normalize_error}
use syrogo.Execution.{kind_text, Env, Context, Dispatcher, record_usage, finalize_usage_record}
use syrogo.Execution.Dispatch.{
  Turn, next, stop, Dispatched, returned, step_body, dispatch_from, completed, dispatch,
  no_response, is_none_left, last_step,
}
use syrogo.Execution.Dispatch.Steps.{is_success, IsReady, IsOnce-cases, step_body-IsOnce}

-- A dispatch that returns, and the one use that it records.
pub record Once (d : Dispatcher) (x : Dispatched Response) : Type 0 where
  pub answer : Response
  pub err : Error
  pub after : Dispatcher
  pub usage_record : UsageRecord
  pub result_is : x ≡ returned answer err after
  pub store_is : after.store ≡ d.store ++ usage_record ∷ []
  pub status_is : is_success usage_record.status ≡ is_nil_error err

module _ (env : Env) (ctx : Context) (req : Request) (plan : ExecutionPlan) (started : ℕ) where
  module _ (turns : ℕ → Turn Response) (last : ExecutionStep) (finished : ℕ) where
    abbrev pub loop : ℕ → Error → List ExecutionStep → Dispatcher → Dispatched Response
    loop =
        dispatch_from env no_response ctx req plan started (completed env ctx req plan started)
          turns last finished

    loop-end :
        (i : ℕ) (last_err : Error) (d₀ d : Dispatcher)
        → d.store ≡ d₀.store
        → is_nil_error last_err ≡ false
        → Once d₀ (loop i last_err [] d)
    unfolding dispatch_from record_usage
    loop-end i last_err d₀ d same set =
        let r =
          finalize_usage_record env ctx plan last req.model req.model none UsageStatus.failed
            (kind_text (normalize_error last_err)) started finished (i - 1) in
        record {
          answer = no_response;
          err = last_err;
          after = record_usage r d;
          usage_record = r;
          result_is = refl;
          store_is = ap (◌++ r ∷ []) same;
          status_is = unfold finalize_usage_record in sym set;
        }

    pub loop-next :
        (i : ℕ) (last_err e : Error) (s : ExecutionStep) (steps : List ExecutionStep)
        (d d' : Dispatcher)
        → step_body env no_response ctx req plan started
            (completed env ctx req plan started)
            (turns i)
            i
            (is_none_left steps)
            last_err
            s
            d
          ≡ next e d'
        → loop i last_err (s ∷ steps) d ≡ loop (suc i) e steps d'
    unfolding dispatch_from
    loop-next i last_err e s steps d d' h = rw (h, dispatch_from) refl

    pub loop-stop :
        (i : ℕ) (last_err e : Error) (s : ExecutionStep) (steps : List ExecutionStep)
        (answer : Response) (d d' : Dispatcher)
        → step_body env no_response ctx req plan started
            (completed env ctx req plan started)
            (turns i)
            i
            (is_none_left steps)
            last_err
            s
            d
          ≡ stop answer e d'
        → loop i last_err (s ∷ steps) d ≡ returned answer e d'
    unfolding dispatch_from
    loop-stop i last_err e s steps answer d d' h = rw (h, dispatch_from) refl

    loop-Once :
        (steps : List ExecutionStep) (i : ℕ) (last_err : Error) (d₀ d : Dispatcher)
        → (steps ≡ [] → is_nil_error last_err ≡ false)
        → d.store ≡ d₀.store
        → All IsReady steps
        → Once d₀ (loop i last_err steps d)
    loop-Once [] i last_err d₀ d set same ready = loop-end i last_err d₀ d same (set refl)
    loop-Once (s ∷ steps) i last_err d₀ d set same ready =
        elim (IsOnce-cases env ctx req plan started d _ (
          step_body-IsOnce env ctx req plan started (turns i) i (is_none_left steps) last_err s d
            ready.0)) [
              | inl (e, d', h, made, store) ↦
                  rw (loop-next i last_err e s steps d d' h)
                    (loop-Once steps (suc i) e d₀ d' (λ done. made) (store ∙ same) ready.1)
              | inr (answer, e, d', r, h, store, status) ↦ record {
                answer = answer;
                err = e;
                after = d';
                usage_record = r;
                result_is = loop-stop i last_err e s steps answer d d' h;
                store_is = store ∙ ap (◌++ r ∷ []) same;
                status_is = status;
              }
            ]

pub steps_cases :
    (steps : List ExecutionStep)
    → (steps ≡ []) ⊎ ((s : ExecutionStep) × (rest : List ExecutionStep) × (steps ≡ s ∷ rest))
steps_cases [] = inl refl
steps_cases (s ∷ rest) = inr (s, rest, refl)

-- Dispatching a plan that has steps, each for an outbound with its provider and with a condition
-- that the code knows, always returns and hands exactly one usage record to the store: a success
-- exactly when it returns no error.
pub dispatch-Once :
    (env : Env) (ctx : Context) (req : Request) (plan : ExecutionPlan) (started : ℕ)
    (turns : ℕ → Turn Response) (finished : ℕ) (d : Dispatcher)
    → plan.steps ≢ []
    → All IsReady plan.steps
    → Once d (dispatch env ctx req plan started turns finished d)
unfolding dispatch
dispatch-Once env ctx req plan started turns finished d some_step ready =
    elim (steps_cases plan.steps) [
      | inl none_left ↦ absurd (some_step none_left)
      | inr (s, steps, e) ↦
          rw (e, dispatch)
            (loop-Once env ctx req plan started turns (last_step s steps) finished (s ∷ steps) 0 nil
              d d (λ empty. ground (arith, empty)) refl (rw e at ready))
    ]
