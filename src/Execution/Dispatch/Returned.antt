-- ===== src/Execution/Dispatch/Returned.antt =====
-- Which error a dispatch returns, of those of its attempts.
use syrogo.Base.{
  subst, ℕ, suc, ◌≡◌, ◌≢◌, refl, sym, ◌∙◌, ◌⊎◌, inl, inr, Bool, true, false, ◌||◌, List, [], ◌∷◌,
  All, arith, Bool-cases, Option-cases, if◌then◌else◌, ◌==◌, text_eq,
}
use syrogo.Runtime.{ExecutionPlan, ExecutionStep, Request, Response}
use syrogo.Provider.Error.{Error, nil, is_nil_error, normalize_error}
use syrogo.Execution.{Env, Context, Dispatcher}
use syrogo.Execution.Preferred.{select_preferred_error, model_unavailable_error}
use syrogo.Execution.Preferred.Highest.{preferred, FirstHighest, preferred-nil-FirstHighest}
use syrogo.Execution.Dispatch.{
  Turn, StepResult, next, stop, crash, Admission, refused, admitted, panicked, Dispatched, returned,
  admit_attempt, failed_step, after_admission, step_body, dispatch_from, completed, dispatch,
  no_response, is_none_left, last_step,
}
use syrogo.Execution.Dispatch.Steps.{
  IsReady, IsCondition, IsAnswered, no, yes, admit_attempt-IsAnswered, fallback_allowed-total,
  model_unavailable_error-set,
}
use syrogo.Execution.Dispatch.Once.{loop, loop-next, loop-stop, steps_cases}

-- Whether an attempt had no error.
abbrev pub any_nil : List Error → Bool
any_nil [] = false
any_nil (e ∷ errors) = is_nil_error e || any_nil errors

-- What a step of its own error does, with the preferred error so far and without one: it is passed
-- over, it ends the dispatch with an answer, or with an error.
data Outcome (last own : Error) : StepResult Response → StepResult Response → Type 0 where
  went_on :
      {d : Dispatcher}
      → is_nil_error own ≡ false
      → Outcome last own
          (next (select_preferred_error last own) d)
          (next (select_preferred_error nil own) d)
  answered :
      {r : Response} {d : Dispatcher}
      → is_nil_error own ≡ true
      → Outcome last own (stop r nil d) (stop r nil d)
  failed :
      {r : Response} {d d' : Dispatcher}
      → is_nil_error own ≡ false
      → Outcome last own
          (stop r (select_preferred_error last own) d)
          (stop r (select_preferred_error nil own) d')

module _ (env : Env) (ctx : Context) (req : Request) (plan : ExecutionPlan) (started : ℕ)
    (turns : ℕ → Turn Response) where
  abbrev body : ℕ → Bool → Error → ExecutionStep → Dispatcher → StepResult Response
  body i is_last last_err s d =
      step_body env no_response ctx req plan started (completed env ctx req plan started) (turns i)
        i is_last last_err s d

  -- The error of one attempt, by itself: that its model is missing, the refusal of a tracker, or what
  -- the provider returned.
  unfoldable pub attempt_error : ℕ → ExecutionStep → Dispatcher → Error
  unfolding admit_attempt model_unavailable_error
  attempt_error i s d =
      if s.model_unavailable
      then model_unavailable_error env plan req
      else elim (admit_attempt env (turns i).clock s d) [
        | refused e d' ↦ e
        | admitted quota_probe health_probe d' ↦ (turns i).call.err
        | panicked ↦ nil
      ]

  -- The errors of the attempts of a dispatch, up to the one that ends it.
  unfoldable pub attempt_errors : ℕ → List ExecutionStep → Dispatcher → List Error
  unfolding attempt_error step_body
  attempt_errors i [] d = []
  attempt_errors i (s ∷ steps) d =
      attempt_error i s d ∷ elim (body i (is_none_left steps) nil s d) [
        | next e d' ↦ attempt_errors (suc i) steps d'
        | stop r e d' ↦ []
        | crash ↦ []
      ]

  module _ (i : ℕ) (is_last : Bool) (last_err : Error) (s : ExecutionStep) where
    failed_step-Outcome :
        (d : Dispatcher)
        → IsCondition s.on_error
        → is_nil_error (turns i).call.err ≡ false
        → Outcome last_err
            (turns i).call.err
            (failed_step env no_response ctx req plan started
              (turns i).clock
              i
              is_last
              last_err
              (turns i).call.err
              s
              d)
            (failed_step env no_response ctx req plan started
              (turns i).clock
              i
              is_last
              nil
              (turns i).call.err
              s
              d)
    unfolding failed_step
    failed_step-Outcome d ok set =
        let (b, e) =
          fallback_allowed-total s.on_error (normalize_error (turns i).call.err) is_last ok in
        elim (Bool-cases b) [
          | inl h ↦ rw (e, h, failed_step) (went_on set)
          | inr h ↦ rw (e, h, failed_step) (failed set)
        ]

    abbrev after : Error → Admission → StepResult Response
    after last_err a =
        after_admission env no_response ctx req plan started (completed env ctx req plan started)
          (turns i) i is_last last_err s a

    abbrev own : Admission → Error
    own a = elim a [
      | refused e d' ↦ e
      | admitted quota_probe health_probe d' ↦ (turns i).call.err
      | panicked ↦ nil
    ]

    after_admission-Outcome :
        (d : Dispatcher) (a : Admission)
        → IsCondition s.on_error
        → IsAnswered d a
        → Outcome last_err (own a) (after last_err a) (after nil a)
    unfolding after_admission
    after_admission-Outcome d a ok (no set same) = went_on set
    after_admission-Outcome d a ok (yes {p} {q} {d'} same) =
        elim (Bool-cases (is_nil_error (turns i).call.err)) [
          | inl h ↦ rw (h, after_admission) (answered h)
          | inr h ↦ rw (h, after_admission) (failed_step-Outcome d' ok h)
        ]

    step_body-Outcome :
        (d : Dispatcher)
        → IsReady s
        → Outcome last_err
            (attempt_error i s d)
            (body i is_last last_err s d)
            (body i is_last nil s d)
    unfolding step_body attempt_error
    step_body-Outcome d ready =
        let outbound : (s.step_type == "outbound") ≡ true = rw ready.type_is refl in
        elim (Bool-cases s.model_unavailable) [
          | inl h ↦ rw (outbound, h) (went_on (model_unavailable_error-set env plan req))
          | inr h ↦ elim (Option-cases s.outbound_target) [
            | inl missing ↦ let bad : false ≡ true = rw missing at ready.target in ground arith
            | inr (target, found) ↦
                rw (outbound, h, found, step_body, attempt_error)
                  (after_admission-Outcome d (admit_attempt env (turns i).clock s d) ready.condition
                    (admit_attempt-IsAnswered env (turns i).clock s d))
          ]
        ]

Outcome-cases :
    (last own : Error) (x y : StepResult Response)
    → Outcome last own x y
    → ((d : Dispatcher) × (x ≡ next (select_preferred_error last own) d)
        × (y ≡ next (select_preferred_error nil own) d)
        × (is_nil_error own ≡ false))
      ⊎ ((r : Response) × (e : Error) × (d : Dispatcher) × (e' : Error) × (d' : Dispatcher) × (x
            ≡ stop r e d)
          × (y ≡ stop r e' d')
          × (((e ≡ nil) × (is_nil_error own ≡ true))
              ⊎ ((e ≡ select_preferred_error last own) × (is_nil_error own ≡ false))))
Outcome-cases last own x y (went_on {d} set) = inl (d, refl, refl, set)
Outcome-cases last own x y (answered {r} {d} n) = inr (r, nil, d, nil, d, refl, refl, inl (refl, n))
Outcome-cases last own x y (failed {r} {d} {d'} set) = inr (
  r,
  select_preferred_error last own,
  d,
  select_preferred_error nil own,
  d',
  refl,
  refl,
  inr (refl, set),
)

-- How a dispatch ends, by the errors of its attempts: without an error where one of them had none,
-- and otherwise with what is left when each is weighed against those before it.
abbrev Weighed : Error → Error → List Error → Type 0
Weighed last err errors =
    ((err ≡ nil) × (any_nil errors ≡ true))
    ⊎ ((err ≡ preferred last errors) × (any_nil errors ≡ false))

Weighed-cons :
    (last own err : Error) (errors : List Error)
    → is_nil_error own ≡ false
    → Weighed (select_preferred_error last own) err errors
    → Weighed last err (own ∷ errors)
unfolding preferred
Weighed-cons last own err errors set (inl (e, n)) = inl (e, ground (arith, n))
Weighed-cons last own err errors set (inr (e, n)) = inr (e, ground (arith, n, set))

Weighed-last :
    (last own err : Error)
    → (((err ≡ nil) × (is_nil_error own ≡ true))
        ⊎ ((err ≡ select_preferred_error last own) × (is_nil_error own ≡ false)))
    → Weighed last err (own ∷ [])
unfolding preferred
Weighed-last last own err (inl (e, n)) = inl (e, ground (arith, n))
Weighed-last last own err (inr (e, n)) = inr (e, ground (arith, n))

module _ (env : Env) (ctx : Context) (req : Request) (plan : ExecutionPlan) (started : ℕ)
    (turns : ℕ → Turn Response) (last : ExecutionStep) (finished : ℕ) where
  abbrev tried : ℕ → List ExecutionStep → Dispatcher → List Error
  tried = attempt_errors env ctx req plan started turns

  tried-next :
      (i : ℕ) (s : ExecutionStep) (steps : List ExecutionStep) (d d' : Dispatcher) (e : Error)
      → body env ctx req plan started turns i (is_none_left steps) nil s d ≡ next e d'
      → tried i (s ∷ steps) d
        ≡ attempt_error env ctx req plan started turns i s d ∷ tried (suc i) steps d'
  unfolding attempt_errors
  tried-next i s steps d d' e h = rw (h, attempt_errors) refl

  tried-stop :
      (i : ℕ) (s : ExecutionStep) (steps : List ExecutionStep) (d d' : Dispatcher) (r : Response)
      (e : Error)
      → body env ctx req plan started turns i (is_none_left steps) nil s d ≡ stop r e d'
      → tried i (s ∷ steps) d ≡ attempt_error env ctx req plan started turns i s d ∷ []
  unfolding attempt_errors
  tried-stop i s steps d d' r e h = rw (h, attempt_errors) refl

  -- What the loop returns, weighed.
  record Ended (last_err : Error) (errors : List Error) (x : Dispatched Response) : Type 0 where
    answer : Response
    err : Error
    after : Dispatcher
    result_is : x ≡ returned answer err after
    weighed : Weighed last_err err errors

  loop-Ended :
      (steps : List ExecutionStep) (i : ℕ) (last_err : Error) (d : Dispatcher)
      → All IsReady steps
      → Ended last_err
          (tried i steps d)
          (loop env ctx req plan started turns last finished i last_err steps d)
  loop-Ended [] i last_err d ready =
      unfold attempt_errors in
      unfold dispatch_from in
      unfold preferred in
      record {
        answer = no_response;
        err = last_err;
        after = _;
        result_is = refl;
        weighed = inr (refl, refl);
      }
  loop-Ended (s ∷ steps) i last_err d ready =
      let own = attempt_error env ctx req plan started turns i s d in
      elim (Outcome-cases last_err own _ _ (
        step_body-Outcome env ctx req plan started turns i (is_none_left steps) last_err s d
          ready.0)) [
            | inl (d', h, k, set) ↦
                let rest =
                  loop-Ended steps (suc i) (select_preferred_error last_err own) d' ready.1 in
                record {
                  answer = rest.answer;
                  err = rest.err;
                  after = rest.after;
                  result_is =
                      loop-next env ctx req plan started turns last finished i last_err
                        (select_preferred_error last_err own) s steps d d' h
                      ∙ rest.result_is;
                  weighed =
                      subst (Weighed last_err rest.err) (sym (tried-next i s steps d d' _ k)) (
                        Weighed-cons last_err own rest.err (tried (suc i) steps d') set
                          rest.weighed);
                }
            | inr (r, e, d', e', d'', h, k, w) ↦ record {
              answer = r;
              err = e;
              after = d';
              result_is =
                  loop-stop env ctx req plan started turns last finished i last_err e s steps r d d'
                    h;
              weighed =
                  subst (Weighed last_err e) (sym (tried-stop i s steps d d'' r e' k))
                    (Weighed-last last_err own e w);
            }
          ]

any_nil-All :
    (errors : List Error) → any_nil errors ≡ false → All (λ e. is_nil_error e ≡ false) errors
any_nil-All [] h = tt
any_nil-All (e ∷ errors) h = (ground (arith, h), any_nil-All errors (ground (arith, h)))

Weighed-FirstHighest :
    (e : Error) (errors : List Error) (err : Error)
    → Weighed nil err (e ∷ errors)
    → ((err ≡ nil) × (any_nil (e ∷ errors) ≡ true))
      ⊎ (FirstHighest err (e ∷ errors) × (any_nil (e ∷ errors) ≡ false))
Weighed-FirstHighest e errors err (inl h) = inl h
Weighed-FirstHighest e errors err (inr (h, n)) = inr (
  subst (λ f. FirstHighest f (e ∷ errors)) (sym h)
      (preferred-nil-FirstHighest e errors (any_nil-All (e ∷ errors) n)),
  n,
)

-- What a dispatch returns, by the errors of its attempts: no error where one of them had none, and
-- otherwise the first of the highest priority.
pub record Returns (errors : List Error) (x : Dispatched Response) : Type 0 where
  pub answer : Response
  pub err : Error
  pub after : Dispatcher
  pub result_is : x ≡ returned answer err after
  pub outcome :
      ((err ≡ nil) × (any_nil errors ≡ true)) ⊎ (FirstHighest err errors × (any_nil errors ≡ false))

-- Dispatching a plan that has steps, each for an outbound with its provider and with a condition
-- that the code knows, returns: without an error if one of its attempts had none, and otherwise with
-- the first error of the highest priority among those of its attempts, which are the missing models,
-- the refusals of the trackers and what the providers returned, up to the attempt that ends it.
pub dispatch-Returns :
    (env : Env) (ctx : Context) (req : Request) (plan : ExecutionPlan) (started : ℕ)
    (turns : ℕ → Turn Response) (finished : ℕ) (d : Dispatcher)
    → plan.steps ≢ []
    → All IsReady plan.steps
    → Returns
        (attempt_errors env ctx req plan started turns 0 plan.steps d)
        (dispatch env ctx req plan started turns finished d)
unfolding dispatch
dispatch-Returns env ctx req plan started turns finished d some_step ready =
    elim (steps_cases plan.steps) [
      | inl none_left ↦ absurd (some_step none_left)
      | inr (s, steps, e) ↦
          let own = attempt_error env ctx req plan started turns 0 s d in
          let ended =
            loop-Ended env ctx req plan started turns (last_step s steps) finished (s ∷ steps) 0 nil
              d (rw e at ready) in
          rw (e, dispatch)
            (record {
              answer = ended.answer;
              err = ended.err;
              after = ended.after;
              result_is = ended.result_is;
              outcome = unfold attempt_errors in Weighed-FirstHighest own _ ended.err ended.weighed;
            })
    ]
