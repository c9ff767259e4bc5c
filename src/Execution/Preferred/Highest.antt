-- ===== src/Execution/Preferred/Highest.antt =====
-- Over a sequence of attempts the first error of the highest priority is kept.
use syrogo.Base.{
  ◌≤◌, ◌<◌, ◌≡◌, refl, inl, inr, false, List, [], ◌∷◌, All, arith, Bool-cases, ltb, if◌then◌else◌,
}
use syrogo.Provider.Error.{Error, nil, is_nil_error}
use syrogo.Execution.Preferred.{preferred_error_priority, select_preferred_error}

-- What is left of the errors, as the loop of `Dispatch` selects among them.
unfoldable pub preferred : Error → List Error → Error
preferred current [] = current
preferred current (e ∷ errors) = preferred (select_preferred_error current e) errors

-- `e` is the first error of the highest priority.
pub data FirstHighest (e : Error) : List Error → Type 0 where
  here :
      {f : Error} {errors : List Error}
      → f ≡ e
      → All (λ g. preferred_error_priority g ≤ preferred_error_priority f) errors
      → FirstHighest e (f ∷ errors)
  later :
      {f : Error} {errors : List Error}
      → preferred_error_priority f < preferred_error_priority e
      → FirstHighest e errors
      → FirstHighest e (f ∷ errors)

first-le :
    {e f : Error} {errors : List Error}
    → FirstHighest e (f ∷ errors)
    → preferred_error_priority f ≤ preferred_error_priority e
first-le (here same all) = rw same (omega arith)
first-le (later lt rest) = omega (arith, lt)

add-second :
    {e : Error} (f g : Error) (errors : List Error)
    → preferred_error_priority g ≤ preferred_error_priority f
    → FirstHighest e (f ∷ errors)
    → FirstHighest e (f ∷ g ∷ errors)
add-second f g errors le (here same all) = here same (le, all)
add-second f g errors le (later lt rest) = later lt (later (omega (arith, le, lt)) rest)

select-first :
    (current e : Error)
    → is_nil_error current ≡ false
    → is_nil_error e ≡ false
    → select_preferred_error current e
      ≡ (if ltb (preferred_error_priority current) (preferred_error_priority e) then e else current)
unfolding select_preferred_error
select-first current e set made = rw (set, made) refl

preferred-FirstHighest :
    (current : Error) (errors : List Error)
    → is_nil_error current ≡ false
    → All (λ e. is_nil_error e ≡ false) errors
    → FirstHighest (preferred current errors) (current ∷ errors)
unfolding preferred
preferred-FirstHighest current [] set all = here refl tt
preferred-FirstHighest current (e ∷ errors) set all =
    elim (Bool-cases (ltb (preferred_error_priority current) (preferred_error_priority e))) [
      | inl less ↦
          let rest = preferred-FirstHighest e errors all.0 all.1 in
          let below : preferred_error_priority current < preferred_error_priority e =
            ground arith in
          rw (select-first current e set all.0, less)
            (later (omega (arith, below, first-le rest)) rest)
      | inr more ↦
          let rest = preferred-FirstHighest current errors set all.1 in
          rw (select-first current e set all.0, more)
            (add-second current e errors (ground arith) rest)
    ]

-- Of the errors of the attempts, none of them nil, the loop is left with the first one of the
-- highest priority.
pub preferred-nil-FirstHighest :
    (e : Error) (errors : List Error)
    → All (λ f. is_nil_error f ≡ false) (e ∷ errors)
    → FirstHighest (preferred nil (e ∷ errors)) (e ∷ errors)
unfolding preferred select_preferred_error
preferred-nil-FirstHighest e errors all = preferred-FirstHighest e errors all.0 all.1
