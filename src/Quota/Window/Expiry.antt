-- ===== src/Quota/Window/Expiry.antt =====
-- Rolling over a window keeps exactly the events that still count.
use syrogo.Base.{
  ℕ, ◌+◌, ◌≤◌, ◌≡◌, refl, ap, inl, inr, Bool, false, not, List, [], ◌∷◌, keep_if, arith, Bool-cases,
  if◌then◌else◌, ltb, leb, ◌==◌, text_eq,
}
use syrogo.Quota.Schedule.{TimeLib, bounds}
use syrogo.Quota.Window.{
  UsageEvent, WindowState, leading, discard, discard_before, discard_through, rollover,
}

-- The events stand in the order of their times, none before `t`.
abbrev pub SortedFrom : ℕ → List UsageEvent → Type 0
SortedFrom t [] = Unit
SortedFrom t (e ∷ events) = (t ≤ e.at) × SortedFrom e.at events

pub SortedFrom-weaken :
    {s t : ℕ} (events : List UsageEvent) → s ≤ t → SortedFrom t events → SortedFrom s events
SortedFrom-weaken [] h o = tt
SortedFrom-weaken (e ∷ events) h o = (omega arith, o.1)

-- Where the old events are those before some time, dropping the leading old ones drops all.
discard-keep_if :
    (old : UsageEvent → Bool) (t : ℕ) (events : List UsageEvent)
    → ((e f : UsageEvent) → e.at ≤ f.at → old e ≡ false → old f ≡ false)
    → SortedFrom t events
    → discard old events ≡ keep_if (λ e. not (old e)) events
unfolding discard
discard-keep_if old t [] mono o = refl
discard-keep_if old t (e ∷ events) mono o = elim (Bool-cases (old e)) [
  | inl h ↦ rw (h, leading) (discard-keep_if old e.at events mono o.1)
  | inr h ↦ rw (h, leading) (ap (◌∷◌ e) (keep_all old e events mono h o.1))
]
  where
    keep_all :
        (old : UsageEvent → Bool) (e : UsageEvent) (events : List UsageEvent)
        → ((e f : UsageEvent) → e.at ≤ f.at → old e ≡ false → old f ≡ false)
        → old e ≡ false
        → SortedFrom e.at events
        → events ≡ keep_if (λ e. not (old e)) events
    keep_all old e [] mono h o = refl
    keep_all old e (f ∷ events) mono h o =
        let g : old f ≡ false = mono e f o.0 h in
        rw g (ap (◌∷◌ f) (keep_all old f events mono g o.1))

-- Whether an event still counts at a time.
abbrev pub counts : TimeLib → ℕ → WindowState → UsageEvent → Bool
counts lib now w =
    if w.reset == "fixed"
    then (λ e. not (ltb e.at (bounds lib w.fixed now).0))
    else (λ e. not (leb (e.at + w.duration) now))

-- Rolling a window over keeps exactly the events that still count: in a window that rolls those
-- younger than its duration, in a fixed one those since the start of the present interval.
pub rollover-keep_if :
    (lib : TimeLib) (now t : ℕ) (w : WindowState)
    → SortedFrom t w.events
    → (rollover lib now w).events ≡ keep_if (counts lib now w) w.events
unfolding rollover discard_before discard_through
rollover-keep_if lib now t w o = elim (Bool-cases (w.reset == "fixed")) [
  | inl h ↦ rw h (
      discard-keep_if (λ e. ltb e.at (bounds lib w.fixed now).0) t w.events
        (λ e f le k. ground arith) o)
  | inr h ↦
      rw h
        (discard-keep_if (λ e. leb (e.at + w.duration) now) t w.events (λ e f le k. ground arith) o)
]

keep_if-SortedFrom :
    (p : UsageEvent → Bool) (t : ℕ) (events : List UsageEvent)
    → SortedFrom t events
    → SortedFrom t (keep_if p events)
keep_if-SortedFrom p t [] o = tt
keep_if-SortedFrom p t (e ∷ events) o = elim (Bool-cases (p e)) [
  | inl h ↦ rw h (o.0, keep_if-SortedFrom p e.at events o.1)
  | inr h ↦ rw h (keep_if-SortedFrom p t events (SortedFrom-weaken events o.0 o.1))
]

pub rollover-SortedFrom :
    (lib : TimeLib) (now t : ℕ) (w : WindowState)
    → SortedFrom t w.events
    → SortedFrom t (rollover lib now w).events
rollover-SortedFrom lib now t w o =
    rw (rollover-keep_if lib now t w o) (keep_if-SortedFrom (counts lib now w) t w.events o)
