-- ===== src/Quota/Schedule/Bounds.antt =====
-- The interval that a schedule names contains the time that it was asked for.
use native.Mathlib.Nat.{mod-add-div', mod-lt}
use syrogo.Base.{
  ℕ, suc, ◌+◌, ◌-◌, ◌*◌, ◌/◌, ◌%◌, ◌≤◌, ◌<◌, ◌≡◌, refl, sym, ap, ◌∙◌, subst, true, min, ◌⊎◌, inl,
  inr, false, arith, if◌then◌else◌, leb, ◌==◌, nat_eq, text_eq, Bool-cases,
}
use syrogo.Quota.Schedule.{
  TimeLib, Schedule, forward, backward, duration_range, unix_epoch, since, floor_duration,
  add_steps, interval_bounds,
}

add_steps-forward :
    (now anchor d : ℕ)
    → 0 < d
    → anchor ≤ now
    → let start = anchor + ((now - anchor) / d) * d in (start ≤ now) × (now < start + d)
add_steps-forward now anchor d h le = grind arith

add_steps-backward :
    (now anchor d k : ℕ)
    → 0 < d
    → d ≤ now
    → now < anchor
    → k ≡ (if ((anchor - now) % d) == 0 then (anchor - now) / d else suc ((anchor - now) / d))
    → (anchor - k * d ≤ now) × (now < (anchor - k * d) + d) × (k * d ≤ anchor)
add_steps-backward now anchor d k h le lt e =
    let b : ℕ = anchor - now in
    let split : b % d + b / d * d ≡ b = mod-add-div' b d in
    let small : b % d < d = mod-lt b h in
    elim (Bool-cases ((b % d) == 0)) [
      | inl exact ↦
          let k' : k ≡ b / d = ground arith in
          let zero : b % d ≡ 0 = ground arith in rw k' (omega arith)
      | inr down ↦
          let k' : k ≡ suc (b / d) = ground arith in
          let pos : 0 < b % d = ground arith in rw k' (omega arith)
    ]

-- Where the difference of the times, and one duration more before the anchor, is within the range
-- of a duration.
abbrev pub InRange : ℕ → ℕ → ℕ → Type 0
InRange now anchor d = (now < anchor + duration_range) × (anchor + d ≤ now + duration_range)

abbrev aligned : ℕ → ℕ → ℕ → ℕ
aligned now anchor d = add_steps anchor (floor_duration (since now anchor) d) d

since-forward :
    (now anchor : ℕ)
    → anchor ≤ now
    → now < anchor + duration_range
    → since now anchor ≡ forward (now - anchor)
unfolding since
since-forward now anchor le fits =
    let early : leb anchor now ≡ true = ground (arith, le) in
    let same : min (now - anchor) (duration_range - 1) ≡ now - anchor = omega (arith, fits) in
    rw (early, since) (ap forward same)

since-backward :
    (now anchor : ℕ)
    → now < anchor
    → anchor ≤ now + duration_range
    → since now anchor ≡ backward (anchor - now)
unfolding since
since-backward now anchor lt fits =
    let late : leb anchor now ≡ false = ground (arith, lt) in
    let same : min (anchor - now) duration_range ≡ anchor - now = omega (arith, fits) in
    rw (late, since) (ap backward same)

add_steps-backward_range :
    (anchor k d : ℕ) → k * d ≤ duration_range → add_steps anchor (backward k) d ≡ anchor - k * d
unfolding add_steps
add_steps-backward_range anchor k d fits =
    let small : leb (k * d) duration_range ≡ true = ground (arith, fits) in rw small refl

abbrev Aligned : ℕ → ℕ → ℕ → ℕ → Type 0
Aligned now anchor d start =
    (start ≤ now)
    × (now < start + d)
    × ((k : ℕ) × ((start ≡ anchor + k * d) ⊎ (anchor ≡ start + k * d)))

aligned_lem :
    (now anchor d : ℕ)
    → 0 < d
    → d ≤ now
    → InRange now anchor d
    → (aligned now anchor d ≤ now)
      × (now < aligned now anchor d + d)
      × ((k : ℕ) × ((aligned now anchor d ≡ anchor + k * d)
            ⊎ (anchor ≡ aligned now anchor d + k * d)))
aligned_lem now anchor d h le fits = elim (Bool-cases (leb anchor now)) [
  | inl early ↦
      let before : anchor ≤ now = ground (arith, early) in
      let (low, high) = add_steps-forward now anchor d h before in
      let start : aligned now anchor d ≡ anchor + ((now - anchor) / d) * d =
        ap (λ n. add_steps anchor (floor_duration n d) d) (since-forward now anchor before fits.0)
        ∙ unfold floor_duration in unfold add_steps in refl in
      subst (Aligned now anchor d) (sym start) (low, high, ((now - anchor) / d, inl refl))
  | inr late ↦
      let after : now < anchor = ground (arith, late) in
      let b : ℕ = anchor - now in
      let k : ℕ = if (b % d) == 0 then b / d else suc (b / d) in
      let (low, high, below) = add_steps-backward now anchor d k h le after refl in
      let start : aligned now anchor d ≡ anchor - k * d =
        ap (λ n. add_steps anchor (floor_duration n d) d)
          (since-backward now anchor after (omega (arith, fits.1)))
        ∙ (unfold floor_duration in
            add_steps-backward_range anchor k d (omega (arith, high, below, fits.1))) in
      subst (Aligned now anchor d) (sym start) (low, high, (k, inr (omega (arith, below))))
]

-- Where the duration is above zero and no longer than the time is after Go's zero time, the time is
-- less than 2 ^ 63 nanoseconds, about 292 years, after the anchor, and the anchor and one duration
-- more are no further after the time: an interval schedule names the interval that holds the time,
-- of the length of its duration, a whole number of durations from its anchor, which is the Unix
-- epoch where none is given.
pub interval_bounds_lem :
    (lib : TimeLib) (s : Schedule) (now : ℕ)
    → 0 < s.duration
    → s.duration ≤ now
    → InRange now (if s.anchor == 0 then unix_epoch else s.anchor) s.duration
    → let start = (interval_bounds lib s now).0 in
      let end = (interval_bounds lib s now).1 in
      let anchor : ℕ = if s.anchor == 0 then unix_epoch else s.anchor in
      (start ≤ now)
      × (now < end)
      × (end ≡ start + s.duration)
      × ((k : ℕ) × ((start ≡ anchor + k * s.duration) ⊎ (anchor ≡ start + k * s.duration)))
interval_bounds_lem lib s now h le fits =
    let anchor : ℕ = if s.anchor == 0 then unix_epoch else s.anchor in
    let start : ℕ = aligned now anchor s.duration in
    let b : interval_bounds lib s now ≡ (start, start + s.duration) = made in
    let (low, high, k) = aligned_lem now anchor s.duration h le fits in rw b (low, high, refl, k)
  where
    set : (s.duration == 0) ≡ false
    set = ground arith

    made :
        let anchor : ℕ = if s.anchor == 0 then unix_epoch else s.anchor in
        let start : ℕ = aligned now anchor s.duration in
        interval_bounds lib s now ≡ (start, start + s.duration)
    made = unfold interval_bounds in rw (set, interval_bounds) refl
