-- ===== src/Logging/Recent/Bytes.antt =====
-- `Write` takes its bytes one after the other, so that it does not matter how they are cut.
use syrogo.Base.{
  subst, Option-cases, ℕ, zero, suc, ◌+◌, ◌≤◌, ◌≡◌, refl, sym, ap, ◌∙◌, inl, inr, Bool, true, false,
  List, [], ◌∷◌, ◌++◌, append_assoc, append-nil, none, some, if◌then◌else◌, ◌==◌, nat_eq, arith,
  Bool-cases, length, length-append, ltb, ◌||◌,
}
use syrogo.Logging.Recent.{
  RecentBuffer, advance_coverage, append_partial, complete_line, end_line, take_in, cut_line,
  write_loop,
}

unfoldable pub byte_step : ℕ → ℕ → RecentBuffer → RecentBuffer
unfolding end_line take_in
byte_step c now b = if c == 10 then end_line [] now b else take_in (c ∷ []) now b

unfoldable pub byte_steps : List ℕ → ℕ → RecentBuffer → RecentBuffer
byte_steps [] now b = b
byte_steps (c ∷ p) now b = byte_steps p now (byte_step c now b)

pub byte_steps-append :
    (p q : List ℕ) (now : ℕ) (b : RecentBuffer)
    → byte_steps (p ++ q) now b ≡ byte_steps q now (byte_steps p now b)
unfolding byte_steps
byte_steps-append [] q now b = refl
byte_steps-append (c ∷ p) q now b = byte_steps-append p q now (byte_step c now b)

-- Whether `n` more bytes are too many for the line.
abbrev too_long : RecentBuffer → ℕ → Bool
too_long b n = b.max_bytes == 0 || ltb b.max_bytes (length b.partial + n + 1)

too_long-more :
    (b : RecentBuffer) (c n : ℕ)
    → too_long b 1 ≡ false
    → too_long (record b { partial = b.partial ++ c ∷ [] }) n ≡ too_long b (suc n)
too_long-more b c n h = ground (arith, length-append b.partial (c ∷ []))

too_long_mono : (b : RecentBuffer) (n : ℕ) → too_long b 1 ≡ true → too_long b (suc n) ≡ true
too_long_mono b n h = ground arith

take_in-take_in :
    (c : ℕ) (p : List ℕ) (now : ℕ) (b : RecentBuffer)
    → take_in p now (take_in (c ∷ []) now b) ≡ take_in (c ∷ p) now b
unfolding take_in append_partial advance_coverage
take_in-take_in c [] now b = ground arith
take_in-take_in c (d ∷ p) now b = elim (Bool-cases b.dropping) [
  | inl skips ↦ rw (skips, take_in) refl
  | inr takes ↦ elim (Bool-cases (too_long b 1)) [
    | inl long ↦ ground (arith, takes, long, too_long_mono b (length (d ∷ p)) long)
    | inr short ↦ ground (
      arith,
      takes,
      short,
      too_long-more b c (length (d ∷ p)) short,
      append_assoc b.partial (c ∷ []) (d ∷ p),
    )
  ]
]

take_in-end_line :
    (p : List ℕ) (now : ℕ) (b : RecentBuffer) → end_line [] now (take_in p now b) ≡ end_line p now b
unfolding take_in append_partial advance_coverage complete_line end_line
take_in-end_line [] now b = ground arith
take_in-end_line (d ∷ p) now b = ground arith

-- A line without a newline is taken in whole.
abbrev NoNewline : List ℕ → Type 0
NoNewline [] = Unit
NoNewline (c ∷ p) = ((c == 10) ≡ false) × NoNewline p

byte_step-other :
    (c now : ℕ) (b : RecentBuffer) → (c == 10) ≡ false → byte_step c now b ≡ take_in (c ∷ []) now b
unfolding byte_step
byte_step-other c now b h = rw h refl

take_in-nil : (now : ℕ) (b : RecentBuffer) → b ≡ take_in [] now b
unfolding take_in append_partial
take_in-nil now b = ground arith

byte_steps-take_in :
    (p q : List ℕ) (now : ℕ) (b : RecentBuffer)
    → NoNewline p
    → byte_steps (p ++ q) now b ≡ byte_steps q now (take_in p now b)
unfolding byte_steps
byte_steps-take_in [] q now b h = ap (byte_steps q now) (take_in-nil now b)
byte_steps-take_in (c ∷ p) q now b h =
    ap (byte_steps (p ++ q) now) (byte_step-other c now b h.0)
    ∙ byte_steps-take_in p q now (take_in (c ∷ []) now b) h.1
    ∙ ap (byte_steps q now) (take_in-take_in c p now b)

-- What `cut_line` returns.
cut_line-NoNewline : (p : List ℕ) → NoNewline (cut_line p).0
unfolding cut_line
cut_line-NoNewline [] = tt
cut_line-NoNewline (c ∷ p) = elim (Bool-cases (c == 10)) [
  | inl e ↦ rw e tt
  | inr e ↦ rw e (e, cut_line-NoNewline p)
]

cut_line-none : (p : List ℕ) → (cut_line p).1 ≡ none → (cut_line p).0 ≡ p
unfolding cut_line
cut_line-none [] h = refl
cut_line-none (c ∷ p) h = ground (arith, h, cut_line-none p)

cut_line-some :
    (p rest : List ℕ)
    → (cut_line p).1 ≡ some rest
    → (p ≡ (cut_line p).0 ++ 10 ∷ rest) × (length rest + 1 ≤ length p)
unfolding cut_line
cut_line-some [] rest h = cc (h)
cut_line-some (c ∷ p) rest h = ground (arith, h, cut_line-some p rest)

-- The whole of `p`, without a newline in it or up to the first one.
byte_steps-last :
    (p : List ℕ) (now : ℕ) (b : RecentBuffer)
    → (cut_line p).1 ≡ none
    → byte_steps p now b ≡ take_in p now b
unfolding byte_steps
byte_steps-last p now b h =
    let clean : NoNewline p = subst NoNewline (cut_line-none p h) (cut_line-NoNewline p) in
    ap (λ q. byte_steps q now b) (sym (append-nil p)) ∙ byte_steps-take_in p [] now b clean

byte_steps-line :
    (p rest : List ℕ) (now : ℕ) (b : RecentBuffer)
    → (cut_line p).1 ≡ some rest
    → byte_steps p now b ≡ byte_steps rest now (end_line (cut_line p).0 now b)
unfolding byte_steps byte_step
byte_steps-line p rest now b h =
    ap (λ q. byte_steps q now b) (cut_line-some p rest h).0
    ∙ byte_steps-take_in (cut_line p).0 (10 ∷ rest) now b (cut_line-NoNewline p)
    ∙ ap (byte_steps rest now) (take_in-end_line (cut_line p).0 now b)

-- The loop of `Write` ends with all bytes taken, for every fuel that is at least their number.
pub write_loop-byte_steps :
    (fuel : ℕ) (p : List ℕ) (now : ℕ) (b : RecentBuffer)
    → length p ≤ fuel
    → write_loop fuel p now b ≡ byte_steps p now b
unfolding write_loop byte_steps
write_loop-byte_steps zero [] now b h = refl
write_loop-byte_steps zero (c ∷ p) now b h = absurd (omega arith)
write_loop-byte_steps (suc fuel) [] now b h = refl
write_loop-byte_steps (suc fuel) (c ∷ p) now b h = elim (Option-cases (cut_line (c ∷ p)).1) [
  | inl e ↦ last_round e ∙ sym (byte_steps-last (c ∷ p) now b e)
  | inr (rest, e) ↦
      line_round rest e
      ∙ write_loop-byte_steps fuel rest now (end_line (cut_line (c ∷ p)).0 now b)
          (omega (arith, (cut_line-some (c ∷ p) rest e).1, h))
      ∙ sym (byte_steps-line (c ∷ p) rest now b e)
]
  where
    last_round :
        (cut_line (c ∷ p)).1 ≡ none → write_loop (suc fuel) (c ∷ p) now b ≡ take_in (c ∷ p) now b
    last_round e = rw (e, write_loop) refl

    line_round :
        (rest : List ℕ)
        → (cut_line (c ∷ p)).1 ≡ some rest
        → write_loop (suc fuel) (c ∷ p) now b
          ≡ write_loop fuel rest now (end_line (cut_line (c ∷ p)).0 now b)
    line_round rest e = rw (e, write_loop) refl
