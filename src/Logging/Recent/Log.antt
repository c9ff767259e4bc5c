-- ===== src/Logging/Recent/Log.antt =====
-- The buffer against the log of all lines that are short enough: what a covered snapshot shows.
use syrogo.Base.{
  subst, ℕ, ◌+◌, ◌-◌, ◌≤◌, ◌<◌, ◌≡◌, refl, sym, ap, ◌∙◌, inl, inr, Bool, true, false, List, [], ◌∷◌,
  ◌++◌, append_assoc, All, All-append, if◌then◌else◌, ◌==◌, nat_eq, ltb, arith, Bool-cases, length,
}
use syrogo.Logging.Recent.{
  RecentLine, RecentBuffer, advance_coverage, must_go, evict, evict_scan, append_partial,
  store_line, complete_line, write,
}
use syrogo.Logging.Recent.Bytes.{byte_step, byte_steps}
use syrogo.Logging.Recent.Chunks.{write-byte_steps}
use syrogo.Logging.Recent.Calls.{Call, run_calls}

-- The log as it would be without eviction: all lines that are short enough, each with the time of
-- its newline, and the times at which a line became too long.
pub record Feed : Type 0 where
  pub open_line : List ℕ
  pub skips : Bool
  pub log : List RecentLine
  pub drops : List ℕ

abbrev pub logged : ℕ → List ℕ → RecentLine
logged now line = record { at = now; content = line; size = length line + 1 }

unfoldable pub feed_byte : ℕ → ℕ → ℕ → Feed → Feed
feed_byte limit now c f =
    if c == 10
    then (if f.skips
        then record f { skips = false }
        else record f { log = f.log ++ logged now f.open_line ∷ []; open_line = [] })
    else if f.skips
    then f
    else if ltb limit (length f.open_line + 2)
    then record f { open_line = []; skips = true; drops = f.drops ++ now ∷ [] }
    else record f { open_line = f.open_line ++ c ∷ [] }

unfoldable pub feed_bytes : ℕ → ℕ → List ℕ → Feed → Feed
unfolding feed_byte
feed_bytes limit now [] f = f
feed_bytes limit now (c ∷ p) f = feed_bytes limit now p (feed_byte limit now c f)

unfoldable pub feed_calls : ℕ → List Call → Feed → Feed
unfolding feed_bytes
feed_calls limit [] f = f
feed_calls limit (Call.writing p now ∷ calls) f = feed_calls limit calls (feed_bytes limit now p f)
feed_calls limit (Call.reading since until now ∷ calls) f = feed_calls limit calls f

unfoldable pub log_of : ℕ → List Call → Feed
unfolding feed_calls
log_of limit calls =
    feed_calls limit calls (record { open_line = []; skips = false; log = []; drops = [] })

abbrev pub Before : ℕ → RecentLine → Type 0
Before t l = l.at < t

All-Before : (ls : List RecentLine) (t u : ℕ) → t ≤ u → All (Before t) ls → All (Before u) ls
All-Before [] t u le h = tt
All-Before (l ∷ ls) t u le h = (omega arith, All-Before ls t u le h.1)

abbrev pub Earlier : ℕ → ℕ → Type 0
Earlier t d = d < t

pub All-Earlier : (ds : List ℕ) (t u : ℕ) → t ≤ u → All (Earlier t) ds → All (Earlier u) ds
All-Earlier [] t u le h = tt
All-Earlier (d ∷ ds) t u le h = (omega arith, All-Earlier ds t u le h.1)

-- The lines of the log that the buffer has no more, all from before its coverage.
pub record Follows (limit : ℕ) (f : Feed) (b : RecentBuffer) (ls : List RecentLine) : Type 0 where
  pub limit_same : b.max_bytes ≡ limit
  pub line_same : b.partial ≡ f.open_line
  pub skips_same : b.dropping ≡ f.skips
  pub gone : List RecentLine
  pub log_is : f.log ≡ gone ++ ls
  pub gone_before : All (Before b.coverage_from) gone
  pub drops_before : All (Earlier b.coverage_from) f.drops

-- The coverage moves forward only.
advance_coverage-le :
    (v : ℕ) (b : RecentBuffer)
    → (b.coverage_from ≤ (advance_coverage v b).coverage_from)
      × (v ≤ (advance_coverage v b).coverage_from)
unfolding advance_coverage
advance_coverage-le v b = ground arith

evict_line :
    (limit : ℕ) (f : Feed) (b : RecentBuffer) (l : RecentLine) (ls : List RecentLine)
    → Follows limit f b (l ∷ ls)
    → Follows limit f (advance_coverage (l.at + 1) (record b { bytes = b.bytes - l.size })) ls
unfolding advance_coverage
evict_line limit f b l ls h =
    let grows = advance_coverage-le (l.at + 1) (record b { bytes = b.bytes - l.size }) in
    record {
      limit_same = ground arith;
      line_same = ground arith;
      skips_same = ground arith;
      gone = h.gone ++ l ∷ [];
      log_is = h.log_is ∙ sym (append_assoc h.gone (l ∷ []) ls);
      gone_before =
          All-append _ h.gone (l ∷ []) (All-Before h.gone _ _ grows.0 h.gone_before)
            (omega (arith, grows.1), tt);
      drops_before = All-Earlier f.drops _ _ grows.0 h.drops_before;
    }

evict_scan-Follows :
    (ls : List RecentLine) (limit now : ℕ) (f : Feed) (b : RecentBuffer)
    → Follows limit f b ls
    → Follows limit f (evict_scan ls now b) (evict_scan ls now b).lines
unfolding evict_scan
evict_scan-Follows [] limit now f b h = record {
  limit_same = h.limit_same;
  line_same = h.line_same;
  skips_same = h.skips_same;
  gone = h.gone;
  log_is = h.log_is;
  gone_before = h.gone_before;
  drops_before = h.drops_before;
}
evict_scan-Follows (l ∷ ls) limit now f b h = elim (Bool-cases (must_go b now l)) [
  | inl goes ↦
      rw (goes, evict_scan) (evict_scan-Follows ls limit now f _ (evict_line limit f b l ls h))
  | inr stays ↦
      rw (stays, evict_scan)
        (record {
          limit_same = h.limit_same;
          line_same = h.line_same;
          skips_same = h.skips_same;
          gone = h.gone;
          log_is = h.log_is;
          gone_before = h.gone_before;
          drops_before = h.drops_before;
        })
]

-- The buffer follows the log.
abbrev pub Tracks : ℕ → Feed → RecentBuffer → Type 0
Tracks limit f b = Follows limit f b b.lines

pub evict-Tracks :
    (limit now : ℕ) (f : Feed) (b : RecentBuffer) → Tracks limit f b → Tracks limit f (evict now b)
unfolding evict
evict-Tracks limit now f b h = evict_scan-Follows b.lines limit now f b h

store_line-Tracks :
    (limit now : ℕ) (f : Feed) (b : RecentBuffer)
    → Tracks limit f b
    → Tracks limit
        (record f { log = f.log ++ logged now f.open_line ∷ []; open_line = [] })
        (store_line now b)
unfolding store_line
store_line-Tracks limit now f b h =
    evict-Tracks limit now _
      (record b {
        lines = b.lines ++ logged now b.partial ∷ [];
        bytes = b.bytes + (length b.partial + 1);
        partial = [];
      })
      (record {
        limit_same = h.limit_same;
        line_same = refl;
        skips_same = h.skips_same;
        gone = h.gone;
        log_is =
            ap (λ line. f.log ++ logged now line ∷ []) (sym h.line_same)
            ∙ ap (λ ls. ls ++ logged now b.partial ∷ []) h.log_is
            ∙ append_assoc h.gone b.lines (logged now b.partial ∷ []);
        gone_before = h.gone_before;
        drops_before = h.drops_before;
      })

-- The line becomes too long.
drop-Tracks :
    (limit now : ℕ) (f : Feed) (b : RecentBuffer)
    → Tracks limit f b
    → Tracks limit
        (record f { open_line = []; skips = true; drops = f.drops ++ now ∷ [] })
        (advance_coverage (now + 1) (record b { partial = []; dropping = true }))
unfolding advance_coverage
drop-Tracks limit now f b h =
    let grows = advance_coverage-le (now + 1) (record b { partial = []; dropping = true }) in
    let here : List RecentLine → Type 0 = λ ls. f.log ≡ h.gone ++ ls in
    record {
      limit_same = ground arith;
      line_same = ground arith;
      skips_same = ground arith;
      gone = h.gone;
      log_is = subst here (ground arith) h.log_is;
      gone_before = All-Before h.gone _ _ grows.0 h.gone_before;
      drops_before =
          All-append _ f.drops (now ∷ []) (All-Earlier f.drops _ _ grows.0 h.drops_before)
            (omega (arith, grows.1), tt);
    }

-- The line grows, or its rest is skipped.
grow-Tracks :
    (limit c : ℕ) (f : Feed) (b : RecentBuffer)
    → Tracks limit f b
    → Tracks limit
        (record f { open_line = f.open_line ++ c ∷ [] })
        (record b { partial = b.partial ++ c ∷ [] })
grow-Tracks limit c f b h = record {
  limit_same = h.limit_same;
  line_same = ap (λ line. line ++ c ∷ []) h.line_same;
  skips_same = h.skips_same;
  gone = h.gone;
  log_is = h.log_is;
  gone_before = h.gone_before;
  drops_before = h.drops_before;
}

resume-Tracks :
    (limit : ℕ) (f : Feed) (b : RecentBuffer)
    → Tracks limit f b
    → Tracks limit (record f { skips = false }) (record b { dropping = false })
resume-Tracks limit f b h = record {
  limit_same = h.limit_same;
  line_same = h.line_same;
  skips_same = refl;
  gone = h.gone;
  log_is = h.log_is;
  gone_before = h.gone_before;
  drops_before = h.drops_before;
}

byte_step-Tracks :
    (c limit now : ℕ) (f : Feed) (b : RecentBuffer)
    → Tracks limit f b
    → Tracks limit (feed_byte limit now c f) (byte_step c now b)
unfolding byte_step feed_byte append_partial complete_line
byte_step-Tracks c limit now f b h = elim (Bool-cases (c == 10)) [
  | inl ends ↦ elim (Bool-cases f.skips) [
    | inl skips ↦
        go _ _ (ground (arith, ends, skips)) (ground (arith, ends, skips, h.skips_same))
          (resume-Tracks limit f b h)
    | inr takes ↦
        go _ _ (ground (arith, ends, takes)) (ground (arith, ends, takes, h.skips_same))
          (store_line-Tracks limit now f b h)
  ]
  | inr other ↦ elim (Bool-cases f.skips) [
    | inl skips ↦
        go _ _ (ground (arith, other, skips)) (ground (arith, other, skips, h.skips_same)) h
    | inr takes ↦ elim (Bool-cases (ltb limit (length f.open_line + 2))) [
      | inl long ↦
          go _ _ (ground (arith, other, takes, long))
            (ground (arith, other, takes, long, h.skips_same, h.limit_same, ap length h.line_same))
            (drop-Tracks limit now f b h)
      | inr short ↦
          go _ _ (ground (arith, other, takes, short))
            (ground (arith, other, takes, short, h.skips_same, h.limit_same, ap length h.line_same))
            (grow-Tracks limit c f b h)
    ]
  ]
]
  where
    go :
        (f' : Feed) (b' : RecentBuffer)
        → f' ≡ feed_byte limit now c f
        → b' ≡ byte_step c now b
        → Tracks limit f' b'
        → Tracks limit (feed_byte limit now c f) (byte_step c now b)
    go f' b' p q t =
        subst (λ x. Tracks limit x (byte_step c now b)) p (subst (λ x. Tracks limit f' x) q t)

byte_steps-Tracks :
    (p : List ℕ) (limit now : ℕ) (f : Feed) (b : RecentBuffer)
    → Tracks limit f b
    → Tracks limit (feed_bytes limit now p f) (byte_steps p now b)
unfolding byte_steps feed_bytes
byte_steps-Tracks [] limit now f b h = h
byte_steps-Tracks (c ∷ p) limit now f b h =
    byte_steps-Tracks p limit now (feed_byte limit now c f) (byte_step c now b)
      (byte_step-Tracks c limit now f b h)

write-Tracks :
    (p : List ℕ) (limit now : ℕ) (f : Feed) (b : RecentBuffer)
    → Tracks limit f b
    → Tracks limit (feed_bytes limit now p f) (write p now b)
unfolding write feed_bytes
write-Tracks [] limit now f b h = h
write-Tracks (c ∷ p) limit now f b h =
    subst (Tracks limit (feed_bytes limit now (c ∷ p) f)) (sym (write-byte_steps c p now b))
      (byte_steps-Tracks (c ∷ p) limit now f (evict now b) (evict-Tracks limit now f b h))

pub run_calls-Tracks :
    (calls : List Call) (limit : ℕ) (f : Feed) (b : RecentBuffer)
    → Tracks limit f b
    → Tracks limit (feed_calls limit calls f) (run_calls calls b)
unfolding run_calls feed_calls
run_calls-Tracks [] limit f b h = h
run_calls-Tracks (Call.writing p now ∷ calls) limit f b h =
    run_calls-Tracks calls limit _ _ (write-Tracks p limit now f b h)
run_calls-Tracks (Call.reading since until now ∷ calls) limit f b h =
    run_calls-Tracks calls limit f _ (evict-Tracks limit now f b h)
