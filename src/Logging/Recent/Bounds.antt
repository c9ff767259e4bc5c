-- ===== src/Logging/Recent/Bounds.antt =====
-- The buffer stays within its number of bytes.
use syrogo.Base.{
  subst, sym, ℕ, ◌+◌, ◌≤◌, ◌≡◌, refl, inl, inr, List, [], ◌∷◌, ◌++◌, All, nat_eq, arith, Bool-cases,
  length, length-append,
}
use syrogo.Logging.Recent.{
  RecentLine, RecentBuffer, advance_coverage, must_go, evict, evict_scan, append_partial,
  store_line, complete_line, new_recent_buffer,
}
use syrogo.Logging.Recent.Bytes.{byte_step, byte_steps}
use syrogo.Logging.Recent.Chunks.{write-byte_steps}
use syrogo.Logging.Recent.Calls.{Call, call, run_calls}

-- What the lines take up, with a newline behind each.
abbrev pub stored : List RecentLine → ℕ
stored [] = 0
stored (l ∷ ls) = length l.content + 1 + stored ls

stored-append : (xs ys : List RecentLine) → stored (xs ++ ys) ≡ stored xs + stored ys
stored-append [] ys = omega arith
stored-append (x ∷ xs) ys = omega (arith, stored-append xs ys)

abbrev HasSize : RecentLine → Type 0
HasSize l = l.size ≡ length l.content + 1

AllSized-append :
    (ls : List RecentLine) (l : RecentLine)
    → All HasSize ls
    → HasSize l
    → All HasSize (ls ++ l ∷ [])
AllSized-append [] l h k = (k, tt)
AllSized-append (x ∷ ls) l h k = (h.0, AllSized-append ls l h.1 k)

record IsBounded (limit : ℕ) (b : RecentBuffer) : Type 0 where
  pub limit_same : b.max_bytes ≡ limit
  pub sized : All HasSize b.lines
  pub counted : b.bytes ≡ stored b.lines
  pub within : b.bytes ≤ limit
  pub partial_within : length b.partial ≤ limit

evict_scan-IsBounded :
    (ls : List RecentLine) (limit now : ℕ) (b : RecentBuffer)
    → b.max_bytes ≡ limit
    → All HasSize ls
    → b.bytes ≡ stored ls
    → length b.partial ≤ limit
    → IsBounded limit (evict_scan ls now b)
unfolding evict_scan advance_coverage must_go
evict_scan-IsBounded [] limit now b m s c p = ground arith
evict_scan-IsBounded (l ∷ ls) limit now b m s c p = elim (Bool-cases (must_go b now l)) [
  | inl goes ↦
      rw (goes, evict_scan)
        (evict_scan-IsBounded ls limit now _ (ground arith) s.1 (ground arith) (ground arith))
  | inr stays ↦ rw (stays, evict_scan) (ground arith)
]

evict-IsBounded :
    (limit now : ℕ) (b : RecentBuffer) → IsBounded limit b → IsBounded limit (evict now b)
unfolding evict
evict-IsBounded limit now b h =
    evict_scan-IsBounded b.lines limit now b h.limit_same h.sized h.counted h.partial_within

store_line-IsBounded :
    (limit now : ℕ) (b : RecentBuffer) → IsBounded limit b → IsBounded limit (store_line now b)
unfolding store_line evict
store_line-IsBounded limit now b h =
    evict_scan-IsBounded
      (b.lines ++ record { at = now; content = b.partial; size = length b.partial + 1 } ∷ []) limit
      now _ h.limit_same (AllSized-append b.lines _ h.sized refl)
      (omega (
        arith,
        h.counted,
        stored-append b.lines
            (record { at = now; content = b.partial; size = length b.partial + 1 } ∷ []),
      ))
      (omega arith)

append_partial-IsBounded :
    (p : List ℕ) (limit now : ℕ) (b : RecentBuffer)
    → IsBounded limit b
    → IsBounded limit (append_partial p now b)
unfolding append_partial advance_coverage
append_partial-IsBounded [] limit now b h = h
append_partial-IsBounded (c ∷ p) limit now b h = ground (arith, h, length-append b.partial (c ∷ p))

byte_step-IsBounded :
    (c limit now : ℕ) (b : RecentBuffer) → IsBounded limit b → IsBounded limit (byte_step c now b)
unfolding byte_step append_partial complete_line
byte_step-IsBounded c limit now b h =
    ground (
      arith,
      h,
      append_partial-IsBounded (c ∷ []) limit now b h,
      store_line-IsBounded limit now b h,
    )

byte_steps-IsBounded :
    (p : List ℕ) (limit now : ℕ) (b : RecentBuffer)
    → IsBounded limit b
    → IsBounded limit (byte_steps p now b)
unfolding byte_steps
byte_steps-IsBounded [] limit now b h = h
byte_steps-IsBounded (c ∷ p) limit now b h =
    byte_steps-IsBounded p limit now (byte_step c now b) (byte_step-IsBounded c limit now b h)

call-IsBounded :
    (c : Call) (limit : ℕ) (b : RecentBuffer) → IsBounded limit b → IsBounded limit (call c b)
unfolding call
call-IsBounded (Call.writing [] now) limit b h = h
call-IsBounded (Call.writing (c ∷ p) now) limit b h =
    subst (IsBounded limit) (sym (write-byte_steps c p now b))
      (byte_steps-IsBounded (c ∷ p) limit now (evict now b) (evict-IsBounded limit now b h))
call-IsBounded (Call.reading since until now) limit b h = evict-IsBounded limit now b h

run_calls-IsBounded :
    (calls : List Call) (limit : ℕ) (b : RecentBuffer)
    → IsBounded limit b
    → IsBounded limit (run_calls calls b)
unfolding run_calls
run_calls-IsBounded [] limit b h = h
run_calls-IsBounded (c ∷ calls) limit b h =
    run_calls-IsBounded calls limit (call c b) (call-IsBounded c limit b h)

-- After any calls of `Write` and `Snapshot` on a new buffer, its count of bytes is that of the
-- lines that it holds, with a newline for each, and neither these nor the line that is not yet
-- complete take up more than the limit.
pub run_calls_bounds :
    (calls : List Call) (max_age limit start : ℕ)
    → let b = run_calls calls (new_recent_buffer max_age limit start) in
      (b.bytes ≡ stored b.lines) × (stored b.lines ≤ limit) × (length b.partial ≤ limit)
unfolding new_recent_buffer
run_calls_bounds calls max_age limit start =
    let h =
      run_calls-IsBounded calls limit (new_recent_buffer max_age limit start) (ground arith) in
    (h.counted, omega (arith, h.counted, h.within), h.partial_within)
