-- ===== src/Logging/Recent/Chunks.antt =====
-- Two calls of `Write` at the same moment do what one call with all their bytes does.
use syrogo.Base.{
  subst, ℕ, ◌+◌, ◌≡◌, refl, sym, ap, ◌∙◌, ◌⊎◌, inl, inr, false, List, [], ◌∷◌, ◌++◌, append-nil,
  ◌==◌, nat_eq, arith, Bool-cases, length,
}
use syrogo.Logging.Recent.{
  RecentLine, RecentBuffer, advance_coverage, must_go, evict, evict_scan, append_partial,
  store_line, complete_line, end_line, take_in, write,
}
use syrogo.Logging.Recent.Bytes.{byte_step, byte_steps, byte_steps-append, write_loop-byte_steps}

-- No line is due to go: the first of `ls` stays where `b` counts the bytes.
abbrev HeadStays : ℕ → RecentBuffer → List RecentLine → Type 0
HeadStays now b [] = Unit
HeadStays now b (l ∷ ls) = must_go b now l ≡ false

abbrev IsEvicted : ℕ → RecentBuffer → Type 0
IsEvicted now b = HeadStays now b b.lines

evict_scan-IsEvicted :
    (ls : List RecentLine) (now : ℕ) (b : RecentBuffer) → IsEvicted now (evict_scan ls now b)
unfolding evict_scan
evict_scan-IsEvicted [] now b = tt
evict_scan-IsEvicted (l ∷ ls) now b = elim (Bool-cases (must_go b now l)) [
  | inl goes ↦ rw (goes, evict_scan) (evict_scan-IsEvicted ls now _)
  | inr stays ↦ rw (stays, evict_scan) stays
]

evict_scan-stays :
    (ls : List RecentLine) (now : ℕ) (b : RecentBuffer)
    → HeadStays now b ls
    → evict_scan ls now b ≡ record b { lines = ls }
unfolding evict_scan
evict_scan-stays [] now b h = refl
evict_scan-stays (l ∷ ls) now b h = rw (h, evict_scan) refl

evict-IsEvicted : (now : ℕ) (b : RecentBuffer) → IsEvicted now (evict now b)
unfolding evict
evict-IsEvicted now b = evict_scan-IsEvicted b.lines now b

evict-stays : (now : ℕ) (b : RecentBuffer) → IsEvicted now b → evict now b ≡ b
unfolding evict
evict-stays now b h = evict_scan-stays b.lines now b h

-- The fields that decide about the lines stay as they are.
record SameLines (b b' : RecentBuffer) : Type 0 where
  pub max_age_same : b'.max_age ≡ b.max_age
  pub max_bytes_same : b'.max_bytes ≡ b.max_bytes
  pub bytes_same : b'.bytes ≡ b.bytes
  pub lines_same : b'.lines ≡ b.lines

HeadStays-same :
    (now : ℕ) (b b' : RecentBuffer) (ls : List RecentLine)
    → SameLines b b'
    → HeadStays now b ls
    → HeadStays now b' ls
unfolding must_go
HeadStays-same now b b' [] s h = tt
HeadStays-same now b b' (l ∷ ls) s h = ground (arith, s, h)

IsEvicted-same :
    (now : ℕ) (b b' : RecentBuffer) → SameLines b b' → IsEvicted now b → IsEvicted now b'
IsEvicted-same now b b' s h =
    subst (HeadStays now b') (sym s.lines_same) (HeadStays-same now b b' b.lines s h)

append_partial-SameLines :
    (p : List ℕ) (now : ℕ) (b : RecentBuffer) → SameLines b (append_partial p now b)
unfolding append_partial advance_coverage
append_partial-SameLines [] now b = ground arith
append_partial-SameLines (c ∷ p) now b = ground arith

take_in-SameLines : (p : List ℕ) (now : ℕ) (b : RecentBuffer) → SameLines b (take_in p now b)
unfolding take_in
take_in-SameLines p now b = ground (arith, append_partial-SameLines p now b)

store_line-IsEvicted : (now : ℕ) (b : RecentBuffer) → IsEvicted now (store_line now b)
unfolding store_line
store_line-IsEvicted now b = evict-IsEvicted now (record b {
  lines = b.lines ++ record { at = now; content = b.partial; size = length b.partial + 1 } ∷ [];
  bytes = b.bytes + (length b.partial + 1);
  partial = [];
})

end_line-cases :
    (now : ℕ) (b : RecentBuffer)
    → (end_line [] now b ≡ record b { dropping = false }) ⊎ (end_line [] now b ≡ store_line now b)
unfolding end_line append_partial complete_line
end_line-cases now b = elim (Bool-cases b.dropping) [
  | inl skips ↦ inl (ground (arith, skips))
  | inr takes ↦ inr (ground (arith, takes))
]

end_line-IsEvicted :
    (now : ℕ) (b : RecentBuffer) → IsEvicted now b → IsEvicted now (end_line [] now b)
end_line-IsEvicted now b h = elim (end_line-cases now b) [
  | inl skips ↦
      subst (IsEvicted now) (sym skips)
        (IsEvicted-same now b (record b { dropping = false }) (ground arith) h)
  | inr takes ↦ subst (IsEvicted now) (sym takes) (store_line-IsEvicted now b)
]

byte_step-IsEvicted :
    (c now : ℕ) (b : RecentBuffer) → IsEvicted now b → IsEvicted now (byte_step c now b)
unfolding byte_step
byte_step-IsEvicted c now b h = elim (Bool-cases (c == 10)) [
  | inl ends ↦ rw (ends, byte_step) (end_line-IsEvicted now b h)
  | inr other ↦ rw (other, byte_step) (IsEvicted-same now b _ (take_in-SameLines (c ∷ []) now b) h)
]

byte_steps-IsEvicted :
    (p : List ℕ) (now : ℕ) (b : RecentBuffer) → IsEvicted now b → IsEvicted now (byte_steps p now b)
unfolding byte_steps
byte_steps-IsEvicted [] now b h = h
byte_steps-IsEvicted (c ∷ p) now b h =
    byte_steps-IsEvicted p now (byte_step c now b) (byte_step-IsEvicted c now b h)

pub write-byte_steps :
    (c : ℕ) (p : List ℕ) (now : ℕ) (b : RecentBuffer)
    → write (c ∷ p) now b ≡ byte_steps (c ∷ p) now (evict now b)
unfolding write
write-byte_steps c p now b =
    write_loop-byte_steps (length (c ∷ p)) (c ∷ p) now (evict now b) (omega arith)

-- A call of `Write` with the bytes `p ++ q` leaves the buffer as two calls at the same moment do,
-- the first with `p` and the second with `q`, wherever the bytes are cut.
pub write-append :
    (p q : List ℕ) (now : ℕ) (b : RecentBuffer) → write (p ++ q) now b ≡ write q now (write p now b)
unfolding write
write-append [] q now b = refl
write-append (c ∷ p) [] now b = ap (λ r. write r now b) (append-nil (c ∷ p))
write-append (c ∷ p) (d ∷ q) now b =
    let first = byte_steps (c ∷ p) now (evict now b) in
    let kept : evict now first ≡ first =
      evict-stays now first
        (byte_steps-IsEvicted (c ∷ p) now (evict now b) (evict-IsEvicted now b)) in
    write-byte_steps c (p ++ d ∷ q) now b
    ∙ byte_steps-append (c ∷ p) (d ∷ q) now (evict now b)
    ∙ ap (byte_steps (d ∷ q) now) (sym kept)
    ∙ sym (write-byte_steps d q now first)
    ∙ ap (write (d ∷ q) now) (sym (write-byte_steps c p now b))
