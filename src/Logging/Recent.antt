-- ===== src/Logging/Recent.antt =====
-- internal/logging/recent.go: the recent lines of the log, bounded in age and in bytes. A byte is
-- a number and a newline is 10. Bounds that are not positive are 0, which the code treats alike.
pub mod Bytes
pub mod Chunks
pub mod Calls
pub mod Log
pub mod Covered
pub mod Bounds
use syrogo.Base.{
  ℕ, zero, suc, ◌+◌, ◌-◌, Bool, true, false, not, ◌&&◌, ◌||◌, List, [], ◌∷◌, ◌++◌, Option, none,
  some, if◌then◌else◌, ◌==◌, nat_eq, ltb, leb, length,
}

pub record RecentLine : Type 0 where
  pub at : ℕ
  pub content : List ℕ
  pub size : ℕ

pub record RecentBuffer : Type 0 where
  pub max_age : ℕ
  pub max_bytes : ℕ
  pub started_at : ℕ
  pub coverage_from : ℕ
  pub lines : List RecentLine
  pub bytes : ℕ
  pub partial : List ℕ
  pub dropping : Bool

pub record RecentSnapshot : Type 0 where
  pub lines : List RecentLine
  pub line_count : ℕ
  pub bytes : ℕ
  pub started_at : ℕ

unfoldable pub new_recent_buffer : ℕ → ℕ → ℕ → RecentBuffer
new_recent_buffer max_age max_bytes now = record {
  max_age = max_age;
  max_bytes = max_bytes;
  started_at = now;
  coverage_from = now;
  lines = [];
  bytes = 0;
  partial = [];
  dropping = false;
}

unfoldable pub advance_coverage : ℕ → RecentBuffer → RecentBuffer
advance_coverage value b =
    if ltb b.coverage_from value then record b { coverage_from = value } else b

-- The condition of the loop in `evictLocked` at the oldest line.
unfoldable pub must_go : RecentBuffer → ℕ → RecentLine → Bool
must_go b now l =
    (not (b.max_age == 0) && ltb l.at (now - b.max_age))
    || b.max_bytes == 0
    || ltb b.max_bytes b.bytes

unfoldable pub evict_scan : List RecentLine → ℕ → RecentBuffer → RecentBuffer
unfolding must_go advance_coverage
evict_scan [] now b = record b { lines = [] }
evict_scan (l ∷ ls) now b =
    let rest =
      evict_scan ls now (advance_coverage (l.at + 1) (record b { bytes = b.bytes - l.size })) in
    if must_go b now l then rest else record b { lines = l ∷ ls }

unfoldable pub evict : ℕ → RecentBuffer → RecentBuffer
unfolding evict_scan
evict now b = evict_scan b.lines now b

unfoldable pub append_partial : List ℕ → ℕ → RecentBuffer → RecentBuffer
unfolding advance_coverage
append_partial [] now b = b
append_partial (c ∷ p) now b =
    if b.max_bytes == 0 || ltb b.max_bytes (length b.partial + length (c ∷ p) + 1)
    then advance_coverage (now + 1) (record b { partial = []; dropping = true })
    else record b { partial = b.partial ++ c ∷ p }

unfoldable pub store_line : ℕ → RecentBuffer → RecentBuffer
unfolding evict
store_line now b = evict now (record b {
  lines = b.lines ++ record { at = now; content = b.partial; size = length b.partial + 1 } ∷ [];
  bytes = b.bytes + (length b.partial + 1);
  partial = [];
})

-- What a newline does to the line that stands in `partial`.
unfoldable pub complete_line : ℕ → RecentBuffer → RecentBuffer
complete_line now b =
    if b.dropping then record b { dropping = false; partial = [] } else store_line now b

-- A round of the loop of `Write` that finds a newline behind `line`.
unfoldable pub end_line : List ℕ → ℕ → RecentBuffer → RecentBuffer
unfolding append_partial complete_line
end_line line now b =
    if b.dropping
    then record b { dropping = false }
    else complete_line now (append_partial line now b)

-- A round that finds none, which is the last one.
unfoldable pub take_in : List ℕ → ℕ → RecentBuffer → RecentBuffer
unfolding append_partial
take_in p now b = if b.dropping then b else append_partial p now b

-- `bytes.IndexByte(p, '\n')`: what stands before the first newline, and behind it.
unfoldable pub cut_line : List ℕ → List ℕ × Option (List ℕ)
cut_line [] = ([], none)
cut_line (c ∷ p) = if c == 10 then ([], some p) else (c ∷ (cut_line p).0, (cut_line p).1)

-- The loop of `Write`; the length of `p` is fuel enough, since each round takes a byte.
unfoldable pub write_loop : ℕ → List ℕ → ℕ → RecentBuffer → RecentBuffer
unfolding cut_line end_line take_in
write_loop zero p now b = b
write_loop (suc fuel) [] now b = b
write_loop (suc fuel) (c ∷ p) now b = elim ((cut_line (c ∷ p)).1) [
  | none ↦ take_in (c ∷ p) now b
  | some rest ↦ write_loop fuel rest now (end_line (cut_line (c ∷ p)).0 now b)
]

-- A buffer that is nil is left to the callers: it takes nothing and covers nothing.
unfoldable pub write : List ℕ → ℕ → RecentBuffer → RecentBuffer
unfolding write_loop evict
write [] now b = b
write (c ∷ p) now b = write_loop (length (c ∷ p)) (c ∷ p) now (evict now b)

-- A bound of zero is none.
unfoldable pub in_range : ℕ → ℕ → RecentLine → Bool
in_range since until l =
    not ((not (since == 0) && ltb l.at since) || (not (until == 0) && ltb until l.at))

unfoldable pub select_lines : ℕ → ℕ → List RecentLine → List RecentLine
unfolding in_range
select_lines since until [] = []
select_lines since until (l ∷ ls) =
    if in_range since until l then l ∷ select_lines since until ls else select_lines since until ls

unfoldable pub total_size : List RecentLine → ℕ
total_size [] = 0
total_size (l ∷ ls) = l.size + total_size ls

-- Where the coverage starts once the age of the lines is taken into account.
unfoldable pub covers_from : ℕ → RecentBuffer → ℕ
covers_from now b =
    if not (b.max_age == 0) && ltb b.coverage_from (now - b.max_age)
    then now - b.max_age
    else b.coverage_from

-- The buffer afterwards, the snapshot, and whether it is covered.
unfoldable pub recent_snapshot : ℕ → ℕ → ℕ → RecentBuffer → RecentBuffer × RecentSnapshot × Bool
unfolding evict covers_from select_lines total_size
recent_snapshot since until now b =
    let b' = evict now b in
    let selected = select_lines since until b'.lines in
    (
      b',
      record {
        lines = selected;
        line_count = length selected;
        bytes = total_size selected;
        started_at = b'.started_at;
      },
      not (since == 0) && leb (covers_from now b') since,
    )
