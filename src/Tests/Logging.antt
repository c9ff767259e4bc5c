-- ===== src/Tests/Logging.antt =====
-- Runs of the buffer of recent lines.
use syrogo.Base.{◌≤◌, ◌≡◌, refl, true, List, [], ◌∷◌, ◌++◌, All, keep_if, length}
use syrogo.Logging.Recent.{RecentBuffer, new_recent_buffer, store_line, write, recent_snapshot}
use syrogo.Logging.Recent.Chunks.{write-append}
use syrogo.Logging.Recent.Calls.{Call, run_calls}
use syrogo.Logging.Recent.Bounds.{stored, run_calls_bounds}
use syrogo.Logging.Recent.Log.{Earlier, log_of}
use syrogo.Logging.Recent.Covered.{wanted, snapshot_covered}

-- Ten bytes at most: the second line pushes out the first, and the third is too long.
abbrev calls : List Call
calls =
    Call.writing (b'a' ∷ b'b' ∷ b'c' ∷ 10 ∷ b'd' ∷ []) 5
    ∷ Call.writing (b'e' ∷ b'f' ∷ b'g' ∷ b'h' ∷ b'i' ∷ 10 ∷ []) 6
    ∷ Call.writing (b'0' ∷ b'1' ∷ b'2' ∷ b'3' ∷ b'4' ∷ b'5' ∷ b'6' ∷ b'7' ∷ b'8' ∷ b'9' ∷ 10 ∷ []) 7
    ∷ Call.writing (b'z' ∷ 10 ∷ []) 8
    ∷ []

abbrev buffer : RecentBuffer
buffer = run_calls calls (new_recent_buffer 0 10 1)

calls-run : (recent_snapshot 8 0 9 buffer).1.line_count ≡ 1
unfolding run_calls new_recent_buffer recent_snapshot write store_line
calls-run = refl

write-append_example :
    write ((b'a' ∷ b'b' ∷ []) ++ b'c' ∷ 10 ∷ []) 3 buffer
    ≡ write (b'c' ∷ 10 ∷ []) 3 (write (b'a' ∷ b'b' ∷ []) 3 buffer)
write-append_example = write-append (b'a' ∷ b'b' ∷ []) (b'c' ∷ 10 ∷ []) 3 buffer

run_calls_bounds_example :
    (buffer.bytes ≡ stored buffer.lines) × (stored buffer.lines ≤ 10) × (length buffer.partial ≤ 10)
run_calls_bounds_example = run_calls_bounds calls 0 10 1

buffer_covered : (recent_snapshot 8 0 9 buffer).2 ≡ true
unfolding run_calls new_recent_buffer recent_snapshot write store_line
buffer_covered = refl

snapshot_covered_example :
    ((recent_snapshot 8 0 9 buffer).1.lines ≡ keep_if (wanted 8 0) (log_of 10 calls).log)
    × All (Earlier 8) (log_of 10 calls).drops
snapshot_covered_example = snapshot_covered calls 0 10 1 8 0 9 buffer_covered
