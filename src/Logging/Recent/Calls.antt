-- ===== src/Logging/Recent/Calls.antt =====
-- Sequences of calls on one buffer.
use syrogo.Base.{ℕ, List, [], ◌∷◌}
use syrogo.Logging.Recent.{RecentBuffer, write, recent_snapshot}

-- The bytes of a `Write`, or the bounds of a `Snapshot`, and the time of the call.
pub data Call : Type 0 where
  writing : List ℕ → ℕ → Call
  reading : ℕ → ℕ → ℕ → Call

unfoldable pub call : Call → RecentBuffer → RecentBuffer
unfolding write recent_snapshot
call (Call.writing p now) b = write p now b
call (Call.reading since until now) b = (recent_snapshot since until now b).0

unfoldable pub run_calls : List Call → RecentBuffer → RecentBuffer
unfolding call
run_calls [] b = b
run_calls (c ∷ calls) b = run_calls calls (call c b)
