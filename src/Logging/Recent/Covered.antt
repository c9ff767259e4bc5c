-- ===== src/Logging/Recent/Covered.antt =====
-- A covered snapshot shows the log of the short lines.
use syrogo.Base.{
  ℕ, ◌≤◌, ◌≡◌, refl, sym, ap, ◌∙◌, Bool, true, false, ◌&&◌, ◌||◌, List, [], ◌∷◌, ◌++◌, All, keep_if,
  ◌==◌, nat_eq, leb, arith,
}
use syrogo.Logging.Recent.{
  RecentLine, RecentBuffer, evict, new_recent_buffer, in_range, select_lines, covers_from,
  recent_snapshot,
}
use syrogo.Logging.Recent.Calls.{Call, run_calls}
use syrogo.Logging.Recent.Log.{
  log_of, Before, Earlier, All-Earlier, Tracks, run_calls-Tracks, evict-Tracks,
}

-- A line from `since` on, and up to `until` if there is such a bound.
abbrev pub wanted : ℕ → ℕ → RecentLine → Bool
wanted since until l = leb since l.at && (until == 0 || leb l.at until)

select_lines-wanted :
    (since until : ℕ) (gone ls : List RecentLine) (t : ℕ)
    → (since == 0) ≡ false
    → t ≤ since
    → All (Before t) gone
    → select_lines since until ls ≡ keep_if (wanted since until) (gone ++ ls)
unfolding select_lines in_range
select_lines-wanted since until [] [] t n le h = refl
select_lines-wanted since until [] (l ∷ ls) t n le h =
    ground (arith, n, select_lines-wanted since until [] ls t n le tt)
select_lines-wanted since until (l ∷ gone) ls t n le h =
    ground (arith, h.0, select_lines-wanted since until gone ls t n le h.1)

covers_from-le : (now : ℕ) (b : RecentBuffer) → b.coverage_from ≤ covers_from now b
unfolding covers_from
covers_from-le now b = ground arith

-- The log of the calls has every line that they ended and that is short enough for the buffer, with
-- nothing evicted; a line that is too long is no part of it. After any calls on a new buffer, a
-- snapshot that is covered shows exactly the lines of this log that ended at `since` or later and,
-- where `until` is given, not after it. The lines that are missing in it became too long before
-- `since`, each one, though they may have ended later.
pub snapshot_covered :
    (calls : List Call) (max_age limit start since until now : ℕ)
    → let result =
        recent_snapshot since until now (run_calls calls (new_recent_buffer max_age limit start)) in
      result.2 ≡ true
      → (result.1.lines ≡ keep_if (wanted since until) (log_of limit calls).log)
        × All (Earlier since) (log_of limit calls).drops
unfolding recent_snapshot new_recent_buffer log_of
snapshot_covered calls max_age limit start since until now covered =
    let b = run_calls calls (new_recent_buffer max_age limit start) in
    let t : Tracks limit (log_of limit calls) (evict now b) = evict-Tracks limit now _ b (
      run_calls-Tracks calls limit _ _ (record {
        limit_same = refl;
        line_same = refl;
        skips_same = refl;
        gone = [];
        log_is = refl;
        gone_before = tt;
        drops_before = tt;
      })) in
    let le : (evict now b).coverage_from ≤ since =
      ground (arith, covered, covers_from-le now (evict now b)) in
    let some_since : (since == 0) ≡ false = ground (arith, covered) in
    (
      select_lines-wanted since until t.gone (evict now b).lines _ some_since le t.gone_before
          ∙ ap (keep_if (wanted since until)) (sym t.log_is),
      All-Earlier (log_of limit calls).drops _ since le t.drops_before,
    )
