-- ===== src/Quota/Window/Earliest.antt =====
-- When a rolling window that has reached a limit is free again.
use syrogo.Base.{
  ℕ, ◌+◌, ◌≡◌, refl, ap, ◌∙◌, inl, inr, true, false, not, List, [], ◌∷◌, ◌++◌, arith, Bool-cases,
  leb,
}
use syrogo.Quota.Window.{
  UsageEvent, WindowState, Totals, no_usage, add_event, usage_from, usage, reached, needed,
  is_limited, enough, Retry, retry_at, last_expiry, retry_scan, need_of, rolling_retry,
}

abbrev plus : Totals → Totals → Totals
plus a b = record {
  requests = a.requests + b.requests;
  tokens = a.tokens + b.tokens;
  cost_micro_usd = a.cost_micro_usd + b.cost_micro_usd;
  unpriced = a.unpriced + b.unpriced;
}

usage_from-plus :
    (t : Totals) (events : List UsageEvent) → usage_from t events ≡ plus t (usage events)
unfolding usage usage_from
usage_from-plus t [] = ground arith
usage_from-plus t (e ∷ events) =
    ground
      (arith, usage_from-plus (add_event t e) events, usage_from-plus (add_event no_usage e) events)

no_usage-plus : (t : Totals) → t ≡ plus no_usage t
no_usage-plus t = ground arith

needed-reached :
    (maximum removed rest : ℕ)
    → leb (needed maximum (removed + rest)) removed ≡ not (reached maximum rest)
needed-reached maximum removed rest = ground arith

enough-is_limited :
    (w : WindowState) (removed rest : Totals)
    → enough (need_of w (plus removed rest)) removed ≡ not (is_limited w rest)
enough-is_limited w removed rest = ground (
  arith,
  needed-reached w.max_requests removed.requests rest.requests,
  needed-reached w.max_tokens removed.tokens rest.tokens,
  needed-reached w.max_cost_micro_usd removed.cost_micro_usd rest.cost_micro_usd,
)

-- The event whose expiry frees the window: a limit is reached while it counts, and none without it.
pub record FreedBy (w : WindowState) (events : List UsageEvent) (result : Retry) : Type 0 where
  pub before : List UsageEvent
  pub event : UsageEvent
  pub after : List UsageEvent
  pub splits : events ≡ before ++ event ∷ after
  pub result_is : result ≡ retry_at (event.at + w.duration)
  pub still_limited : is_limited w (usage (event ∷ after)) ≡ true
  pub then_free : is_limited w (usage after) ≡ false

scan_hit :
    (d : ℕ) (need removed : Totals) (behind : Retry) (e : UsageEvent) (events : List UsageEvent)
    → enough need (add_event removed e) ≡ true
    → retry_scan d need removed behind (e ∷ events) ≡ retry_at (e.at + d)
unfolding retry_scan
scan_hit d need removed behind e events h = rw h refl

scan_miss :
    (d : ℕ) (need removed : Totals) (behind : Retry) (e : UsageEvent) (events : List UsageEvent)
    → enough need (add_event removed e) ≡ false
    → retry_scan d need removed behind (e ∷ events)
      ≡ retry_scan d need (add_event removed e) behind events
unfolding retry_scan
scan_miss d need removed behind e events h = rw h refl

usage-cons :
    (removed : Totals) (e : UsageEvent) (events : List UsageEvent)
    → plus removed (usage (e ∷ events)) ≡ plus (add_event removed e) (usage events)
unfolding usage usage_from
usage-cons removed e events = ground (arith, usage_from-plus (add_event no_usage e) events)

nothing_limited : (w : WindowState) → is_limited w (usage []) ≡ false
unfolding usage usage_from
nothing_limited w = ground arith

retry_scan-FreedBy :
    (w : WindowState) (need removed : Totals) (behind : Retry) (events : List UsageEvent)
    → need ≡ need_of w (plus removed (usage events))
    → is_limited w (usage events) ≡ true
    → FreedBy w events (retry_scan w.duration need removed behind events)
retry_scan-FreedBy w need removed behind [] same h = cc (nothing_limited w)
retry_scan-FreedBy w need removed behind (e ∷ events) same h =
    let same' : need ≡ need_of w (plus (add_event removed e) (usage events)) =
      same ∙ ap (need_of w) (usage-cons removed e events) in
    let test : enough need (add_event removed e) ≡ not (is_limited w (usage events)) =
      ap (λ n. enough n (add_event removed e)) same'
      ∙ enough-is_limited w (add_event removed e) (usage events) in
    elim (Bool-cases (is_limited w (usage events))) [
      | inl more ↦
          let f = retry_scan-FreedBy w need (add_event removed e) behind events same' more in
          record {
            before = e ∷ f.before;
            event = f.event;
            after = f.after;
            splits = ap (◌∷◌ e) f.splits;
            result_is =
                scan_miss w.duration need removed behind e events (test ∙ ap not more)
                ∙ f.result_is;
            still_limited = f.still_limited;
            then_free = f.then_free;
          }
      | inr free ↦ record {
        before = [];
        event = e;
        after = events;
        splits = refl;
        result_is = scan_hit w.duration need removed behind e events (test ∙ ap not free);
        still_limited = h;
        then_free = free;
      }
    ]

-- In a rolling window that has reached a limit, the time to retry is the expiry of the first
-- event without which no limit is reached: with it one still is. The index behind the loop, which
-- would fail on an empty list, is never read.
pub rolling_retry-FreedBy :
    (w : WindowState) → is_limited w (usage w.events) ≡ true → FreedBy w w.events (rolling_retry w)
unfolding rolling_retry
rolling_retry-FreedBy w h =
    retry_scan-FreedBy w (need_of w (usage w.events)) no_usage (last_expiry w.duration w.events)
      w.events (ap (need_of w) (no_usage-plus (usage w.events))) h
