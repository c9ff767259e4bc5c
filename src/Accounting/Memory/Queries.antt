-- ===== src/Accounting/Memory/Queries.antt =====
-- internal/accounting/memory.go: what the store answers.
use syrogo.Base.{
  ℕ, zero, suc, ◌+◌, ◌-◌, ◌/◌, String, Bool, not, ◌&&◌, ◌||◌, List, [], ◌∷◌, Option, none, some,
  if◌then◌else◌, ◌==◌, nat_eq, text_eq, is_empty, ltb, length, take, keep_if,
}
use syrogo.Base.Map.{lookup, insert}
use syrogo.Base.Sort.{text_less, sort_by}
use syrogo.Runtime.{UsageRecord}
use syrogo.Router.Order.{contains}
use syrogo.Config.Checks.{Message, plain, with_text}
use syrogo.Accounting.Pricing.{backwards}
use syrogo.Accounting.Memory.{
  UsageLib, StatsItem, Group, MemoryStore, usage_group_bys, bucket_key, group_at, groups_at,
  item_at, record_time,
}

pub record Query : Type 0 where
  pub group_by : String
  pub window : String
  pub bucket : String
  pub start_date : String
  pub end_date : String
  pub client_name : String

pub data QueryResult : Type 0 where
  items : List StatsItem → QueryResult
  query_error : Message → QueryResult

pub data DateRange : Type 0 where
  range : ℕ → ℕ → DateRange
  bad_range : Message → DateRange

abbrev supported_group_by : String → Bool
supported_group_by group_by = contains usage_group_bys group_by

abbrev supported_window : String → Bool
supported_window window = contains ("total" ∷ "day" ∷ "week" ∷ "month" ∷ []) window

-- The values of a Go map.
abbrev pub values : Group → List StatsItem
values [] = []
values ((key, i) ∷ group) = i ∷ values group

-- `sort.Slice` by the value.
unfoldable pub sorted_items : Group → List StatsItem
unfolding sort_by
sorted_items group =
    sort_by (λ (a : StatsItem) (b : StatsItem). text_less a.value b.value) (values group)

-- `AddDate(0, 0, 1)` in UTC, in nanoseconds.
abbrev pub day_length : ℕ
day_length = 86400000000000

module _ (lib : UsageLib) where
  unfoldable pub merge_stats_item : StatsItem → StatsItem → String → StatsItem
  merge_stats_item dst src value =
      let read = dst.cached_input_read_tokens + src.cached_input_read_tokens in
      let written = dst.cached_input_write_tokens + src.cached_input_write_tokens in
      record {
        value = value;
        date = if is_empty dst.date then src.date else dst.date;
        agent = if is_empty dst.agent then src.agent else dst.agent;
        session_id = if is_empty dst.session_id then src.session_id else dst.session_id;
        model = if is_empty dst.model then src.model else dst.model;
        request_count = dst.request_count + src.request_count;
        success_count = dst.success_count + src.success_count;
        error_count = dst.error_count + src.error_count;
        fallback_count = dst.fallback_count + src.fallback_count;
        input_tokens = dst.input_tokens + src.input_tokens;
        output_tokens = dst.output_tokens + src.output_tokens;
        cached_input_read_tokens = read;
        cached_input_write_tokens = written;
        cache_read_tokens = read;
        cache_create_tokens = written;
        total_tokens = dst.total_tokens + src.total_tokens;
        cost_usd = lib.add_cost dst.cost_usd src.cost_usd;
        provider_usage_count = dst.provider_usage_count + src.provider_usage_count;
        estimated_usage_count = dst.estimated_usage_count + src.estimated_usage_count;
        last_seen_at =
            if text_less dst.last_seen_at src.last_seen_at
            then src.last_seen_at
            else dst.last_seen_at;
      }

  unfoldable pub merge_into : String → StatsItem → Group → Group
  unfolding merge_stats_item insert lookup
  merge_into key item merged = insert key (merge_stats_item (item_at key merged) item key) merged

  unfoldable pub merge_group : String → String → Group → Group → Group
  unfolding merge_into
  merge_group group_by bucket [] merged = merged
  merge_group group_by bucket ((value, item) ∷ group) merged =
      merge_group group_by bucket group
        (merge_into (if group_by == "date" then bucket else value) item merged)

  -- The round of the loop for one day.
  unfoldable pub merge_day : MemoryStore → String → String → String → Group → Group
  unfolding merge_into merge_group lookup
  merge_day s group_by client_name bucket merged =
      if not (is_empty client_name)
      then elim (lookup client_name
          (group_at (bucket_key "day" bucket "key") (groups_at "day" s.windows))) [
            | none ↦ merged
            | some item ↦ merge_into bucket item merged
          ]
      else merge_group group_by bucket
          (group_at (bucket_key "day" bucket group_by) (groups_at "day" s.windows)) merged

  -- The loop over the days, with a round of fuel for each.
  unfoldable pub merge_days : MemoryStore → String → String → ℕ → ℕ → ℕ → Group → Group
  unfolding merge_day
  merge_days s group_by client_name zero day end merged = merged
  merge_days s group_by client_name (suc fuel) day end merged =
      if ltb day end
      then merge_days s group_by client_name fuel (day + day_length) end
          (merge_day s group_by client_name (lib.day_text day) merged)
      else merged

  unfoldable pub query_date_range : MemoryStore → String → String → ℕ → ℕ → List StatsItem
  unfolding merge_days sorted_items
  query_date_range s group_by client_name start end =
      sorted_items
        (merge_days s group_by client_name (suc ((end - start) / day_length)) start end [])

  -- A day whose text is the same when it is written again.
  unfoldable pub parse_date : String → Option ℕ
  parse_date value = elim (lib.parse_day value) [
    | none ↦ none
    | some t ↦ if not (lib.day_text t == value) then none else some t
  ]

  unfoldable pub parse_date_range : String → String → DateRange
  unfolding parse_date
  parse_date_range start_date end_date =
      if is_empty start_date || is_empty end_date
      then bad_range (plain "start_date and end_date must be provided together")
      else elim (parse_date start_date) [
        | none ↦ bad_range (plain "start_date must be a valid YYYY-MM-DD UTC date")
        | some start ↦ elim (parse_date end_date) [
          | none ↦ bad_range (plain "end_date must be a valid YYYY-MM-DD UTC date")
          | some end ↦
              if not (ltb start end)
              then bad_range (plain "start_date must be before end_date")
              else range start end
        ]
      ]

  -- The answer for a group and a window that are supported.
  unfoldable pub query_supported : MemoryStore → Query → String → String → QueryResult
  unfolding parse_date_range query_date_range sorted_items
  query_supported s q group_by window =
      if not (is_empty q.start_date) || not (is_empty q.end_date)
      then elim (parse_date_range q.start_date q.end_date) [
        | bad_range m ↦ query_error m
        | range start end ↦
            if not (window == "total") || not (is_empty q.bucket)
            then query_error (plain "start_date/end_date cannot be combined with window/bucket")
            else items (query_date_range s group_by q.client_name start end)
      ]
      else if window == "total"
      then items (sorted_items (group_at group_by s.totals))
      else if is_empty q.bucket
      then query_error (with_text (plain "bucket is required when window=%q") window)
      else items (
          sorted_items
            (group_at (bucket_key window q.bucket group_by) (groups_at window s.windows)))

  -- With the defaults for the group and the window.
  unfoldable pub query_defaulted : MemoryStore → Query → String → String → QueryResult
  unfolding query_supported
  query_defaulted s q group_by window =
      if not (supported_group_by group_by)
      then query_error (with_text (plain "unsupported group_by %q") group_by)
      else if not (supported_window window)
      then query_error (with_text (plain "unsupported window %q") window)
      else query_supported s q group_by window

  unfoldable pub query : MemoryStore → Query → QueryResult
  unfolding query_defaulted
  query s q =
      let has_legacy = not (is_empty q.window) || not (is_empty q.bucket) in
      let has_date_range = not (is_empty q.start_date) || not (is_empty q.end_date) in
      let named = not (is_empty q.client_name) in
      if named && not (q.group_by == "date")
      then query_error (plain "client_name requires group_by=date")
      else if named && not has_date_range
      then query_error (plain "client_name requires start_date and end_date")
      else if named && has_legacy
      then query_error
          (plain "client_name start_date/end_date cannot be combined with window/bucket")
      else query_defaulted s q (if is_empty q.group_by then "key" else q.group_by)
          (if is_empty q.window then "total" else q.window)

  -- `RecentRecords`: the loop runs backwards and takes up to `limit` records that are not before
  -- `since`, and they are turned round.
  unfoldable pub recent_records : MemoryStore → ℕ → ℕ → List UsageRecord
  unfolding record_time
  recent_records s since limit =
      let count = if limit == 0 || ltb (length s.recent) limit then length s.recent else limit in
      backwards (
        take count
          (keep_if (λ r. since == 0 || not (ltb (record_time lib r) since)) (backwards s.recent)))
