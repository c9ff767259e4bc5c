-- ===== src/Sessions/State.antt =====
-- internal/sessions/state.go: the status that a hook event leads to. A status is its text. A text
-- of a payload is the list of its code points, `lower` is `unicode.ToLower`, and the order of the
-- entries is the order in which a `range` meets them.
pub mod Ends
use syrogo.Base.{
  ℕ, String, Bool, true, false, ◌&&◌, ◌||◌, List, [], ◌∷◌, ◌++◌, map, Option, none, some,
  if◌then◌else◌, ◌==◌, text_eq, is_empty, is_some,
}
use syrogo.Runtime.{codes}
use syrogo.Router.Wildcard.{Bytes, index}

mutual
  pub data Payload : Type 0 where
    done : Payload
    entry : String → Value → Payload → Payload

  pub data Value : Type 0 where
    text : String → Value
    flag : Bool → Value
    object : Payload → Value
    other_value : Value

pub record HookEvent : Type 0 where
  pub session_id : String
  pub event_name : String
  pub payload : Payload
  pub received_at : ℕ

abbrev pub stopped : String
stopped = "stopped"

unfoldable pub current_or_unknown : String → String
current_or_unknown current = if is_empty current then "unknown" else current

-- `payload[key].(bool)`, false where the key is missing or holds something else.
unfoldable pub flag_of : Payload → String → Bool
flag_of done key = false
flag_of (entry k (flag b) payload) key = if k == key then b else flag_of payload key
flag_of (entry k _ payload) key = if k == key then false else flag_of payload key

unfoldable pub join_string_payload_values : Payload → Bytes
join_string_payload_values done = []
join_string_payload_values (entry k (text s) payload) =
    codes s ++ b' ' ∷ join_string_payload_values payload
join_string_payload_values (entry k (flag b) payload) = join_string_payload_values payload
join_string_payload_values (entry k (object inner) payload) =
    join_string_payload_values inner ++ join_string_payload_values payload
join_string_payload_values (entry k other_value payload) = join_string_payload_values payload

module _ (lower : ℕ → ℕ) where
  -- `strings.Contains(strings.ToLower(s), needle)`.
  unfoldable pub contains_text : Bytes → String → Bool
  unfolding index
  contains_text s needle = is_some (index (codes needle) (map lower s))

  unfoldable pub string_value_contains : Payload → String → Bool
  unfolding contains_text join_string_payload_values
  string_value_contains payload needle = contains_text (join_string_payload_values payload) needle

  unfoldable pub hook_payload_needs_permission : Payload → Bool
  unfolding flag_of string_value_contains
  hook_payload_needs_permission payload =
      flag_of payload "permission_required"
      || flag_of payload "requires_permission"
      || flag_of payload "permissionRequired"
      || (string_value_contains payload "permission" && string_value_contains payload "request")

  unfoldable pub status_for_notification : Payload → String → String
  unfolding contains_text join_string_payload_values current_or_unknown
  status_for_notification payload current =
      let message : Bytes = join_string_payload_values payload in
      if contains_text message "permission"
        || contains_text message "approval"
        || contains_text message "approve"
      then "waiting_permission"
      else if contains_text message "waiting" || contains_text message "idle"
      then "idle"
      else current_or_unknown current

  unfoldable pub status_for_hook_event : HookEvent → String → String
  unfolding hook_payload_needs_permission status_for_notification current_or_unknown
  status_for_hook_event event current =
      if current == stopped
      then stopped
      else if event.event_name == "SessionStart"
      then "idle"
      else if event.event_name == "UserPromptSubmit"
      then "running"
      else if event.event_name == "PreToolUse"
      then (if hook_payload_needs_permission event.payload
          then "waiting_permission"
          else "tool_running")
      else if event.event_name == "PostToolUse"
      then "running"
      else if event.event_name == "Notification"
      then status_for_notification event.payload current
      else if event.event_name == "Stop"
      then "idle"
      else if event.event_name == "SubagentStop"
      then current_or_unknown current
      else if event.event_name == "PreCompact"
      then "compacting"
      else if event.event_name == "SessionEnd"
      then stopped
      else current_or_unknown current
