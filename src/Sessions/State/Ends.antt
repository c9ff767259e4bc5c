-- ===== src/Sessions/State/Ends.antt =====
-- Which events end a session.
use syrogo.Base.{
  ℕ, ◌≡◌, refl, sym, ap, ◌∙◌, String, Bool, true, false, ◌==◌, text_eq, eq_iff, Bool-cases, inl,
  inr, if◌then◌else◌, is_empty,
}
use syrogo.Sessions.State.{
  HookEvent, Payload, stopped, current_or_unknown, status_for_notification, status_for_hook_event,
  hook_payload_needs_permission,
}

module _ (lower : ℕ → ℕ) where
  current_or_unknown-stopped :
      (current : String) → (current_or_unknown current == stopped) ≡ (current == stopped)
  unfolding current_or_unknown
  current_or_unknown-stopped current = elim (Bool-cases (is_empty current)) [
    | inl e ↦ rw ((eq_iff current "").0 e) refl
    | inr e ↦ rw e refl
  ]

  notification-stopped :
      (payload : Payload) (current : String)
      → (current == stopped) ≡ false
      → (status_for_notification lower payload current == stopped) ≡ false
  unfolding status_for_notification
  notification-stopped payload current h =
      two_ways _ _ (current_or_unknown current) (current_or_unknown-stopped current ∙ h)
    where
      two_ways :
          (a b : Bool) (c : String)
          → (c == stopped) ≡ false
          → ((if a then "waiting_permission" else if b then "idle" else c) == stopped) ≡ false
      two_ways true b c h = refl
      two_ways false true c h = refl
      two_ways false false c h = h

  -- One case of the switch over the names.
  one_case :
      (n key result others : String)
      → (result == stopped) ≡ (key == "SessionEnd")
      → ((n == key) ≡ false → (others == stopped) ≡ (n == "SessionEnd"))
      → ((if n == key then result else others) == stopped) ≡ (n == "SessionEnd")
  one_case n key result others here there = elim (Bool-cases (n == key)) [
    | inl h ↦ rw h (here ∙ ap (λ k. k == "SessionEnd") (sym ((eq_iff n key).0 h)))
    | inr h ↦ rw h (there h)
  ]

  -- An event stops a session that is not stopped exactly when it is the end of the session.
  pub status_for_hook_event-stopped :
      (event : HookEvent) (current : String)
      → (current == stopped) ≡ false
      → (status_for_hook_event lower event current == stopped) ≡ (event.event_name == "SessionEnd")
  unfolding status_for_hook_event
  status_for_hook_event-stopped event current live =
      let n : String = event.event_name in
      let other = current_or_unknown-stopped current ∙ live in
      let note = notification-stopped event.payload current live in
      let tool = tool-stopped (hook_payload_needs_permission lower event.payload) in
      rw live (
        one_case n "SessionStart" _ _ refl (λ h₁. one_case n "UserPromptSubmit" _ _ refl (λ h₂.
          one_case n "PreToolUse" _ _ tool (λ h₃. one_case n "PostToolUse" _ _ refl (λ h₄.
            one_case n "Notification" _ _ note (λ h₅. one_case n "Stop" _ _ refl (λ h₆.
              one_case n "SubagentStop" _ _ other (λ h₇.
                one_case n "PreCompact" _ _ refl
                  (λ h₈. one_case n "SessionEnd" _ _ refl (λ h₉. other ∙ sym h₉))))))))))
    where
      tool-stopped :
          (b : Bool) → ((if b then "waiting_permission" else "tool_running") == stopped) ≡ false
      tool-stopped true = refl
      tool-stopped false = refl
