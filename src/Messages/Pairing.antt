-- ===== src/Messages/Pairing.antt =====
-- Every tool call that a provider is sent has its answer, and every answer its call.
use mathlib.Core.List.{reverse-cons, reverse-reverse}
use cursor_switch.Common.{
  ℕ, zero, suc, ◌≡◌, ◌⊎◌, inl, inr, true, false, List, [], ◌∷◌, ◌++◌, arith, length, drop,
  Bool-cases, reverse,
}
use cursor_switch.Messages.Types.{ToolCallDescriptor, Message}
use cursor_switch.Messages.Merge.{
  is_assistant, is_tool, has_role, reindex, is_assistant_prefill_message, merge_adjacent,
}
use cursor_switch.Messages.Sanitize.{
  tool_run, responded, answered_calls, call_ids, allowed_answers, trimmed_group, calls_tools,
  trim_loop, trim_dangling_assistant_tool_calls, drop_prefill, drop_placeholders,
  sanitize_provider_messages,
}
use cursor_switch.Messages.Groups.{
  AllAnswered, WellPaired, AllTools, tool-not_assistant, call_ids-reindex, AllHas-call_ids,
  answered-AllAnswered, allowed-AllAsked, tool_run-AllTools, allowed-AllTools, tool_run-append,
  tool_run-drop,
}

assistant-not_tool : (m : Message) → is_assistant m ≡ true → is_tool m ≡ false
assistant-not_tool m h = ground (arith, tool-not_assistant m)

-- The three outcomes of a group.
group-cases :
    (m : Message) (run : List Message)
    → let next = reindex 0 (answered_calls (responded run) m.tool_calls) in
      (trimmed_group m run ≡ record m { tool_calls = next } ∷ allowed_answers (call_ids next) run)
      ⊎ (trimmed_group m run ≡ record m { tool_calls = [] } ∷ [])
      ⊎ (trimmed_group m run ≡ [])
unfolding trimmed_group
group-cases m run = ground arith

tool_run-assistant :
    (m : Message) (calls : List ToolCallDescriptor) (rest : List Message)
    → is_assistant m ≡ true
    → tool_run (record m { tool_calls = calls } ∷ rest) ≡ []
unfolding tool_run has_role
tool_run-assistant m calls rest a = ground (arith, assistant-not_tool m a)

tool_run-group :
    (m : Message) (run rest : List Message)
    → is_assistant m ≡ true
    → tool_run rest ≡ []
    → tool_run (trimmed_group m run ++ rest) ≡ []
tool_run-group m run rest a stop = elim (group-cases m run) [
  | inl kept ↦ rw kept (tool_run-assistant m _ _ a)
  | inr (inl emptied) ↦ rw emptied (tool_run-assistant m _ _ a)
  | inr (inr dropped) ↦ rw dropped stop
]

tool_run-other : (m : Message) (rest : List Message) → is_tool m ≡ false → tool_run (m ∷ rest) ≡ []
unfolding tool_run
tool_run-other m rest h = rw h

not_tool-of_run : (m : Message) (rest : List Message) → tool_run (m ∷ rest) ≡ [] → is_tool m ≡ false
unfolding tool_run
not_tool-of_run m rest h = ground arith

calls_tools-assistant : (m : Message) → calls_tools m ≡ true → is_assistant m ≡ true
calls_tools-assistant m h = ground arith

-- What follows a group begins with no tool message, also when groups are dropped whole.
tool_run-trim_loop :
    (k : ℕ) (input : List Message)
    → tool_run (drop k input) ≡ []
    → tool_run (trim_loop k input) ≡ []
unfolding trim_loop
tool_run-trim_loop zero [] h = h
tool_run-trim_loop (suc k) [] h = h
tool_run-trim_loop (suc k) (m ∷ input) h = tool_run-trim_loop k input h
tool_run-trim_loop zero (m ∷ input) h = elim (Bool-cases (calls_tools m)) [
  | inl calls ↦ rw (calls) (
      tool_run-group m (tool_run input) _ (calls_tools-assistant m calls)
        (tool_run-trim_loop (length (tool_run input)) input (tool_run-drop input)))
  | inr plain ↦ rw plain (tool_run-other m _ (not_tool-of_run m input h))
]

WellPaired-append :
    (run rest : List Message) → AllTools run → WellPaired rest → WellPaired (run ++ rest)
WellPaired-append [] rest h w = w
WellPaired-append (m ∷ run) rest h w =
    ((λ calls. ground (arith, tool-not_assistant m h.0)), WellPaired-append run rest h.1 w)

calls_tools-emptied : (m : Message) → calls_tools (record m { tool_calls = [] }) ≡ false
unfolding has_role
calls_tools-emptied m = ground arith

group-WellPaired :
    (m : Message) (run rest : List Message)
    → AllTools run
    → tool_run rest ≡ []
    → WellPaired rest
    → WellPaired (trimmed_group m run ++ rest)
group-WellPaired m run rest tools stop w =
    let answered = answered_calls (responded run) m.tool_calls in
    let next = reindex 0 answered in
    let allowed = allowed_answers (call_ids next) run in
    let all_tools : AllTools allowed = allowed-AllTools (call_ids next) run tools in
    let all_answered : AllAnswered next allowed =
      answered-AllAnswered 0 (call_ids next) run m.tool_calls
        (rw (call_ids-reindex 0 answered) (AllHas-call_ids answered)) in
    elim (group-cases m run) [
      | inl kept ↦ rw kept (
        (λ _.
            rw (tool_run-append allowed rest all_tools stop)
              (all_answered, allowed-AllAsked next run)),
        WellPaired-append allowed rest all_tools w,
      )
      | inr (inl emptied) ↦ rw emptied ((λ calls. cc (calls_tools-emptied m)), w)
      | inr (inr dropped) ↦ rw dropped w
    ]

trim_loop-WellPaired : (k : ℕ) (input : List Message) → WellPaired (trim_loop k input)
unfolding trim_loop
trim_loop-WellPaired zero [] = tt
trim_loop-WellPaired (suc k) [] = tt
trim_loop-WellPaired (suc k) (m ∷ input) = trim_loop-WellPaired k input
trim_loop-WellPaired zero (m ∷ input) = elim (Bool-cases (calls_tools m)) [
  | inl calls ↦ rw calls (
      group-WellPaired m (tool_run input) (trim_loop (length (tool_run input)) input)
        (tool_run-AllTools input)
        (tool_run-trim_loop (length (tool_run input)) input (tool_run-drop input))
        (trim_loop-WellPaired (length (tool_run input)) input))
  | inr plain ↦ rw plain ((λ calls. cc), trim_loop-WellPaired 0 input)
]

-- The last loop of `sanitizeProviderMessages` takes messages off the end that call no tools and are
-- no tool messages.
tool_run-append_other :
    (rest : List Message) (m : Message)
    → is_tool m ≡ false
    → tool_run (rest ++ m ∷ []) ≡ tool_run rest
unfolding tool_run
tool_run-append_other [] m h = rw h
tool_run-append_other (x ∷ rest) m h = ground (arith, tool_run-append_other rest m h)

WellPaired-init :
    (rest : List Message) (m : Message)
    → is_tool m ≡ false
    → WellPaired (rest ++ m ∷ [])
    → WellPaired rest
WellPaired-init [] m h w = tt
WellPaired-init (x ∷ rest) m h w =
    (rw (← tool_run-append_other rest m h) w.0, WellPaired-init rest m h w.1)

prefill-not_tool : (m : Message) → is_assistant_prefill_message m ≡ true → is_tool m ≡ false
unfolding is_assistant_prefill_message
prefill-not_tool m h = ground (arith, assistant-not_tool m)

drop_prefill-WellPaired :
    (backwards : List Message)
    → WellPaired (reverse backwards)
    → WellPaired (reverse (drop_prefill backwards))
unfolding drop_prefill
drop_prefill-WellPaired [] w = w
drop_prefill-WellPaired (m ∷ backwards) w = elim (Bool-cases (is_assistant_prefill_message m)) [
  | inl prefill ↦ rw prefill (
      drop_prefill-WellPaired backwards (
        WellPaired-init (reverse backwards) m (prefill-not_tool m prefill)
          (rw (reverse-cons) at w)))
  | inr stays ↦ rw stays w
]

-- In the messages that a provider is sent, each assistant message that calls tools is followed by a
-- run of tool messages that answers every one of its calls, and answers no call that it does not
-- make; so no call is left without its answer.
pub sanitize-WellPaired : (input : List Message) → WellPaired (sanitize_provider_messages input)
unfolding sanitize_provider_messages trim_dangling_assistant_tool_calls
sanitize-WellPaired input =
    let trimmed = trim_loop 0 (merge_adjacent (drop_placeholders input)) in
    drop_prefill-WellPaired (reverse trimmed)
      (rw (reverse-reverse) (trim_loop-WellPaired 0 (merge_adjacent (drop_placeholders input))))
