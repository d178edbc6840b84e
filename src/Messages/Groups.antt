-- ===== src/Messages/Groups.antt =====
-- A tool call, the run of tool messages that answers it, and what the trimming keeps of both.
use cursor_switch.Common.{
  ℕ, ◌+◌, ◌≡◌, refl, ap, inl, inr, true, false, List, [], ◌∷◌, ◌++◌, map, arith, length, drop,
  Bool-cases,
}
use cursor_switch.Common.Text.{Text, codes, trim_space, text_eq_iff}
use cursor_switch.Messages.Types.{ToolCallDescriptor, Message}
use cursor_switch.Messages.Merge.{is_assistant, is_tool, has_role, reindex}
use cursor_switch.Messages.Sanitize.{
  has, tool_run, responded, answered_calls, call_ids, allowed_answers, calls_tools,
}

abbrev pub answer_ids : List Message → List Text
answer_ids run = map (λ (m : Message). trim_space m.tool_call_id) run

abbrev pub AllAnswered : List ToolCallDescriptor → List Message → Type 0
AllAnswered [] run = Unit {0}
AllAnswered (call ∷ calls) run =
    (has (trim_space call.id) (answer_ids run) ≡ true) × AllAnswered calls run

abbrev pub AllAsked : List Message → List ToolCallDescriptor → Type 0
AllAsked [] calls = Unit {0}
AllAsked (message ∷ run) calls =
    (has (trim_space message.tool_call_id) (call_ids calls) ≡ true) × AllAsked run calls

-- Each assistant message that calls tools is followed by a run of tool messages that answers its
-- calls, all of them and nothing else.
abbrev pub WellPaired : List Message → Type 0
WellPaired [] = Unit {0}
WellPaired (message ∷ rest) =
    (calls_tools message ≡ true
      → AllAnswered message.tool_calls (tool_run rest)
        × AllAsked (tool_run rest) message.tool_calls)
    × WellPaired rest

abbrev pub AllTools : List Message → Type 0
AllTools [] = Unit {0}
AllTools (message ∷ run) = (is_tool message ≡ true) × AllTools run

pub tool-not_assistant : (m : Message) → is_tool m ≡ true → is_assistant m ≡ false
unfolding has_role
tool-not_assistant m h = ground (
  arith,
  text_eq_iff (trim_space m.role) (codes "tool"),
  text_eq_iff (trim_space m.role) (codes "assistant"),
)

pub call_ids-reindex :
    (n : ℕ) (calls : List ToolCallDescriptor) → call_ids (reindex n calls) ≡ call_ids calls
unfolding reindex
call_ids-reindex n [] = refl
call_ids-reindex n (call ∷ calls) = ap (◌∷◌ (trim_space call.id)) (call_ids-reindex (n + 1) calls)

-- An answered id that is asked for is among the answers that stay.
has-allowed_answers :
    (k : Text) (ids : List Text) (run : List Message)
    → has k (responded run) ≡ true
    → has k ids ≡ true
    → has k (answer_ids (allowed_answers ids run)) ≡ true
unfolding responded allowed_answers
has-allowed_answers k ids [] r a = r
has-allowed_answers k ids (m ∷ run) r a =
    ground (arith, has-allowed_answers k ids run, text_eq_iff (trim_space m.tool_call_id) k)

abbrev pub AllHas : List Text → List ToolCallDescriptor → Type 0
AllHas ids [] = Unit {0}
AllHas ids (call ∷ calls) = (has (trim_space call.id) ids ≡ true) × AllHas ids calls

AllHas-cons :
    (k : Text) (ids : List Text) (calls : List ToolCallDescriptor)
    → AllHas ids calls
    → AllHas (k ∷ ids) calls
AllHas-cons k ids [] h = tt
AllHas-cons k ids (call ∷ calls) h = (ground (arith, h.0), AllHas-cons k ids calls h.1)

pub AllHas-call_ids : (calls : List ToolCallDescriptor) → AllHas (call_ids calls) calls
AllHas-call_ids [] = tt
AllHas-call_ids (call ∷ calls) =
    let k = trim_space call.id in
    (ground (arith, text_eq_iff k k), AllHas-cons k (call_ids calls) calls (AllHas-call_ids calls))

pub answered-AllAnswered :
    (n : ℕ) (ids : List Text) (run : List Message) (calls : List ToolCallDescriptor)
    → AllHas ids (answered_calls (responded run) calls)
    → AllAnswered (reindex n (answered_calls (responded run) calls)) (allowed_answers ids run)
unfolding reindex answered_calls
answered-AllAnswered n ids run [] h = tt
answered-AllAnswered n ids run (call ∷ calls) h =
    elim (Bool-cases (has (trim_space call.id) (responded run))) [
      | inl found ↦
          let h' : AllHas ids (call ∷ answered_calls (responded run) calls) =
            rw (found, answered_calls) at h in
          rw found (
            has-allowed_answers (trim_space call.id) ids run found h'.0,
            answered-AllAnswered (n + 1) ids run calls h'.1,
          )
      | inr absent ↦
          let h' : AllHas ids (answered_calls (responded run) calls) =
            rw (absent, answered_calls) at h in
          rw absent (answered-AllAnswered n ids run calls h')
    ]

pub allowed-AllAsked :
    (calls : List ToolCallDescriptor) (run : List Message)
    → AllAsked (allowed_answers (call_ids calls) run) calls
unfolding allowed_answers
allowed-AllAsked calls [] = tt
allowed-AllAsked calls (m ∷ run) =
    elim (Bool-cases (has (trim_space m.tool_call_id) (call_ids calls))) [
      | inl asked ↦ rw asked (asked, allowed-AllAsked calls run)
      | inr other ↦ rw other (allowed-AllAsked calls run)
    ]

pub tool_run-AllTools : (input : List Message) → AllTools (tool_run input)
unfolding tool_run
tool_run-AllTools [] = tt
tool_run-AllTools (m ∷ input) = elim (Bool-cases (is_tool m)) [
  | inl tool ↦ rw tool (tool, tool_run-AllTools input)
  | inr other ↦ rw other tt
]

pub allowed-AllTools :
    (ids : List Text) (run : List Message) → AllTools run → AllTools (allowed_answers ids run)
unfolding allowed_answers
allowed-AllTools ids [] h = tt
allowed-AllTools ids (m ∷ run) h = elim (Bool-cases (has (trim_space m.tool_call_id) ids)) [
  | inl asked ↦ rw asked (h.0, allowed-AllTools ids run h.1)
  | inr other ↦ rw other (allowed-AllTools ids run h.1)
]

pub tool_run-append :
    (run rest : List Message) → AllTools run → tool_run rest ≡ [] → tool_run (run ++ rest) ≡ run
unfolding tool_run
tool_run-append [] rest h e = e
tool_run-append (m ∷ run) rest h e = rw h.0 (ap (◌∷◌ m) (tool_run-append run rest h.1 e))

pub tool_run-drop : (input : List Message) → tool_run (drop (length (tool_run input)) input) ≡ []
unfolding tool_run
tool_run-drop [] = refl
tool_run-drop (m ∷ input) = elim (Bool-cases (is_tool m)) [
  | inl tool ↦ rw tool (tool_run-drop input)
  | inr other ↦ rw (other, tool_run) (rw other)
]
