-- ===== src/Messages/Ending.antt =====
-- How the messages that a provider is sent end.
use mathlib.Core.List.{append-nil, append_assoc, reverse-cons, reverse-reverse}
use cursor_switch.Common.{
  ◌≡◌, ◌≢◌, refl, sym, ap, ◌∙◌, ◌⊎◌, ◌↔◌, inl, inr, true, List, [], ◌∷◌, ◌++◌, arith, reverse,
  Bool-cases,
}
use cursor_switch.Common.Text.{codes, trim_space, text_eq_iff}
use cursor_switch.Messages.Types.{Message}
use cursor_switch.Messages.Merge.{has_role, is_assistant_prefill_message, merge_adjacent}
use cursor_switch.Messages.Sanitize.{
  drop_placeholders, trim_dangling_assistant_tool_calls, drop_prefill, sanitize_provider_messages,
}

-- An assistant message that has a content or a reasoning, calls no tool, and carries neither a tool
-- call id nor a name.
abbrev pub IsPrefill : Message → Type 0
IsPrefill m =
    (trim_space m.role ≡ codes "assistant")
    × (m.tool_calls ≡ [])
    × (trim_space m.tool_call_id ≡ [])
    × (trim_space m.name ≡ [])
    × ((trim_space m.content ≢ []) ⊎ (trim_space m.reasoning_content ≢ []))

is_assistant_prefill_message-IsPrefill :
    (m : Message) → (is_assistant_prefill_message m ≡ true) ↔ IsPrefill m
unfolding is_assistant_prefill_message has_role
is_assistant_prefill_message-IsPrefill m =
    ground (arith, text_eq_iff (trim_space m.role) (codes "assistant"))

abbrev pub AllPrefill : List Message → Type 0
AllPrefill [] = Unit
AllPrefill (m ∷ messages) = IsPrefill m × AllPrefill messages

-- The last message, if there is one, is no prefill.
abbrev pub EndsOpen : List Message → Type 0
EndsOpen [] = Unit
EndsOpen (m ∷ []) = ¬ IsPrefill m
EndsOpen (m ∷ n ∷ messages) = EndsOpen (n ∷ messages)

-- `after` is `before` without the prefill messages at its end.
abbrev pub IsCut : List Message → List Message → Type 0
IsCut before after =
    EndsOpen after × ((dropped : List Message) × AllPrefill dropped × (before ≡ after ++ dropped))

AllPrefill-append :
    (messages : List Message) (m : Message)
    → AllPrefill messages
    → IsPrefill m
    → AllPrefill (messages ++ m ∷ [])
AllPrefill-append [] m all last = (last, tt)
AllPrefill-append (n ∷ messages) m all last = (all.0, AllPrefill-append messages m all.1 last)

EndsOpen-append :
    (messages : List Message) (m : Message) → (¬ IsPrefill m) → EndsOpen (messages ++ m ∷ [])
EndsOpen-append [] m open_ = open_
EndsOpen-append (a ∷ []) m open_ = open_
EndsOpen-append (a ∷ b ∷ messages) m open_ = EndsOpen-append (b ∷ messages) m open_

drop_prefill-IsCut :
    (backwards : List Message) → IsCut (reverse backwards) (reverse (drop_prefill backwards))
unfolding drop_prefill
drop_prefill-IsCut [] = (tt, ([], tt, refl))
drop_prefill-IsCut (m ∷ backwards) = elim (Bool-cases (is_assistant_prefill_message m)) [
  | inl prefill ↦
      let (ends, (dropped, all, split)) = drop_prefill-IsCut backwards in
      rw prefill (
        ends,
        (
          dropped ++ m ∷ [],
          AllPrefill-append dropped m all ((is_assistant_prefill_message-IsPrefill m).0 prefill),
          reverse-cons m backwards
              ∙ ap (λ front. front ++ m ∷ []) split
              ∙ append_assoc (reverse (drop_prefill backwards)) dropped (m ∷ []),
        ),
      )
  | inr stays ↦ rw stays (
    rw reverse-cons (
        EndsOpen-append (reverse backwards) m
          (λ is. cc (stays, (is_assistant_prefill_message-IsPrefill m).1 is))),
    ([], tt, sym (append-nil (reverse (m ∷ backwards)))),
  )
]

-- The messages that a provider is sent are those that are left of the input without placeholders,
-- merged and trimmed, but for the assistant prefill messages at the end: only such messages are taken
-- off, and the last message that stays is none. A prefill message is an assistant message with a
-- content or a reasoning, and without tool calls, tool call id and name; so an assistant message that
-- has only content parts, or only a signature, may be the last.
pub sanitize-IsCut :
    (input : List Message)
    → IsCut
        (trim_dangling_assistant_tool_calls (merge_adjacent (drop_placeholders input)))
        (sanitize_provider_messages input)
unfolding sanitize_provider_messages
sanitize-IsCut input =
    let trimmed = trim_dangling_assistant_tool_calls (merge_adjacent (drop_placeholders input)) in
    rw reverse-reverse at (drop_prefill-IsCut (reverse trimmed))
