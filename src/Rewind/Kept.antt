-- ===== src/Rewind/Kept.antt =====
-- What a rewind keeps of a conversation.
use mathlib.Core.List.{Sublist}
use mathlib.Core.List.Sublist
use cursor_switch.Common.{ℕ, ◌+◌, ◌≡◌, ◌⊎◌, Bool, true, ◌&&◌, Option, some, List, [], ◌∷◌, length}
use cursor_switch.Common.Int.{ℤ, pos, ◌<ℤ◌, ltb_ℤ}
use cursor_switch.Common.Text.{Text, trim_space}
use cursor_switch.Rewind.Decide.{HistoryEntry, RunRewindDecision, is_message}
use cursor_switch.Rewind.Choice.{IsIn}

-- Every entry is of an earlier turn.
abbrev pub are_before : ℤ → List HistoryEntry → Bool
are_before target [] = true
are_before target (entry ∷ entries) = ltb_ℤ entry.turn_seq target && are_before target entries

-- What is kept: entries in their order, all of turns before the target, and the rest is counted.
abbrev pub Keeps : List HistoryEntry → RunRewindDecision → Type 0
Keeps entries decision =
    Sublist decision.prefix_entries entries
    × (are_before decision.target_turn_seq decision.prefix_entries ≡ true)
    × (decision.dropped_entry_count + length decision.prefix_entries ≡ length entries)

-- The target is a turn before the tail, or the client counts fewer turns than the tail.
abbrev IsBeforeTail : RunRewindDecision → ℤ → Type 0
IsBeforeTail before target =
    (target <ℤ before.server_tail_turn_seq)
    ⊎ ((before.has_client_turn_count ≡ true)
        × (before.client_turn_count <ℤ before.server_tail_turn_seq))

-- What an applied decision says, for the decision that it was made from.
abbrev Rewinds : List HistoryEntry → RunRewindDecision → RunRewindDecision → Type 0
Rewinds entries before decision =
    (pos 0 <ℤ decision.target_turn_seq)
    × IsBeforeTail before decision.target_turn_seq
    × Keeps entries decision

-- An entry of the conversation is of a later turn than the target, or than the turns that the client
-- counts.
abbrev pub IsBehind : List HistoryEntry → Option ℕ → ℤ → Type 0
IsBehind entries client_turns target =
    ((later : HistoryEntry) × IsIn later entries × (target <ℤ later.turn_seq))
    ⊎ ((later : HistoryEntry) × (turns : ℕ) × IsIn later entries
        × (client_turns ≡ some turns)
        × (pos turns <ℤ later.turn_seq))

module _ (message_id_of : Text → Option Text) where
  -- What the theorem says of a decision for the conversation's entries, the client's number of turns
  -- and the incoming message id.
  abbrev pub Found : List HistoryEntry → Option ℕ → Text → RunRewindDecision → Type 0
  Found entries client_turns incoming decision =
      ((pos 0 <ℤ decision.target_turn_seq)
        × IsBehind entries client_turns decision.target_turn_seq
        × Keeps entries decision)
      × ((entry : HistoryEntry) × IsIn entry entries
          × (is_message message_id_of (trim_space incoming) entry ≡ true)
          × (decision.target_turn_seq ≡ entry.turn_seq))
