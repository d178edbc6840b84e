-- ===== src/Rewind/Tests.antt =====
-- Rewinds of a conversation of three turns, and instances of the theorems.
use cursor_switch.Common.{ℕ, ◌≡◌, refl, true, false, Option, some, [], ◌∷◌}
use cursor_switch.Common.Int.{pos}
use cursor_switch.Common.Text.{Text, codes, trim_space, ◌==◌}
use cursor_switch.Rewind.Decide.{
  HistoryEntry, InboundIntent, ConversationFile, should_evaluate_run_rewind, max_turn_from,
  max_history_turn_seq, first_aligned, earliest_after, earliest, select_run_rewind_match,
  decided_at, matching, find_user_message_entries, decided_among, decide_run_rewind,
}
use cursor_switch.Rewind.Choice.{IsIn}
use cursor_switch.Rewind.Earliest.{is_chosen, select_run_rewind_match_lem}

abbrev entry_of : ℕ → ℕ → Text → HistoryEntry
entry_of seq turn payload = record {
  seq = pos seq;
  turn_seq = pos turn;
  request_id = codes "r";
  role = codes "user";
  kind = codes "user_message";
  tool_call_id = [];
  parent_tool_call_id = [];
  payload = payload;
  created_at = seq;
}

abbrev three_turns : ConversationFile
three_turns = record {
  entries = entry_of 1 1 (codes "a") ∷ entry_of 2 2 (codes "b") ∷ entry_of 3 3 (codes "b") ∷ [];
  next_turn_seq = pos 4;
}

abbrev run_of : Text → Option ℕ → InboundIntent
run_of id turns = record {
  kind = codes "run";
  prewarm = false;
  message_id = some id;
  action_case = codes "user_message_action";
  client_turns = turns;
}

-- A payload that is its own message id.
abbrev whole_payload : Text → Option Text
whole_payload payload = some payload

rewinds_to_second :
    (decide_run_rewind whole_payload
      (run_of (codes "b") (some 1))
      (some three_turns)).target_turn_seq
    ≡ pos 2
unfolding decide_run_rewind should_evaluate_run_rewind max_history_turn_seq max_turn_from
    find_user_message_entries matching decided_among decided_at select_run_rewind_match
    first_aligned trim_space ◌==◌
rewinds_to_second = refl

at_tail :
    (decide_run_rewind whole_payload
      (run_of (codes "b") (some 3))
      (some (record three_turns { entries = entry_of 3 3 (codes "b") ∷ [] }))).skip_reason
    ≡ codes "message_id_at_active_tail"
unfolding decide_run_rewind should_evaluate_run_rewind max_history_turn_seq max_turn_from
    find_user_message_entries matching decided_among decided_at select_run_rewind_match
    first_aligned earliest_after earliest trim_space ◌==◌
at_tail = refl

select_run_rewind_match_lem_example :
    let chosen =
      (select_run_rewind_match
        (entry_of 2 2 (codes "b"))
        (entry_of 3 3 (codes "b") ∷ [])
        (some 2)).0 in
    IsIn chosen (entry_of 2 2 (codes "b") ∷ entry_of 3 3 (codes "b") ∷ [])
    × (is_chosen (some 2) chosen (entry_of 2 2 (codes "b") ∷ entry_of 3 3 (codes "b") ∷ []) ≡ true)
select_run_rewind_match_lem_example =
    select_run_rewind_match_lem (entry_of 2 2 (codes "b")) (entry_of 3 3 (codes "b") ∷ []) (some 2)
