-- ===== src/Rewind/Decide.antt =====
-- internal/backend/forwarder/rewind.go: whether a run rewinds the conversation, and to where.
--
-- `message_id_of` stands for protojson.Unmarshal of a user message followed by `GetMessageId`: it is
-- `none` where the payload cannot be decoded.
use cursor_switch.Common.{
  ℕ, ◌+◌, Bool, true, false, not, ◌&&◌, ◌||◌, Option, none, some, List, [], ◌∷◌, ltb, if◌then◌else◌,
  length,
}
use cursor_switch.Common.Int.{ℤ, pos, negsuc, ltb_ℤ, leb_ℤ}
use cursor_switch.Common.Text.{Text, codes, trim_space, ◌==◌}
use cursor_switch.Messages.{is_empty, is_blank}

pub record HistoryEntry : Type 0 where
  pub seq : ℤ
  pub turn_seq : ℤ
  pub request_id : Text
  pub role : Text
  pub kind : Text
  pub tool_call_id : Text
  pub parent_tool_call_id : Text
  pub payload : Text
  pub created_at : ℕ

-- What the decision reads of the intent: `message_id` is `none` without a user message, and
-- `client_turns`, the number of turns in the client's state, without such a state.
pub record InboundIntent : Type 0 where
  pub kind : Text
  pub prewarm : Bool
  pub message_id : Option Text
  pub action_case : Text
  pub client_turns : Option ℕ

-- What it reads of the conversation.
pub record ConversationFile : Type 0 where
  pub entries : List HistoryEntry
  pub next_turn_seq : ℤ

pub record RunRewindDecision : Type 0 where
  pub evaluated : Bool
  pub apply : Bool
  pub reason : Text
  pub skip_reason : Text
  pub incoming_message_id : Text
  pub has_client_turn_count : Bool
  pub client_turn_count : ℤ
  pub server_tail_turn_seq : ℤ
  pub server_next_turn_seq : ℤ
  pub target_turn_seq : ℤ
  pub target_entry_seq : ℤ
  pub target_request_id : Text
  pub match_count : ℕ
  pub dropped_entry_count : ℕ
  pub dropped_turn_count : ℕ
  pub dropped_seq_start : ℤ
  pub dropped_seq_end : ℤ
  pub prefix_entries : List HistoryEntry

abbrev pub no_decision : RunRewindDecision
no_decision = record {
  evaluated = false;
  apply = false;
  reason = [];
  skip_reason = [];
  incoming_message_id = [];
  has_client_turn_count = false;
  client_turn_count = negsuc 0;
  server_tail_turn_seq = pos 0;
  server_next_turn_seq = pos 0;
  target_turn_seq = pos 0;
  target_entry_seq = pos 0;
  target_request_id = [];
  match_count = 0;
  dropped_entry_count = 0;
  dropped_turn_count = 0;
  dropped_seq_start = pos 0;
  dropped_seq_end = pos 0;
  prefix_entries = [];
}

abbrev pub eq_ℤ : ℤ → ℤ → Bool
eq_ℤ a b = leb_ℤ a b && leb_ℤ b a

abbrev is_some : Option Text → Bool
is_some none = false
is_some (some text) = true

unfoldable pub should_evaluate_run_rewind : InboundIntent → Bool
should_evaluate_run_rewind intent =
    trim_space intent.kind == codes "run"
    && not intent.prewarm
    && is_some intent.message_id
    && intent.action_case == codes "user_message_action"

abbrev pub earlier_history_entry : HistoryEntry → HistoryEntry → Bool
earlier_history_entry left right =
    if not (eq_ℤ left.turn_seq right.turn_seq)
    then ltb_ℤ left.turn_seq right.turn_seq
    else if not (eq_ℤ left.seq right.seq)
    then ltb_ℤ left.seq right.seq
    else ltb left.created_at right.created_at

-- The largest turn, and the one of before.
unfoldable pub max_turn_from : ℤ → List HistoryEntry → ℤ
max_turn_from max [] = max
max_turn_from max (entry ∷ entries) =
    max_turn_from (if ltb_ℤ max entry.turn_seq then entry.turn_seq else max) entries

unfoldable pub max_history_turn_seq : List HistoryEntry → ℤ
unfolding max_turn_from
max_history_turn_seq entries = max_turn_from (pos 0) entries

unfoldable pub prefix_entries_before_turn : List HistoryEntry → ℤ → List HistoryEntry
prefix_entries_before_turn [] target = []
prefix_entries_before_turn (entry ∷ entries) target =
    let rest = prefix_entries_before_turn entries target in
    if ltb_ℤ entry.turn_seq target then entry ∷ rest else rest

-- The counts of `droppedEntryStats`, with the turns that were met.
pub record DroppedStats : Type 0 where
  pub entries : ℕ
  pub turns : List ℤ
  pub seq_start : ℤ
  pub seq_end : ℤ

abbrev has_turn : ℤ → List ℤ → Bool
has_turn turn [] = false
has_turn turn (other ∷ turns) = eq_ℤ turn other || has_turn turn turns

unfoldable pub count_dropped : HistoryEntry → DroppedStats → DroppedStats
count_dropped entry stats = record {
  entries = stats.entries + 1;
  turns =
      if ltb_ℤ (pos 0) entry.turn_seq && not (has_turn entry.turn_seq stats.turns)
      then entry.turn_seq ∷ stats.turns
      else stats.turns;
  seq_start =
      if ltb_ℤ (pos 0) entry.seq
        && (eq_ℤ stats.seq_start (pos 0) || ltb_ℤ entry.seq stats.seq_start)
      then entry.seq
      else stats.seq_start;
  seq_end = if ltb_ℤ stats.seq_end entry.seq then entry.seq else stats.seq_end;
}

unfoldable pub dropped_from : DroppedStats → List HistoryEntry → ℤ → DroppedStats
unfolding count_dropped
dropped_from stats [] target = stats
dropped_from stats (entry ∷ entries) target =
    dropped_from (if ltb_ℤ entry.turn_seq target then stats else count_dropped entry stats) entries
      target

unfoldable pub dropped_entry_stats : List HistoryEntry → ℤ → DroppedStats
unfolding dropped_from
dropped_entry_stats entries target =
    dropped_from (record { entries = 0; turns = []; seq_start = pos 0; seq_end = pos 0 }) entries
      target

unfoldable pub first_aligned : ℤ → List HistoryEntry → Option HistoryEntry
first_aligned target [] = none
first_aligned target (entry ∷ matches) =
    let later = first_aligned target matches in
    if eq_ℤ entry.turn_seq target then some entry else later

abbrev pub is_better : HistoryEntry → Option HistoryEntry → Bool
is_better entry none = true
is_better entry (some candidate) = earlier_history_entry entry candidate

unfoldable pub earliest_after : ℤ → Option HistoryEntry → List HistoryEntry → Option HistoryEntry
earliest_after turns candidate [] = candidate
earliest_after turns candidate (entry ∷ matches) =
    earliest_after turns
      (if leb_ℤ entry.turn_seq turns
        then candidate
        else if is_better entry candidate
        then some entry
        else candidate)
      matches

unfoldable pub earliest : HistoryEntry → List HistoryEntry → HistoryEntry
earliest selected [] = selected
earliest selected (entry ∷ matches) =
    earliest (if earlier_history_entry entry selected then entry else selected) matches

-- The matches are not empty: the first, and the others.
unfoldable pub select_run_rewind_match :
    HistoryEntry → List HistoryEntry → Option ℕ → HistoryEntry × Text
unfolding first_aligned earliest_after earliest
select_run_rewind_match first others none =
    (earliest first others, codes "earliest_message_id_match")
select_run_rewind_match first others (some turns) =
    elim (first_aligned (pos (turns + 1)) (first ∷ others)) [
      | some aligned ↦ (aligned, codes "client_turn_count_aligned")
      | none ↦ elim (earliest_after (pos turns) none (first ∷ others)) [
        | some candidate ↦ (candidate, codes "first_match_after_client_turn_count")
        | none ↦ (earliest first others, codes "earliest_message_id_match")
      ]
    ]

abbrev pub client_count : Option ℕ → ℤ
client_count none = negsuc 0
client_count (some turns) = pos turns

abbrev pub incoming_id : Option Text → Text
incoming_id none = []
incoming_id (some id) = trim_space id

abbrev pub has_count : Option ℕ → Bool
has_count none = false
has_count (some turns) = true

-- The rest of `decideRunRewind`, from the selected match on.
unfoldable pub decided_at :
    List HistoryEntry → HistoryEntry × Text → RunRewindDecision → RunRewindDecision
unfolding dropped_entry_stats prefix_entries_before_turn
decided_at entries (selected, select_reason) before =
    let decision = record before {
      target_turn_seq = selected.turn_seq;
      target_entry_seq = selected.seq;
      target_request_id = trim_space selected.request_id;
    } in
    let stats = dropped_entry_stats entries selected.turn_seq in
    if leb_ℤ selected.turn_seq (pos 0)
    then record decision { skip_reason = codes "target_turn_seq_missing" }
    else if not (ltb_ℤ selected.turn_seq before.server_tail_turn_seq)
        && not (
            before.has_client_turn_count
            && ltb_ℤ before.client_turn_count before.server_tail_turn_seq)
    then record decision { skip_reason = codes "message_id_at_active_tail" }
    else record decision {
      apply = true;
      reason = select_reason;
      prefix_entries = prefix_entries_before_turn entries selected.turn_seq;
      dropped_entry_count = stats.entries;
      dropped_turn_count = length stats.turns;
      dropped_seq_start = stats.seq_start;
      dropped_seq_end = stats.seq_end;
    }

module _ (message_id_of : Text → Option Text) where
  abbrev pub is_message : Text → HistoryEntry → Bool
  is_message message_id entry =
      trim_space entry.kind == codes "user_message"
      && not (is_empty entry.payload)
      && elim (message_id_of entry.payload) [ none ↦ false | some id ↦ trim_space id == message_id ]

  unfoldable pub matching : Text → List HistoryEntry → List HistoryEntry
  matching message_id [] = []
  matching message_id (entry ∷ entries) =
      let rest = matching message_id entries in
      if is_message message_id entry then entry ∷ rest else rest

  unfoldable pub find_user_message_entries : List HistoryEntry → Text → List HistoryEntry
  unfolding matching
  find_user_message_entries entries message_id =
      if is_blank message_id then [] else matching (trim_space message_id) entries

  unfoldable pub decided_among :
      List HistoryEntry → Option ℕ → List HistoryEntry → RunRewindDecision → RunRewindDecision
  unfolding select_run_rewind_match decided_at
  decided_among entries client_turns [] before = record before {
    skip_reason = codes "message_id_not_found";
  }
  decided_among entries client_turns (first ∷ others) before =
      decided_at entries (select_run_rewind_match first others client_turns)
        (record before { match_count = length (first ∷ others) })

  unfoldable pub decide_run_rewind : InboundIntent → Option ConversationFile → RunRewindDecision
  unfolding should_evaluate_run_rewind max_history_turn_seq find_user_message_entries decided_among
  decide_run_rewind intent none =
      let incoming = incoming_id intent.message_id in
      let decision = record no_decision {
        evaluated = true;
        incoming_message_id = incoming;
        has_client_turn_count = has_count intent.client_turns;
        client_turn_count = client_count intent.client_turns;
        skip_reason =
            if is_empty incoming then codes "missing_message_id" else codes "message_id_not_found";
      } in
      if not (should_evaluate_run_rewind intent) then no_decision else decision
  decide_run_rewind intent (some conversation) =
      let incoming = incoming_id intent.message_id in
      let decision = record no_decision {
        evaluated = true;
        incoming_message_id = incoming;
        has_client_turn_count = has_count intent.client_turns;
        client_turn_count = client_count intent.client_turns;
        server_tail_turn_seq = max_history_turn_seq conversation.entries;
        server_next_turn_seq = conversation.next_turn_seq;
      } in
      if not (should_evaluate_run_rewind intent)
      then no_decision
      else if is_empty incoming
      then record decision { skip_reason = codes "missing_message_id" }
      else decided_among conversation.entries intent.client_turns
          (find_user_message_entries conversation.entries incoming) decision
