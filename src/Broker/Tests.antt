-- ===== src/Broker/Tests.antt =====
-- Runs of the broker at small bounds, and instances of its theorems.
use mathlib.Core.List.{Sublist}
use cursor_switch.Common.{
  ℕ, ◌-◌, ◌≤◌, ◌≡◌, ◌≢◌, refl, ◌⊎◌, ◌↔◌, true, false, none, some, List, [], ◌∷◌, arith, length,
  drop,
}
use cursor_switch.Common.Text.{codes, trim_space, ◌==◌ as text_eq, text_eq_iff}
use cursor_switch.Common.Int.{pos}
use cursor_switch.Common.StringMap.{lookup}
use cursor_switch.Broker.Stream.{
  completed, streaming, StreamEvent, ActiveStream, phase_unset, mode_agent, other_mode,
  is_terminal_stream_status, is_supported_active_mode,
}
use cursor_switch.Broker.Backlog.{drop_oldest, capped, published}
use cursor_switch.Broker.Registry.{
  stream_removed, StreamBroker, StreamContext, new_stream_broker, open_stream, get_stream,
  remove_if_idle, publish, retired, retired_effects, is_in_use,
}
use cursor_switch.Broker.Terminal.{complete, end_event}
use cursor_switch.Broker.Reader.{
  Reader, Turn, publishes, reads, until_end, read_round, new_reader, take_turns,
}
use cursor_switch.Broker.Capped.{endings, others, published-IsKept}
use cursor_switch.Broker.Delivery.{delivered, accepted}
use cursor_switch.Broker.Saturation.{published_past_bound-read_round}
use cursor_switch.Broker.Ending.{complete_again}
use cursor_switch.Broker.Removal.{IsIdle, remove_if_idle-IsIdle}

abbrev message_event : ℕ → StreamEvent ℕ
message_event n = record {
  message = some n;
  ends = false;
  terminal_error_code = [];
  terminal_error_message = [];
}

abbrev last_event : StreamEvent ℕ
last_event = record {
  message = none;
  ends = true;
  terminal_error_code = [];
  terminal_error_message = [];
}

abbrev agent_context : StreamContext
agent_context = record {
  conversation_id = codes "c1";
  turn_seq = pos 1;
  model_id = codes "m";
  model_name = codes "Model";
  mode = mode_agent;
  latest_user_text = codes "hi";
}

abbrev some_stream : List (StreamEvent ℕ) → ActiveStream ℕ
some_stream events = record {
  request_id = codes "r1";
  conversation_id = codes "c1";
  turn_seq = pos 1;
  model_id = codes "m";
  model_name = codes "Model";
  mode = mode_agent;
  latest_user_text = codes "hi";
  status = streaming;
  phase = phase_unset;
  provider_active = false;
  has_provider_cancel = false;
  backlog = events;
  subscribers = [];
  cleanup_timer = none;
  cleanup_seq = 0;
  created_at = 1;
  updated_at = 1;
}

abbrev holding : ActiveStream ℕ → StreamBroker ℕ
holding stream = record {
  streams = (codes "r1", stream) ∷ [];
  next_id = 0;
  backlog_cap = 3;
  effects = [];
}

r2-r1 : trim_space (codes "r2") ≢ trim_space (codes "r1")
unfolding trim_space text_eq
r2-r1 h =
    let same : text_eq (trim_space (codes "r2")) (trim_space (codes "r1")) ≡ true =
      (text_eq_iff (trim_space (codes "r2")) (trim_space (codes "r1"))).1 h in
    cc

-- A backlog of bound 2 drops the oldest event that does not end the stream.
drops :
    (published 2 last_event 7 (some_stream (last_event ∷ message_event 1 ∷ []))).backlog
    ≡ last_event ∷ last_event ∷ []
unfolding published capped drop_oldest
drops = refl

-- A mode that is not supported opens nothing.
refuses :
    (open_stream
      (new_stream_broker {M = ℕ})
      (codes "r1")
      (record agent_context { mode = other_mode })
      1).1
    ≡ none
unfolding open_stream is_supported_active_mode trim_space
refuses = refl

published-IsKept_example :
    let before = message_event 1 ∷ last_event ∷ message_event 2 ∷ message_event 3 ∷ [] in
    let after =
      (published 2
        (message_event 3)
        7
        (some_stream (message_event 1 ∷ last_event ∷ message_event 2 ∷ []))).backlog in
    Sublist after before
    × (endings after ≡ endings before)
    × (others after ≡ drop (length before - 2) (others before))
    × ((length after ≤ 2) ⊎ (others after ≡ []))
published-IsKept_example =
    published-IsKept 2 7 (message_event 3)
      (some_stream (message_event 1 ∷ last_event ∷ message_event 2 ∷ [])) (omega arith)

abbrev some_turns : List (Turn ℕ)
some_turns =
    publishes (message_event 1) 1
    ∷ reads
    ∷ publishes last_event 2
    ∷ publishes (message_event 2) 3
    ∷ []

delivered_example :
    let (after, reader) = take_turns 3 (some_stream [], new_reader) some_turns in
    (read_round after reader).handled
    ≡ until_end (accepted (is_terminal_stream_status (some_stream []).status) some_turns)
unfolding is_terminal_stream_status
delivered_example = delivered 3 (some_stream []) some_turns refl (omega arith)

abbrev at_bound : Reader ℕ
at_bound = record { cursor = 2; handled = message_event 1 ∷ message_event 2 ∷ []; returned = false }

abbrev full_stream : ActiveStream ℕ
full_stream = some_stream (message_event 1 ∷ message_event 2 ∷ [])

published_past_bound-read_round_example :
    let (after, then_reader) =
      take_turns 2 (full_stream, at_bound) (publishes (message_event 3) 4 ∷ reads ∷ []) in
    (then_reader ≡ at_bound) × (read_round (published 2 last_event 7 after) then_reader ≡ at_bound)
published_past_bound-read_round_example =
    published_past_bound-read_round 2 7 full_stream at_bound
      (publishes (message_event 3) 4 ∷ reads ∷ []) last_event (omega arith) (refl, refl)
      (refl, refl) (refl, tt)

complete_again_example :
    let (after, err) = complete (holding full_stream) (codes "r1") [] (codes "done ") 9 in
    (err ≡ none)
    × ((s : ActiveStream ℕ) × (get_stream after (codes "r1") ≡ some s)
        × (s.status ≡ completed)
        × (endings s.backlog ≡ end_event (trim_space []) (trim_space (codes "done ")) ∷ []))
    × (complete after (codes "r1") [] [] 10 ≡ (after, none))
    × (publish after (codes "r1") (message_event 4) 10 ≡ (after, none))
unfolding get_stream lookup trim_space text_eq is_terminal_stream_status
complete_again_example =
    complete_again (holding full_stream) (codes "r1") [] (codes "done ") [] [] (message_event 4) 9
      10 full_stream refl refl refl

abbrev ended_stream : ActiveStream ℕ
ended_stream = record (some_stream (last_event ∷ [])) { status = completed }

remove_if_idle-IsIdle_example :
    let (after, removed) = remove_if_idle (holding ended_stream) (codes "r1") in
    ((removed ≡ true) ↔ IsIdle ended_stream)
    × (get_stream after (codes "r1") ≡ none)
    × ((retired ended_stream).backlog ≡ ended_stream.backlog)
    × (after.effects ≡ stream_removed (trim_space (codes "r1")) ∷ [])
    × (get_stream after (codes "r2") ≡ get_stream (holding ended_stream) (codes "r2"))
unfolding get_stream lookup trim_space text_eq is_terminal_stream_status is_in_use retired_effects
    remove_if_idle
remove_if_idle-IsIdle_example =
    remove_if_idle-IsIdle (holding ended_stream) (codes "r1") (codes "r2") ended_stream refl refl
      r2-r1
