-- ===== src/Broker/Registry.antt =====
-- internal/backend/forwarder/broker.go: the streams by request, subscribers, and the removal of idle
-- streams.
--
-- Each method is one step. The maps of pending work that `OpenStream` makes belong to other parts of
-- the stream and are left out.
use cursor_switch.Common.{
  ℕ, ◌+◌, ◌%◌, ◌^◌, Bool, true, false, not, ◌&&◌, ◌||◌, Option, none, some, List, [], ◌∷◌, ◌++◌,
  ltb, ◌==◌, if◌then◌else◌, length,
}
use cursor_switch.Common.Int.{ℤ, pos}
use cursor_switch.Common.Text.{Text, codes, trim_space, ◌==◌ as text_eq}
use cursor_switch.Common.Decimal.{decimal}
use cursor_switch.Common.StringMap.{StringMap, lookup, insert, delete}
use cursor_switch.Messages.{is_blank}
use cursor_switch.Broker.Stream.{
  created, phase_unset, AgentMode, mode_agent, is_supported_active_mode, is_terminal_stream_status,
  is_terminal_phase, is_unset, StreamEvent, ActiveStream,
}
use cursor_switch.Broker.Backlog.{max_stream_backlog_events, published, is_refused}

-- The calls of functions that the broker is given: `ProviderCancel` of a stream, `OnStreamRemoved`.
pub data Effect : Type 0 where
  provider_canceled stream_removed : Text → Effect

-- `backlog_cap` is the package's variable of that name.
pub record StreamBroker (M : Type 0) : Type 0 where
  pub streams : StringMap (ActiveStream M)
  pub next_id : ℕ
  pub backlog_cap : ℕ
  pub effects : List Effect

-- What `OpenStream` is given of the request.
pub record StreamContext : Type 0 where
  pub conversation_id : Text
  pub turn_seq : ℤ
  pub model_id : Text
  pub model_name : Text
  pub mode : AgentMode
  pub latest_user_text : Text

unfoldable pub not_active : Text → Text
not_active request_id = codes "request is not active: " ++ trim_space request_id

abbrev pub placeholder_context : StreamContext
placeholder_context = record {
  conversation_id = [];
  turn_seq = pos 0;
  model_id = [];
  model_name = [];
  mode = mode_agent;
  latest_user_text = [];
}

module _ {M : Type 0} where
  unfoldable pub new_stream_broker : StreamBroker M
  new_stream_broker = record {
    streams = [];
    next_id = 0;
    backlog_cap = max_stream_backlog_events;
    effects = [];
  }

  unfoldable pub get_stream : StreamBroker M → Text → Option (ActiveStream M)
  get_stream broker request_id = lookup (trim_space request_id) broker.streams

  -- The stream of a request after a change of the object that the map points to.
  unfoldable pub put_stream : StreamBroker M → Text → ActiveStream M → StreamBroker M
  put_stream broker request_id stream = record broker {
    streams = insert (trim_space request_id) stream broker.streams;
  }

  unfoldable pub refreshed : StreamContext → ℕ → ActiveStream M → ActiveStream M
  refreshed context now stream = record stream {
    conversation_id = trim_space context.conversation_id;
    turn_seq = context.turn_seq;
    model_id = trim_space context.model_id;
    model_name = trim_space context.model_name;
    mode = context.mode;
    latest_user_text = trim_space context.latest_user_text;
    status = if is_unset stream.status then created else stream.status;
    updated_at = now;
  }

  unfoldable pub new_stream : Text → StreamContext → ℕ → ActiveStream M
  new_stream request_id context now = record {
    request_id = trim_space request_id;
    conversation_id = trim_space context.conversation_id;
    turn_seq = context.turn_seq;
    model_id = trim_space context.model_id;
    model_name = trim_space context.model_name;
    mode = context.mode;
    latest_user_text = trim_space context.latest_user_text;
    status = created;
    phase = phase_unset;
    provider_active = false;
    has_provider_cancel = false;
    backlog = [];
    subscribers = [];
    cleanup_timer = none;
    cleanup_seq = 0;
    created_at = now;
    updated_at = now;
  }

  opened : Option (ActiveStream M) → Text → StreamContext → ℕ → ActiveStream M
  unfolding refreshed new_stream
  opened (some stream) request_id context now = refreshed context now stream
  opened none request_id context now = new_stream request_id context now

  -- `none` where the source returns no stream: for a blank id, and for a mode that it refuses.
  unfoldable pub open_stream :
      StreamBroker M → Text → StreamContext → ℕ → StreamBroker M × Option (ActiveStream M)
  unfolding opened
  open_stream broker request_id context now =
      if is_blank request_id
      then (broker, none)
      else if not (is_supported_active_mode context.mode)
      then (broker, none)
      else let stream = opened (get_stream broker request_id) request_id context now in
        (put_stream broker request_id stream, some stream)

  -- `stopTerminalCleanupTimerLocked`; the sequence is a uint64.
  unfoldable pub stop_cleanup_timer : ActiveStream M → ActiveStream M
  stop_cleanup_timer stream = record stream {
    cleanup_seq = (stream.cleanup_seq + 1) % 2 ^ 64;
    cleanup_timer = none;
  }

  found_or_opened : StreamBroker M → Text → ℕ → Option (ActiveStream M) → ActiveStream M
  unfolding new_stream
  found_or_opened broker request_id now (some stream) = stream
  found_or_opened broker request_id now none = new_stream request_id placeholder_context now

  -- The id of the subscriber is "" where the source returns an error.
  unfoldable pub subscribe : StreamBroker M → Text → ℕ → StreamBroker M × Text
  unfolding found_or_opened
  subscribe broker request_id now =
      let stream = found_or_opened broker request_id now (get_stream broker request_id) in
      let id = (broker.next_id + 1) % 2 ^ 64 in
      let subscriber_id = codes "sub-" ++ decimal id in
      let stopped = stop_cleanup_timer stream in
      if is_blank request_id then (broker, []) else (
        put_stream (record broker { next_id = id }) request_id
            (record stopped {
              subscribers = insert subscriber_id false stopped.subscribers;
              updated_at = now;
            }),
        subscriber_id,
      )

  unsubscribed : StreamBroker M → Text → Text → Option (ActiveStream M) → StreamBroker M × ℕ
  unsubscribed broker request_id subscriber_id none = (broker, 0)
  unsubscribed broker request_id subscriber_id (some stream) =
      let left = delete (trim_space subscriber_id) stream.subscribers in
      (put_stream broker request_id (record stream { subscribers = left }), length left)

  unfoldable pub unsubscribe : StreamBroker M → Text → Text → StreamBroker M × ℕ
  unfolding unsubscribed
  unsubscribe broker request_id subscriber_id =
      unsubscribed broker request_id subscriber_id (get_stream broker request_id)

  -- The live streams of a conversation, without that of one request.
  other_of : Text → Text → StringMap (ActiveStream M) → List Text
  other_of conversation keep [] = []
  other_of conversation keep ((id, stream) ∷ streams) =
      let rest = other_of conversation keep streams in
      if text_eq (trim_space id) keep
        || not (text_eq (trim_space stream.conversation_id) conversation)
        || is_terminal_stream_status stream.status
        || is_terminal_phase stream.phase
      then rest
      else id ∷ rest

  unfoldable pub other_conversation_request_ids : StreamBroker M → Text → Text → List Text
  unfolding other_of
  other_conversation_request_ids broker conversation_id keep =
      if is_blank conversation_id
      then []
      else other_of (trim_space conversation_id) (trim_space keep) broker.streams

  -- What `scheduleTerminalCleanup` does to the stream.
  unfoldable pub scheduled : ActiveStream M → ℕ → ActiveStream M
  scheduled stream now =
      let seq = (stream.cleanup_seq + 1) % 2 ^ 64 in
      if ltb 0 (length stream.subscribers)
      then stop_cleanup_timer stream
      else if not (is_terminal_stream_status stream.status)
      then stop_cleanup_timer stream
      else record stream { cleanup_seq = seq; cleanup_timer = some seq; updated_at = now }

  cleanup_scheduled : StreamBroker M → Text → ℕ → Option (ActiveStream M) → StreamBroker M
  unfolding scheduled
  cleanup_scheduled broker request_id now none = broker
  cleanup_scheduled broker request_id now (some stream) =
      put_stream broker request_id (scheduled stream now)

  unfoldable pub schedule_terminal_cleanup : StreamBroker M → Text → ℕ → StreamBroker M
  unfolding cleanup_scheduled
  schedule_terminal_cleanup broker request_id now =
      cleanup_scheduled broker request_id now (get_stream broker request_id)

  -- What `RemoveIfIdle` does to the stream: a terminal stream's provider is cancelled.
  unfoldable pub retired : ActiveStream M → ActiveStream M
  retired stream =
      if is_terminal_stream_status stream.status
      then record (stop_cleanup_timer stream) { has_provider_cancel = false }
      else stream

  unfoldable pub retired_effects : ActiveStream M → List Effect
  retired_effects stream =
      if is_terminal_stream_status stream.status && stream.has_provider_cancel
      then provider_canceled stream.request_id ∷ []
      else []

  unfoldable pub is_in_use : ActiveStream M → Bool
  is_in_use stream =
      stream.provider_active
      || ltb 0 (length stream.backlog)
      || not (is_blank stream.conversation_id)

  removed_if_idle : StreamBroker M → Text → Option (ActiveStream M) → StreamBroker M × Bool
  unfolding retired retired_effects is_in_use
  removed_if_idle broker request_id none = (broker, false)
  removed_if_idle broker request_id (some stream) =
      let kept =
        put_stream (record broker { effects = broker.effects ++ retired_effects stream }) request_id
          (retired stream) in
      let gone = record kept {
        streams = delete (trim_space request_id) kept.streams;
        effects = kept.effects ++ stream_removed (trim_space request_id) ∷ [];
      } in
      if ltb 0 (length stream.subscribers)
      then (kept, false)
      else if is_terminal_stream_status stream.status
      then (gone, true)
      else if is_in_use stream
      then (kept, false)
      else (gone, true)

  unfoldable pub remove_if_idle : StreamBroker M → Text → StreamBroker M × Bool
  unfolding removed_if_idle
  remove_if_idle broker request_id =
      if is_blank request_id
      then (broker, false)
      else removed_if_idle broker request_id (get_stream broker request_id)

  fired : StreamBroker M → Text → ℕ → Option (ActiveStream M) → StreamBroker M
  fired broker request_id sequence none = broker
  fired broker request_id sequence (some stream) =
      let cleared = put_stream broker request_id (record stream { cleanup_timer = none }) in
      if not (stream.cleanup_seq == sequence)
      then broker
      else if ltb 0 (length stream.subscribers)
      then cleared
      else if not (is_terminal_stream_status stream.status)
      then cleared
      else (remove_if_idle cleared request_id).0

  -- The timer fires with the sequence that it was made with.
  unfoldable pub run_scheduled_terminal_cleanup : StreamBroker M → Text → ℕ → StreamBroker M
  unfolding fired
  run_scheduled_terminal_cleanup broker request_id sequence =
      fired broker request_id sequence (get_stream broker request_id)

  published_to :
      StreamBroker M
      → Text
      → StreamEvent M
      → ℕ
      → Option (ActiveStream M)
      → StreamBroker M × Option Text
  published_to broker request_id event now none = (broker, some (not_active request_id))
  published_to broker request_id event now (some stream) =
      if is_refused event stream
      then (broker, none)
      else (put_stream broker request_id (published broker.backlog_cap event now stream), none)

  -- The error is `none` for nil.
  unfoldable pub publish : StreamBroker M → Text → StreamEvent M → ℕ → StreamBroker M × Option Text
  unfolding published_to
  publish broker request_id event now =
      published_to broker request_id event now (get_stream broker request_id)
