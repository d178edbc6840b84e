-- ===== src/Broker/Terminal.antt =====
-- internal/backend/forwarder/broker.go: the ends of a stream.
use cursor_switch.Common.{
  ℕ, true, false, not, Option, none, some, [], ◌∷◌, ◌++◌, ltb, if◌then◌else◌, length,
}
use cursor_switch.Common.Text.{Text, codes, trim_space}
use cursor_switch.Messages.{is_blank}
use cursor_switch.Broker.Stream.{
  StreamStatus, completed, canceled, failed, is_terminal_stream_status, StreamEvent, ActiveStream,
}
use cursor_switch.Broker.Registry.{
  provider_canceled, StreamBroker, not_active, get_stream, put_stream, stop_cleanup_timer,
  schedule_terminal_cleanup, publish,
}

-- `firstNonEmpty` of two texts.
unfoldable pub first_non_empty : Text → Text → Text
first_non_empty a b =
    if not (is_blank a) then trim_space a else if not (is_blank b) then trim_space b else []

module _ {M : Type 0} where
  unfoldable pub end_event : Text → Text → StreamEvent M
  end_event code message = record {
    message = none;
    ends = true;
    terminal_error_code = code;
    terminal_error_message = message;
  }

  -- The end of `Complete`, `Fail` and `Cancel`, on the number of subscribers at their start.
  unfoldable pub published_end :
      StreamBroker M → Text → StreamEvent M → ℕ → ℕ → StreamBroker M × Option Text
  published_end broker request_id event subscribers now =
      let (after, err) = publish broker request_id event now in
      elim err [
        | some e ↦ (after, some e)
        | none ↦
            if ltb 0 subscribers
            then (after, none)
            else (schedule_terminal_cleanup after request_id now, none)
      ]

  unfoldable pub with_status : StreamStatus → ℕ → ActiveStream M → ActiveStream M
  with_status status now stream = record (stop_cleanup_timer stream) {
    status = status;
    updated_at = now;
  }

  completed_with :
      StreamBroker M
      → Text
      → Text
      → Text
      → ℕ
      → Option (ActiveStream M)
      → StreamBroker M × Option Text
  unfolding published_end
  completed_with broker request_id code message now none = (broker, some (not_active request_id))
  completed_with broker request_id code message now (some stream) =
      if is_terminal_stream_status stream.status
      then (broker, none)
      else published_end (put_stream broker request_id (with_status completed now stream))
          request_id (end_event (trim_space code) (trim_space message)) (length stream.subscribers)
          now

  unfoldable pub complete : StreamBroker M → Text → Text → Text → ℕ → StreamBroker M × Option Text
  unfolding completed_with
  complete broker request_id code message now =
      completed_with broker request_id code message now (get_stream broker request_id)

  failed_with :
      StreamBroker M
      → Text
      → Text
      → Text
      → ℕ
      → Option (ActiveStream M)
      → StreamBroker M × Option Text
  unfolding published_end
  failed_with broker request_id code message now none = (broker, some (not_active request_id))
  failed_with broker request_id code message now (some stream) =
      published_end (put_stream broker request_id (with_status failed now stream)) request_id
        (end_event (trim_space code) (trim_space message)) (length stream.subscribers) now

  unfoldable pub fail : StreamBroker M → Text → Text → Text → ℕ → StreamBroker M × Option Text
  unfolding failed_with
  fail broker request_id code message now =
      failed_with broker request_id code message now (get_stream broker request_id)

  canceled_with :
      StreamBroker M → Text → Text → ℕ → Option (ActiveStream M) → StreamBroker M × Option Text
  unfolding published_end first_non_empty
  canceled_with broker request_id message now none = (broker, some (not_active request_id))
  canceled_with broker request_id message now (some stream) =
      let effects =
        if stream.has_provider_cancel then provider_canceled stream.request_id ∷ [] else [] in
      let stopped = record (with_status canceled now stream) {
        has_provider_cancel = false;
        provider_active = false;
      } in
      published_end
        (put_stream (record broker { effects = broker.effects ++ effects }) request_id stopped)
        request_id
        (end_event (codes "canceled")
          (first_non_empty (trim_space message) (codes "[canceled] User aborted request")))
        (length stream.subscribers) now

  unfoldable pub cancel : StreamBroker M → Text → Text → ℕ → StreamBroker M × Option Text
  unfolding canceled_with
  cancel broker request_id message now =
      canceled_with broker request_id message now (get_stream broker request_id)
