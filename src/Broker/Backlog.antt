-- ===== src/Broker/Backlog.antt =====
-- internal/backend/forwarder/broker.go: the backlog of a stream, its bound, and reads from a cursor.
use cursor_switch.Common.{
  ℕ, zero, suc, ◌-◌, Bool, true, not, ◌&&◌, List, [], ◌∷◌, ◌++◌, ltb, if◌then◌else◌, length, drop,
}
use cursor_switch.Common.StringMap.{map_values}
use cursor_switch.Broker.Stream.{StreamEvent, ActiveStream, is_terminal_stream_status}

abbrev pub max_stream_backlog_events : ℕ
max_stream_backlog_events = 8192

module _ {M : Type 0} where
  -- Drops the oldest n events that do not end the stream.
  unfoldable pub drop_oldest : ℕ → List (StreamEvent M) → List (StreamEvent M)
  drop_oldest zero events = events
  drop_oldest (suc n) [] = []
  drop_oldest (suc n) (event ∷ events) =
      let kept = event ∷ drop_oldest (suc n) events in
      let dropped = drop_oldest n events in if event.ends then kept else dropped

  unfoldable pub capped : ℕ → List (StreamEvent M) → List (StreamEvent M)
  unfolding drop_oldest
  capped backlog_cap backlog =
      if ltb 0 backlog_cap && ltb backlog_cap (length backlog)
      then drop_oldest (length backlog - backlog_cap) backlog
      else backlog

  -- `Publish` on a stream that takes the event: each subscriber's channel, of size 1, then holds a
  -- signal.
  unfoldable pub published : ℕ → StreamEvent M → ℕ → ActiveStream M → ActiveStream M
  unfolding capped
  published backlog_cap event now stream = record stream {
    backlog = capped backlog_cap (stream.backlog ++ event ∷ []);
    updated_at = now;
    subscribers = map_values (λ signal. true) stream.subscribers;
  }

  unfoldable pub is_refused : StreamEvent M → ActiveStream M → Bool
  is_refused event stream = not event.ends && is_terminal_stream_status stream.status

  -- `ReadFromCursor` on the stream; the reader's cursor is never negative.
  unfoldable pub read_from_cursor : ActiveStream M → ℕ → List (StreamEvent M)
  read_from_cursor stream cursor = drop cursor stream.backlog
