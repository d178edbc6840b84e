-- ===== src/Broker/Reader.antt =====
-- internal/backend/forwarder/service.go: the loop of `RunSSE` that reads a stream's events.
--
-- A round of the loop reads from the cursor and sends what it got. Publishing and rounds interleave in
-- any order. A message that cannot be sent ends the loop and is left out.
use cursor_switch.Common.{ℕ, ◌+◌, Bool, true, false, List, [], ◌∷◌, ◌++◌, if◌then◌else◌, length}
use cursor_switch.Broker.Stream.{StreamEvent, ActiveStream}
use cursor_switch.Broker.Backlog.{published, is_refused, read_from_cursor}

-- The loop's variables, the events it went past so far, and whether it has returned.
pub record Reader (M : Type 0) : Type 0 where
  pub cursor : ℕ
  pub handled : List (StreamEvent M)
  pub returned : Bool

pub data Turn (M : Type 0) : Type 0 where
  publishes : StreamEvent M → ℕ → Turn M
  reads : Turn M

module _ {M : Type 0} where
  -- The events up to the first that ends the stream, which is among them.
  unfoldable pub until_end : List (StreamEvent M) → List (StreamEvent M)
  until_end [] = []
  until_end (event ∷ events) = event ∷ (if event.ends then [] else until_end events)

  abbrev pub has_end : List (StreamEvent M) → Bool
  has_end [] = false
  has_end (event ∷ events) = if event.ends then true else has_end events

  unfoldable pub read_round : ActiveStream M → Reader M → Reader M
  unfolding until_end
  read_round stream reader =
      let events = until_end (read_from_cursor stream reader.cursor) in
      if reader.returned then reader else record {
        cursor = reader.cursor + length events;
        handled = reader.handled ++ events;
        returned = has_end events;
      }

  abbrev pub new_reader : Reader M
  new_reader = record { cursor = 0; handled = []; returned = false }

  -- One turn of the publisher or of the reader.
  unfoldable pub take_turn : ℕ → ActiveStream M × Reader M → Turn M → ActiveStream M × Reader M
  take_turn backlog_cap (stream, reader) (publishes event now) =
      (if is_refused event stream then stream else published backlog_cap event now stream, reader)
  take_turn backlog_cap (stream, reader) reads = (stream, read_round stream reader)

  unfoldable pub take_turns :
      ℕ → ActiveStream M × Reader M → List (Turn M) → ActiveStream M × Reader M
  unfolding take_turn
  take_turns backlog_cap state [] = state
  take_turns backlog_cap state (turn ∷ turns) =
      take_turns backlog_cap (take_turn backlog_cap state turn) turns
