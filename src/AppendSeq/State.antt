-- ===== src/AppendSeq/State.antt =====
-- internal/backend/forwarder/append_seq.go: the state of one request's sequence.
--
-- An int64 is its bit pattern. The channel `ready` is the number of channels made before it and
-- itself, 0 for nil: `close` closes it, and the next channel has the next number. A method holds the
-- mutex, so each round of the loop in `acquire` is one step.
use cursor_switch.Common.{
  ℕ, ◌+◌, ◌*◌, ◌%◌, ◌^◌, Bool, true, false, not, ◌&&◌, ◌||◌, Option, none, some, ltb, leb, ◌==◌,
  if◌then◌else◌,
}

pub record AppendSequenceState : Type 0 where
  pub next : ℕ
  pub processing : Bool
  pub ready : ℕ
  pub updated_at : Option ℕ

-- `n <= 0`
abbrev pub is_not_positive : ℕ → Bool
is_not_positive n = n == 0 || leb (2 ^ 63) n

-- The state that `tracker.state` makes.
unfoldable pub new_append_sequence_state : ℕ → AppendSequenceState
new_append_sequence_state now = record {
  next = 1;
  processing = false;
  ready = 1;
  updated_at = some now;
}

-- How a round of `acquire` ends. A round that waits has the number of the channel.
pub data Round : Type 0 where
  granted stale : Round
  waits : ℕ → Round

-- The start of a round.
unfoldable pub prepared : AppendSequenceState → ℕ → AppendSequenceState
prepared state now = record state {
  next = if is_not_positive state.next then 1 else state.next;
  ready = if state.ready == 0 then 1 else state.ready;
  updated_at = some now;
}

-- The rest of a round.
unfoldable pub decided : AppendSequenceState → ℕ → AppendSequenceState × Round
decided state append_seq =
    if append_seq == 1 && ltb 1 state.next
    then (if state.processing
        then (state, waits state.ready)
        else (record state { next = 1; processing = true }, granted))
    else if ltb append_seq state.next
    then (state, stale)
    else if append_seq == state.next && not state.processing
    then (record state { processing = true }, granted)
    else (state, waits state.ready)

unfoldable pub acquire_round : AppendSequenceState → ℕ → ℕ → AppendSequenceState × Round
unfolding prepared decided
acquire_round state append_seq now = decided (prepared state now) append_seq

unfoldable pub release : AppendSequenceState → ℕ → ℕ → AppendSequenceState
release state seq now =
    if is_not_positive seq
    then state
    else let done = record state {
      processing = false;
      next = (state.next + 1) % 2 ^ 64;
      ready = state.ready + 1;
      updated_at = some now;
    } in
      if state.processing && state.next == seq then done else record state { updated_at = some now }

-- `appendSequenceRetention`, ten minutes in nanoseconds.
abbrev pub append_sequence_retention : ℕ
append_sequence_retention = 10 * 60 * 1_000_000_000

-- The cutoff is `now` less the retention.
unfoldable pub expired : AppendSequenceState → ℕ → Bool
expired state now = if state.processing then false else elim state.updated_at [
  | none ↦ false
  | some at_time ↦ ltb (at_time + append_sequence_retention) now
]

unfoldable pub touch : AppendSequenceState → ℕ → AppendSequenceState
touch state now = record state { updated_at = some now }
