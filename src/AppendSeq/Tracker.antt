-- ===== src/AppendSeq/Tracker.antt =====
-- internal/backend/forwarder/append_seq.go: the states of the requests, and the entry of `Acquire`.
--
-- A pointer to a state is its address in the store: a state that the tracker has forgotten is still
-- there for the goroutines that hold it.
use cursor_switch.Common.{ℕ, ◌+◌, ◌||◌, Option, none, some, [], ◌∷◌, ◌==◌, if◌then◌else◌}
use cursor_switch.Common.Text.{Text, trim_space}
use cursor_switch.Common.StringMap.{StringMap, lookup, insert, delete}
use cursor_switch.Messages.{is_empty}
use cursor_switch.AppendSeq.State.{
  AppendSequenceState, is_not_positive, new_append_sequence_state, expired, touch,
}

pub record AppendSequenceTracker : Type 0 where
  pub states : StringMap ℕ
  pub store : ℕ → AppendSequenceState
  pub made : ℕ

unfoldable pub new_append_sequence_tracker : AppendSequenceTracker
new_append_sequence_tracker = record {
  states = [];
  store = λ a. new_append_sequence_state 0;
  made = 0;
}

-- An assignment through a pointer.
unfoldable pub assign :
    ℕ → AppendSequenceState → (ℕ → AppendSequenceState) → ℕ → AppendSequenceState
assign a state store b = if a == b then state else store b

-- The loop of `tracker.state` deletes the states that expired.
unfoldable pub drop_expired : (ℕ → AppendSequenceState) → ℕ → StringMap ℕ → StringMap ℕ
drop_expired store now [] = []
drop_expired store now (entry ∷ rest) =
    let kept = drop_expired store now rest in
    if expired (store entry.1) now then delete entry.0 kept else entry ∷ kept

-- The end of `tracker.state`, with what the map holds for the request.
unfoldable pub found_or_made :
    AppendSequenceTracker → Text → ℕ → Option ℕ → AppendSequenceTracker × ℕ
unfolding assign
found_or_made tracker request_id now (some a) =
    (record tracker { store = assign a (touch (tracker.store a) now) tracker.store }, a)
found_or_made tracker request_id now none =
    let a = tracker.made in
    (
      record {
        states = insert request_id a tracker.states;
        store = assign a (new_append_sequence_state now) tracker.store;
        made = a + 1;
      },
      a,
    )

unfoldable pub state_of : AppendSequenceTracker → Text → ℕ → AppendSequenceTracker × ℕ
unfolding drop_expired found_or_made
state_of tracker request_id now =
    let kept = drop_expired tracker.store now tracker.states in
    found_or_made (record tracker { states = kept }) request_id now (lookup request_id kept)

-- `Acquire` up to the call of `acquire`: `none` where it returns without a ticket at once.
unfoldable pub enter : AppendSequenceTracker → Text → ℕ → ℕ → AppendSequenceTracker × Option ℕ
enter tracker request_id append_seq now =
    let entered = state_of tracker (trim_space request_id) now in
    if is_empty (trim_space request_id) || is_not_positive append_seq
    then (tracker, none)
    else (entered.0, some entered.1)
