-- ===== src/AppendSeq/Pool.antt =====
-- The goroutines that call `acquire` and `Release` on one state, as interleaved steps.
use cursor_switch.Common.{ℕ, zero, suc, Option, none, some, List, [], ◌∷◌, ltb, if◌then◌else◌}
use cursor_switch.AppendSeq.State.{
  AppendSequenceState, is_not_positive, Round, granted, stale, waits, new_append_sequence_state,
  acquire_round, release, touch,
}

-- A goroutine in `acquire`, with its number and the channel on which it waits; 0 before its first round.
pub record Waiter : Type 0 where
  pub append_seq : ℕ
  pub waits_on : ℕ

-- The tickets that were granted and not yet released, and all that were granted, the latest first.
pub record Pool : Type 0 where
  pub state : AppendSequenceState
  pub waiting : List Waiter
  pub held : List ℕ
  pub log : List ℕ

pub data Action : Type 0 where
  arrive : ℕ → ℕ → Action
  go_on : ℕ → ℕ → Action
  cancel : ℕ → Action
  give_back : ℕ → ℕ → Action

-- Takes the element at a position out of a list.
unfoldable pub pick {ℓ} : {A : Type ℓ} → ℕ → List A → Option (A × List A)
pick i [] = none
pick zero (x ∷ xs) = some (x, xs)
pick (suc i) (x ∷ xs) = elim (pick i xs) [ none ↦ none | some (y, ys) ↦ some (y, x ∷ ys) ]

-- `tracker.state` and the test of `Acquire` come before the first round.
unfoldable pub arrived : Pool → ℕ → ℕ → Pool
arrived pool seq now = if is_not_positive seq then pool else record pool {
  state = touch pool.state now;
  waiting = record { append_seq = seq; waits_on = 0 } ∷ pool.waiting;
}

unfoldable pub settled : Pool → Waiter → List Waiter → AppendSequenceState → Round → Pool
settled pool w rest state granted = record pool {
  state = state;
  waiting = rest;
  held = w.append_seq ∷ pool.held;
  log = w.append_seq ∷ pool.log;
}
settled pool w rest state stale = record pool { state = state; waiting = rest }
settled pool w rest state (waits ready) = record pool {
  state = state;
  waiting = record w { waits_on = ready } ∷ rest;
}

-- A waiter runs a round once its channel is closed.
unfoldable pub went_on : Pool → Waiter → List Waiter → ℕ → Pool
unfolding settled
went_on pool w rest now =
    let (state, round) = acquire_round pool.state w.append_seq now in
    if ltb w.waits_on pool.state.ready then settled pool w rest state round else pool

-- The steps with what `pick` has taken.
unfoldable pub resumed : Pool → Option (Waiter × List Waiter) → ℕ → Pool
resumed pool none now = pool
resumed pool (some (w, rest)) now = went_on pool w rest now

unfoldable pub cancelled : Pool → Option (Waiter × List Waiter) → Pool
cancelled pool none = pool
cancelled pool (some (w, rest)) = record pool { waiting = rest }

unfoldable pub given_back : Pool → Option (ℕ × List ℕ) → ℕ → Pool
given_back pool none now = pool
given_back pool (some (seq, rest)) now = record pool {
  state = release pool.state seq now;
  held = rest;
}

unfoldable pub step : Pool → Action → Pool
step pool (arrive seq now) = arrived pool seq now
step pool (go_on i now) = resumed pool (pick i pool.waiting) now
step pool (cancel i) = cancelled pool (pick i pool.waiting)
step pool (give_back i now) = given_back pool (pick i pool.held) now

unfoldable pub start : ℕ → Pool
start now = record { state = new_append_sequence_state now; waiting = []; held = []; log = [] }

unfoldable pub run : Pool → List Action → Pool
unfolding step
run pool [] = pool
run pool (action ∷ actions) = run (step pool action) actions
