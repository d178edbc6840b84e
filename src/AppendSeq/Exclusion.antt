-- ===== src/AppendSeq/Exclusion.antt =====
-- One ticket at a time.
use cursor_switch.Common.{
  ℕ, zero, suc, ◌<◌, ◌≡◌, refl, inl, inr, true, false, Option, none, some, List, [], ◌∷◌, arith,
  if◌then◌else◌, Bool-cases, ap, sym,
}
use cursor_switch.AppendSeq.State.{
  AppendSequenceState, acquire_round, release, touch, new_append_sequence_state, is_not_positive,
}
use cursor_switch.AppendSeq.Pool.{
  Waiter, Pool, Action, arrive, go_on, cancel, give_back, pick, arrived, went_on, step, start, run,
  resumed, cancelled, given_back,
}

-- The tickets that are out when the state is this one.
abbrev pub tickets : AppendSequenceState → List ℕ
tickets state = if state.processing then state.next ∷ [] else []

-- The number that is due, as the next round reads it.
abbrev pub due : AppendSequenceState → ℕ
due state = if is_not_positive state.next then 1 else state.next

pub record Exclusive (pool : Pool) : Type 0 where
  pub held : pool.held ≡ tickets pool.state
  pub in_range : pool.state.processing ≡ true → is_not_positive pool.state.next ≡ false
  pub ready : 0 < pool.state.ready

arrived-Exclusive : (pool : Pool) (seq now : ℕ) → Exclusive pool → Exclusive (arrived pool seq now)
unfolding arrived touch
arrived-Exclusive pool seq now x = elim (Bool-cases (is_not_positive seq)) [
  | inl bad ↦ rw bad x
  | inr good ↦ rw good (record { held = x.held; in_range = x.in_range; ready = x.ready })
]

went_on-held :
    (pool : Pool) (w : Waiter) (rest : List Waiter) (now : ℕ)
    → pool.held ≡ tickets pool.state
    → (pool.state.processing ≡ true → is_not_positive pool.state.next ≡ false)
    → (went_on pool w rest now).held ≡ tickets (went_on pool w rest now).state
unfolding went_on acquire_round
went_on-held pool w rest now h r = ground arith

went_on-in_range :
    (pool : Pool) (w : Waiter) (rest : List Waiter) (now : ℕ)
    → (pool.state.processing ≡ true → is_not_positive pool.state.next ≡ false)
    → (went_on pool w rest now).state.processing ≡ true
    → is_not_positive (went_on pool w rest now).state.next ≡ false
unfolding went_on acquire_round
went_on-in_range pool w rest now r p = ground arith

went_on-ready :
    (pool : Pool) (w : Waiter) (rest : List Waiter) (now : ℕ)
    → 0 < pool.state.ready
    → (went_on pool w rest now).state.ready ≡ pool.state.ready
unfolding went_on acquire_round
went_on-ready pool w rest now r = ground arith

released-held :
    (state : AppendSequenceState) (seq : ℕ) (rest : List ℕ) (i now : ℕ)
    → pick i (tickets state) ≡ some (seq, rest)
    → (state.processing ≡ true → is_not_positive state.next ≡ false)
    → rest ≡ tickets (release state seq now)
unfolding release pick
released-held state seq rest zero now h r = ground arith
released-held state seq rest (suc i) now h r = ground arith

released-in_range :
    (state : AppendSequenceState) (seq : ℕ) (rest : List ℕ) (i now : ℕ)
    → pick i (tickets state) ≡ some (seq, rest)
    → (state.processing ≡ true → is_not_positive state.next ≡ false)
    → (release state seq now).processing ≡ true
    → is_not_positive (release state seq now).next ≡ false
unfolding release
released-in_range state seq rest i now h r p = ground arith

released-ready :
    (state : AppendSequenceState) (seq now : ℕ)
    → 0 < state.ready
    → 0 < (release state seq now).ready
unfolding release
released-ready state seq now r = ground arith

resumed-Exclusive :
    (pool : Pool) (picked : Option (Waiter × List Waiter)) (now : ℕ)
    → Exclusive pool
    → Exclusive (resumed pool picked now)
unfolding resumed
resumed-Exclusive pool none now x = x
resumed-Exclusive pool (some (w, rest)) now x = record {
  held = went_on-held pool w rest now x.held x.in_range;
  in_range = went_on-in_range pool w rest now x.in_range;
  ready = rw (went_on-ready pool w rest now x.ready) x.ready;
}

cancelled-Exclusive :
    (pool : Pool) (picked : Option (Waiter × List Waiter))
    → Exclusive pool
    → Exclusive (cancelled pool picked)
unfolding cancelled
cancelled-Exclusive pool none x = x
cancelled-Exclusive pool (some (w, rest)) x = record {
  held = x.held;
  in_range = x.in_range;
  ready = x.ready;
}

given_back-Exclusive :
    (pool : Pool) (picked : Option (ℕ × List ℕ)) (i now : ℕ)
    → pick i (tickets pool.state) ≡ picked
    → Exclusive pool
    → Exclusive (given_back pool picked now)
unfolding given_back
given_back-Exclusive pool none i now from x = x
given_back-Exclusive pool (some (seq, rest)) i now from x = record {
  held = released-held pool.state seq rest i now from x.in_range;
  in_range = released-in_range pool.state seq rest i now from x.in_range;
  ready = released-ready pool.state seq now x.ready;
}

pub step-Exclusive : (pool : Pool) (action : Action) → Exclusive pool → Exclusive (step pool action)
unfolding step
step-Exclusive pool (arrive seq now) x = arrived-Exclusive pool seq now x
step-Exclusive pool (go_on i now) x = resumed-Exclusive pool (pick i pool.waiting) now x
step-Exclusive pool (cancel i) x = cancelled-Exclusive pool (pick i pool.waiting) x
step-Exclusive pool (give_back i now) x =
    given_back-Exclusive pool (pick i pool.held) i now (ap (pick i) (sym x.held)) x

pub run-Exclusive :
    (pool : Pool) (actions : List Action) → Exclusive pool → Exclusive (run pool actions)
unfolding run
run-Exclusive pool [] x = x
run-Exclusive pool (action ∷ actions) x =
    run-Exclusive (step pool action) actions (step-Exclusive pool action x)

pub start-Exclusive : (now : ℕ) → Exclusive (start now)
unfolding start new_append_sequence_state
start-Exclusive now = record { held = refl; in_range = λ p. refl; ready = omega arith }

-- However the goroutines of one request interleave, at most one ticket is out: one with the number
-- that is due while `processing` is set, and none while it is not, so a released ticket never leaves
-- the state locked.
pub run-tickets :
    (now : ℕ) (actions : List Action)
    → let pool = run (start now) actions in pool.held ≡ tickets pool.state
run-tickets now actions = (run-Exclusive (start now) actions (start-Exclusive now)).held
