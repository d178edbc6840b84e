-- ===== src/AppendSeq/Order.antt =====
-- The order in which tickets are granted.
use cursor_switch.Common.{
  ℕ, ◌+◌, ◌≡◌, refl, ◌⊎◌, inl, inr, true, false, Option, none, some, List, [], ◌∷◌, arith,
  Bool-cases, ltb,
}
use cursor_switch.AppendSeq.State.{
  AppendSequenceState, acquire_round, release, touch, Round, granted, stale, waits,
  new_append_sequence_state, is_not_positive,
}
use cursor_switch.AppendSeq.Pool.{
  Waiter, Pool, Action, arrive, go_on, cancel, give_back, pick, arrived, went_on, settled, step,
  start, run, resumed, cancelled, given_back,
}
use cursor_switch.AppendSeq.Exclusion.{Exclusive, start-Exclusive, step-Exclusive, due}

-- The first number is 1, and each later one is the one before plus 1, or 1 again. The latest comes
-- first.
abbrev pub InOrder : List ℕ → Type 0
InOrder [] = Unit
InOrder (n ∷ []) = n ≡ 1
InOrder (n ∷ q ∷ log) = ((n ≡ q + 1) ⊎ (n ≡ 1)) × InOrder (q ∷ log)

-- The state agrees with the tickets that were granted.
abbrev IsLogged : AppendSequenceState → List ℕ → Type 0
IsLogged state [] = (state.processing ≡ false) × (due state ≡ 1)
IsLogged state (q ∷ log) =
    ((state.processing ≡ true) → state.next ≡ q)
    × ((state.processing ≡ false) → ((due state ≡ q + 1) ⊎ (due state ≡ 1)))

record Ordered (pool : Pool) : Type 0 where
  logged : IsLogged pool.state pool.log
  in_order : InOrder pool.log

touch-IsLogged :
    (state : AppendSequenceState) (log : List ℕ) (now : ℕ)
    → IsLogged state log
    → IsLogged (touch state now) log
unfolding touch
touch-IsLogged state [] now h = h
touch-IsLogged state (q ∷ log) now h = h

release-IsLogged :
    (state : AppendSequenceState) (log : List ℕ) (seq now : ℕ)
    → (state.processing ≡ true → is_not_positive state.next ≡ false)
    → IsLogged state log
    → IsLogged (release state seq now) log
unfolding release
release-IsLogged state [] seq now r h = ground arith
release-IsLogged state (q ∷ log) seq now r h = ground arith

-- A round that grants no ticket leaves the log as it is.
round-IsLogged :
    (state : AppendSequenceState) (log : List ℕ) (seq now : ℕ)
    → (state.processing ≡ true → is_not_positive state.next ≡ false)
    → ((acquire_round state seq now).1 ≡ granted → ⊥)
    → IsLogged state log
    → IsLogged (acquire_round state seq now).0 log
unfolding acquire_round
round-IsLogged state [] seq now r other h = ground arith
round-IsLogged state (q ∷ log) seq now r other h = ground arith

-- A round that grants the ticket puts its number on a log in order.
granted-IsLogged :
    (state : AppendSequenceState) (log : List ℕ) (seq now : ℕ)
    → (state.processing ≡ true → is_not_positive state.next ≡ false)
    → (acquire_round state seq now).1 ≡ granted
    → IsLogged state log
    → InOrder log
    → IsLogged (acquire_round state seq now).0 (seq ∷ log) × InOrder (seq ∷ log)
unfolding acquire_round
granted-IsLogged state [] seq now r e h o = ground arith
granted-IsLogged state (q ∷ log) seq now r e h o = ground arith

settled-Ordered :
    (pool : Pool) (w : Waiter) (rest : List Waiter) (state : AppendSequenceState) (round : Round)
    → ((round ≡ granted → ⊥) → IsLogged state pool.log)
    → (round ≡ granted
        → IsLogged state (w.append_seq ∷ pool.log) × InOrder (w.append_seq ∷ pool.log))
    → InOrder pool.log
    → Ordered (settled pool w rest state round)
unfolding settled
settled-Ordered pool w rest state granted other new o = record {
  logged = (new refl).0;
  in_order = (new refl).1;
}
settled-Ordered pool w rest state stale other new o = record {
  logged = other (λ e. cc e);
  in_order = o;
}
settled-Ordered pool w rest state (waits ready) other new o = record {
  logged = other (λ e. cc e);
  in_order = o;
}

resumed-Ordered :
    (pool : Pool) (picked : Option (Waiter × List Waiter)) (now : ℕ)
    → Exclusive pool
    → Ordered pool
    → Ordered (resumed pool picked now)
unfolding resumed went_on
resumed-Ordered pool none now x o = o
resumed-Ordered pool (some (w, rest)) now x o =
    elim (Bool-cases (ltb w.waits_on pool.state.ready)) [
      | inr asleep ↦ rw asleep o
      | inl closed ↦
          let (after, round) = acquire_round pool.state w.append_seq now in
          rw closed (
            settled-Ordered pool w rest after round
              (λ other.
                round-IsLogged pool.state pool.log w.append_seq now x.in_range other o.logged)
              (λ e.
                granted-IsLogged pool.state pool.log w.append_seq now x.in_range e o.logged
                  o.in_order)
              o.in_order)
    ]

cancelled-Ordered :
    (pool : Pool) (picked : Option (Waiter × List Waiter))
    → Ordered pool
    → Ordered (cancelled pool picked)
unfolding cancelled
cancelled-Ordered pool none o = o
cancelled-Ordered pool (some (w, rest)) o = record { logged = o.logged; in_order = o.in_order }

given_back-Ordered :
    (pool : Pool) (picked : Option (ℕ × List ℕ)) (now : ℕ)
    → Exclusive pool
    → Ordered pool
    → Ordered (given_back pool picked now)
unfolding given_back
given_back-Ordered pool none now x o = o
given_back-Ordered pool (some (seq, rest)) now x o = record {
  logged = release-IsLogged pool.state pool.log seq now x.in_range o.logged;
  in_order = o.in_order;
}

arrived-Ordered : (pool : Pool) (seq now : ℕ) → Ordered pool → Ordered (arrived pool seq now)
unfolding arrived
arrived-Ordered pool seq now o = elim (Bool-cases (is_not_positive seq)) [
  | inl bad ↦ rw bad o
  | inr good ↦
      rw good
        (record { logged = touch-IsLogged pool.state pool.log now o.logged; in_order = o.in_order })
]

step-Ordered :
    (pool : Pool) (action : Action) → Exclusive pool → Ordered pool → Ordered (step pool action)
unfolding step
step-Ordered pool (arrive seq now) x o = arrived-Ordered pool seq now o
step-Ordered pool (go_on i now) x o = resumed-Ordered pool (pick i pool.waiting) now x o
step-Ordered pool (cancel i) x o = cancelled-Ordered pool (pick i pool.waiting) o
step-Ordered pool (give_back i now) x o = given_back-Ordered pool (pick i pool.held) now x o

run-Ordered :
    (pool : Pool) (actions : List Action)
    → Exclusive pool
    → Ordered pool
    → Ordered (run pool actions)
unfolding run
run-Ordered pool [] x o = o
run-Ordered pool (action ∷ actions) x o =
    run-Ordered (step pool action) actions (step-Exclusive pool action x)
      (step-Ordered pool action x o)

start-Ordered : (now : ℕ) → Ordered (start now)
unfolding start new_append_sequence_state
start-Ordered now = record { logged = (refl, refl); in_order = tt }

-- However the goroutines of one request interleave, the appends are admitted in the order of their
-- numbers: the first is number 1, and each later one is the one after the one before, or number 1
-- again, for a client that restarts its numbers.
pub run-InOrder : (now : ℕ) (actions : List Action) → InOrder (run (start now) actions).log
run-InOrder now actions =
    (run-Ordered (start now) actions (start-Exclusive now) (start-Ordered now)).in_order
