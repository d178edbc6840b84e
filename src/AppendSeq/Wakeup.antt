-- ===== src/AppendSeq/Wakeup.antt =====
-- A goroutine that waits on an open channel has to wait.
use cursor_switch.Common.{
  ℕ, zero, suc, ◌≤◌, ◌<◌, ◌≡◌, refl, ◌⊎◌, inl, inr, true, false, Option, none, some, List, [], ◌∷◌,
  arith, Bool-cases, ltb,
}
use cursor_switch.AppendSeq.State.{
  AppendSequenceState, acquire_round, release, touch, Round, granted, stale, waits, is_not_positive,
}
use cursor_switch.AppendSeq.Pool.{
  Waiter, Pool, Action, arrive, go_on, cancel, give_back, pick, arrived, went_on, settled, step,
  start, run, resumed, cancelled, given_back,
}
use cursor_switch.AppendSeq.Exclusion.{
  Exclusive, start-Exclusive, step-Exclusive, run-Exclusive, due,
}

-- The number has to wait: it is not due yet, or a ticket is out.
abbrev pub MustWait : AppendSequenceState → ℕ → Type 0
MustWait state seq =
    (is_not_positive seq ≡ false)
    × ((due state < seq) ⊎ ((state.processing ≡ true) × ((seq ≡ due state) ⊎ (seq ≡ 1))))

abbrev pub IsParked : AppendSequenceState → Waiter → Type 0
IsParked state w =
    (w.waits_on ≤ state.ready)
    × ((w.waits_on ≡ state.ready) → MustWait state w.append_seq)
    × (is_not_positive w.append_seq ≡ false)

abbrev pub AllParked : AppendSequenceState → List Waiter → Type 0
AllParked state [] = Unit
AllParked state (w ∷ ws) = IsParked state w × AllParked state ws

AllParked-map :
    (state state' : AppendSequenceState) (ws : List Waiter)
    → ((w : Waiter) → IsParked state w → IsParked state' w)
    → AllParked state ws
    → AllParked state' ws
AllParked-map state state' [] f all = tt
AllParked-map state state' (w ∷ ws) f all = (f w all.0, AllParked-map state state' ws f all.1)

-- What `pick` takes, and what it leaves.
abbrev AllPicked : AppendSequenceState → Option (Waiter × List Waiter) → Type 0
AllPicked state none = Unit
AllPicked state (some (w, rest)) = IsParked state w × AllParked state rest

pick-AllParked :
    (state : AppendSequenceState) (i : ℕ) (ws : List Waiter)
    → AllParked state ws
    → AllPicked state (pick i ws)
unfolding pick
pick-AllParked state i [] all = tt
pick-AllParked state zero (w ∷ ws) all = all
pick-AllParked state (suc i) (w ∷ ws) all = by_rest (pick i ws) (pick-AllParked state i ws all.1)
  where
    by_rest :
        (o : Option (Waiter × List Waiter))
        → AllPicked state o
        → AllPicked state (elim o [ none ↦ none | some (y, ys) ↦ some (y, w ∷ ys) ])
    by_rest none h = tt
    by_rest (some (y, ys)) h = (h.0, (all.0, h.1))

round-IsParked :
    (state : AppendSequenceState) (seq now : ℕ) (w : Waiter)
    → 0 < state.ready
    → is_not_positive seq ≡ false
    → IsParked state w
    → IsParked (acquire_round state seq now).0 w
unfolding acquire_round
round-IsParked state seq now w r pos h = ground arith

release-IsParked :
    (state : AppendSequenceState) (seq now : ℕ) (w : Waiter)
    → IsParked state w
    → IsParked (release state seq now) w
unfolding release
release-IsParked state seq now w h = ground arith

-- A round that waits has to.
round-MustWait :
    (state : AppendSequenceState) (seq now ready : ℕ)
    → 0 < state.ready
    → is_not_positive seq ≡ false
    → (acquire_round state seq now).1 ≡ waits ready
    → (ready ≡ (acquire_round state seq now).0.ready) × MustWait (acquire_round state seq now).0 seq
unfolding acquire_round
round-MustWait state seq now ready r pos h = ground arith

-- A number that must wait is told to.
MustWait-waits :
    (state : AppendSequenceState) (seq now : ℕ)
    → 0 < state.ready
    → MustWait state seq
    → (acquire_round state seq now).1 ≡ waits state.ready
unfolding acquire_round
MustWait-waits state seq now r h = ground arith

touch-AllParked :
    (state : AppendSequenceState) (now : ℕ) (ws : List Waiter)
    → AllParked state ws
    → AllParked (touch state now) ws
touch-AllParked state now ws all =
    AllParked-map state (touch state now) ws (λ w h. unfold touch in h) all

arrived-AllParked :
    (pool : Pool) (seq now : ℕ)
    → 0 < pool.state.ready
    → AllParked pool.state pool.waiting
    → AllParked (arrived pool seq now).state (arrived pool seq now).waiting
unfolding arrived
arrived-AllParked pool seq now r all = elim (Bool-cases (is_not_positive seq)) [
  | inl bad ↦ rw bad all
  | inr good ↦ rw good (
    (unfold touch in (omega arith, (λ e. absurd (omega arith)), good)),
    touch-AllParked pool.state now pool.waiting all,
  )
]

settled-AllParked :
    (pool : Pool) (w : Waiter) (rest : List Waiter) (state : AppendSequenceState) (round : Round)
    → AllParked state rest
    → ((ready : ℕ) → round ≡ waits ready → IsParked state (record w { waits_on = ready }))
    → AllParked (settled pool w rest state round).state (settled pool w rest state round).waiting
unfolding settled
settled-AllParked pool w rest state granted all parked = all
settled-AllParked pool w rest state stale all parked = all
settled-AllParked pool w rest state (waits ready) all parked = (parked ready refl, all)

resumed-AllParked :
    (pool : Pool) (picked : Option (Waiter × List Waiter)) (now : ℕ)
    → 0 < pool.state.ready
    → AllParked pool.state pool.waiting
    → AllPicked pool.state picked
    → AllParked (resumed pool picked now).state (resumed pool picked now).waiting
unfolding resumed went_on
resumed-AllParked pool none now r all h = all
resumed-AllParked pool (some (w, rest)) now r all h =
    elim (Bool-cases (ltb w.waits_on pool.state.ready)) [
      | inr asleep ↦ rw asleep all
      | inl closed ↦
          let after = (acquire_round pool.state w.append_seq now).0 in
          let moved : AllParked after rest =
            AllParked-map pool.state after rest
              (λ v. round-IsParked pool.state w.append_seq now v r h.0.2) h.1 in
          rw closed (
            settled-AllParked pool w rest after (acquire_round pool.state w.append_seq now).1 moved
              (λ ready e.
                let (same, must) = round-MustWait pool.state w.append_seq now ready r h.0.2 e in
                (omega arith, (λ _. must), h.0.2)))
    ]

cancelled-AllParked :
    (pool : Pool) (picked : Option (Waiter × List Waiter))
    → AllParked pool.state pool.waiting
    → AllPicked pool.state picked
    → AllParked (cancelled pool picked).state (cancelled pool picked).waiting
unfolding cancelled
cancelled-AllParked pool none all h = all
cancelled-AllParked pool (some (w, rest)) all h = h.1

given_back-AllParked :
    (pool : Pool) (picked : Option (ℕ × List ℕ)) (now : ℕ)
    → AllParked pool.state pool.waiting
    → AllParked (given_back pool picked now).state (given_back pool picked now).waiting
unfolding given_back
given_back-AllParked pool none now all = all
given_back-AllParked pool (some (seq, rest)) now all =
    AllParked-map pool.state (release pool.state seq now) pool.waiting
      (release-IsParked pool.state seq now) all

step-AllParked :
    (pool : Pool) (action : Action)
    → 0 < pool.state.ready
    → AllParked pool.state pool.waiting
    → AllParked (step pool action).state (step pool action).waiting
unfolding step
step-AllParked pool (arrive seq now) r all = arrived-AllParked pool seq now r all
step-AllParked pool (go_on i now) r all =
    resumed-AllParked pool (pick i pool.waiting) now r all
      (pick-AllParked pool.state i pool.waiting all)
step-AllParked pool (cancel i) r all =
    cancelled-AllParked pool (pick i pool.waiting) all
      (pick-AllParked pool.state i pool.waiting all)
step-AllParked pool (give_back i now) r all = given_back-AllParked pool (pick i pool.held) now all

run-AllParked :
    (pool : Pool) (actions : List Action)
    → Exclusive pool
    → AllParked pool.state pool.waiting
    → AllParked (run pool actions).state (run pool actions).waiting
unfolding run
run-AllParked pool [] x all = all
run-AllParked pool (action ∷ actions) x all =
    run-AllParked (step pool action) actions (step-Exclusive pool action x)
      (step-AllParked pool action x.ready all)

-- The waiters on an open channel would wait again, whatever the time.
abbrev pub NoneMissed : AppendSequenceState → List Waiter → Type 0
NoneMissed state [] = Unit
NoneMissed state (w ∷ ws) =
    ((now : ℕ)
      → (w.waits_on ≡ state.ready)
      → (acquire_round state w.append_seq now).1 ≡ waits state.ready)
    × NoneMissed state ws

AllParked-NoneMissed :
    (state : AppendSequenceState) (ws : List Waiter)
    → 0 < state.ready
    → AllParked state ws
    → NoneMissed state ws
AllParked-NoneMissed state [] r all = tt
AllParked-NoneMissed state (w ∷ ws) r all = (
  (λ now e. MustWait-waits state w.append_seq now r (all.0.1 e)),
  AllParked-NoneMissed state ws r all.1,
)

-- No wakeup is lost: however the goroutines of one request interleave, one that waits on the channel
-- that is still open would be told to wait again if it looked now, so none that could be granted its
-- ticket, or told that it is stale, is left asleep.
pub run-NoneMissed :
    (now : ℕ) (actions : List Action)
    → let pool = run (start now) actions in NoneMissed pool.state pool.waiting
run-NoneMissed now actions =
    let pool = run (start now) actions in
    let ready = (run-Exclusive (start now) actions (start-Exclusive now)).ready in
    AllParked-NoneMissed pool.state pool.waiting ready
      (run-AllParked (start now) actions (start-Exclusive now) (unfold start in tt))
