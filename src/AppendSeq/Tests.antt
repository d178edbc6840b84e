-- ===== src/AppendSeq/Tests.antt =====
-- Appends that come out of order, and the theorems at them.
use cursor_switch.Common.{◌≡◌, refl, ◌⊎◌, none, List, [], ◌∷◌}
use cursor_switch.Common.Text.{codes, trim_space}
use cursor_switch.Common.StringMap.{lookup}
use cursor_switch.AppendSeq.State.{acquire_round, release, touch, new_append_sequence_state}
use cursor_switch.AppendSeq.Tracker.{new_append_sequence_tracker, enter}
use cursor_switch.AppendSeq.Requests.{IsSeparate, enter-IsSeparate}
use cursor_switch.AppendSeq.Pool.{
  resumed, given_back, Action, arrive, go_on, give_back, pick, arrived, went_on, settled, step,
  start, run,
}
use cursor_switch.AppendSeq.Exclusion.{tickets, run-tickets}
use cursor_switch.AppendSeq.Wakeup.{NoneMissed, run-NoneMissed}
use cursor_switch.AppendSeq.Order.{InOrder, run-InOrder}

-- Append 2 comes first and waits; append 1 comes, is admitted and ends; append 2 is woken; append 1
-- comes again, waits for append 2, and restarts the numbers.
abbrev actions : List Action
actions =
    arrive 2 10
    ∷ go_on 0 11
    ∷ arrive 1 12
    ∷ go_on 0 13
    ∷ go_on 0 14
    ∷ give_back 0 15
    ∷ go_on 0 16
    ∷ arrive 1 17
    ∷ go_on 0 18
    ∷ give_back 0 19
    ∷ go_on 0 20
    ∷ []

log_of_actions : (run (start 0) actions).log ≡ 1 ∷ 2 ∷ 1 ∷ []
unfolding run start step arrived pick resumed given_back went_on settled acquire_round release touch
    new_append_sequence_state
log_of_actions = refl

run-tickets_example : (run (start 0) actions).held ≡ tickets (run (start 0) actions).state
run-tickets_example = run-tickets 0 actions

run-NoneMissed_example : NoneMissed (run (start 0) actions).state (run (start 0) actions).waiting
run-NoneMissed_example = run-NoneMissed 0 actions

run-InOrder_example : InOrder (run (start 0) actions).log
run-InOrder_example = run-InOrder 0 actions

new-IsSeparate : IsSeparate new_append_sequence_tracker
unfolding new_append_sequence_tracker lookup
new-IsSeparate = record { was_made = λ key a h. cc h; apart = λ key other a h k. cc h }

enter-IsSeparate_example :
    let (t, o) = enter new_append_sequence_tracker (codes " r ") 1 5 in
    IsSeparate t × ((o ≡ none) ⊎ (lookup (trim_space (codes " r ")) t.states ≡ o))
enter-IsSeparate_example =
    enter-IsSeparate new_append_sequence_tracker (codes " r ") 1 5 new-IsSeparate
