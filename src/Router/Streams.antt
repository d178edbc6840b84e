-- ===== src/Router/Streams.antt =====
-- Which streams the budget ends.
use cursor_switch.Common.{ℕ, ◌+◌, ◌^◌, ◌≤◌, ◌<◌, ◌≡◌, refl, true, List, [], ◌∷◌, arith, ◌⊎◌, inl}
use cursor_switch.Common.Text.{Text, codes, has_prefix, strip_prefix}
use cursor_switch.Router.Errors.{is_retryable_channel_error}
use cursor_switch.Router.Budget.{
  StreamBudget, new_stream_budget, provider_stream_budget_exceeded_error, add_bytes, add_event,
  openai_stream_max_token_size, goes_on, breaks_off, fails, Line, other_line, event_line, ScanEnd,
  no_more_lines, left_early, failed_with, read_lines,
}

-- The lines up to the first whose verdict ends the loop, that line included.
abbrev pub looked_at : List Line → List Line
looked_at [] = []
looked_at (other_line n ∷ lines) = other_line n ∷ looked_at lines
looked_at (event_line n goes_on ∷ lines) = event_line n goes_on ∷ looked_at lines
looked_at (event_line n breaks_off ∷ lines) = event_line n breaks_off ∷ []
looked_at (event_line n (fails err) ∷ lines) = event_line n (fails err) ∷ []

-- How the loop ends without a budget.
abbrev pub unbounded_end : List Line → ScanEnd
unbounded_end [] = no_more_lines
unbounded_end (other_line n ∷ lines) = unbounded_end lines
unbounded_end (event_line n goes_on ∷ lines) = unbounded_end lines
unbounded_end (event_line n breaks_off ∷ lines) = left_early
unbounded_end (event_line n (fails err) ∷ lines) = failed_with err

abbrev pub total : List Line → ℕ
total [] = 0
total (other_line n ∷ lines) = n + total lines
total (event_line n verdict ∷ lines) = n + total lines

abbrev pub events_in : List Line → ℕ
events_in [] = 0
events_in (other_line n ∷ lines) = events_in lines
events_in (event_line n verdict ∷ lines) = 1 + events_in lines

-- No line is longer than the scanner's bound.
abbrev pub AllShort : List Line → Type 0
AllShort [] = Unit
AllShort (other_line n ∷ lines) = (n ≤ openai_stream_max_token_size) × AllShort lines
AllShort (event_line n verdict ∷ lines) = (n ≤ openai_stream_max_token_size) × AllShort lines

-- The error has the budget's text, and `isRetryableChannelError` accepts it.
abbrev pub IsBudgetError : ScanEnd → Type 0
IsBudgetError no_more_lines = ⊥
IsBudgetError left_early = ⊥
IsBudgetError (failed_with err) =
    (has_prefix (codes "provider stream budget exceeded: ") err.text ≡ true)
    × (is_retryable_channel_error err ≡ true)

exceeded-IsBudgetError :
    (dimension : Text) (seen limit : ℕ)
    → IsBudgetError (failed_with (provider_stream_budget_exceeded_error dimension seen limit))
unfolding is_retryable_channel_error provider_stream_budget_exceeded_error has_prefix strip_prefix
exceeded-IsBudgetError dimension seen limit = (refl, refl)

-- The lines are within the budget and the loop ends as without it, or they are not and it ends with
-- the budget's error.
abbrev IsBounded : StreamBudget → List Line → Type 0
IsBounded b lines =
    (((read_lines b lines).1 ≡ unbounded_end lines)
      × (b.bytes + total (looked_at lines) ≤ b.max_bytes)
      × (b.events + events_in (looked_at lines) ≤ b.max_events))
    ⊎ (IsBudgetError (read_lines b lines).1
        × ((b.max_bytes < b.bytes + total (looked_at lines))
            ⊎ (b.max_events < b.events + events_in (looked_at lines))))

read_within :
    (b : StreamBudget) (lines : List Line)
    → AllShort lines
    → 0 < b.max_bytes
    → b.max_bytes < 2 ^ 62
    → 0 < b.max_events
    → b.max_events < 2 ^ 62
    → b.bytes ≤ b.max_bytes
    → b.events ≤ b.max_events
    → IsBounded b lines
unfolding read_lines add_bytes add_event
read_within b [] short p q r s t u = inl (refl, omega arith, omega arith)
read_within b (other_line n ∷ lines) short p q r s t u = ground (
  arith,
  read_within (add_bytes b n).0 lines short.1,
  exceeded-IsBudgetError (codes "bytes") (b.bytes + n) b.max_bytes,
)
read_within b (event_line n goes_on ∷ lines) short p q r s t u = ground (
  arith,
  read_within (add_event (add_bytes b n).0).0 lines short.1,
  exceeded-IsBudgetError (codes "bytes") (b.bytes + n) b.max_bytes,
  exceeded-IsBudgetError (codes "events") (b.events + 1) b.max_events,
)
read_within b (event_line n breaks_off ∷ lines) short p q r s t u = ground (
  arith,
  exceeded-IsBudgetError (codes "bytes") (b.bytes + n) b.max_bytes,
  exceeded-IsBudgetError (codes "events") (b.events + 1) b.max_events,
)
read_within b (event_line n (fails err) ∷ lines) short p q r s t u = ground (
  arith,
  exceeded-IsBudgetError (codes "bytes") (b.bytes + n) b.max_bytes,
  exceeded-IsBudgetError (codes "events") (b.events + 1) b.max_events,
)

-- Of a stream of lines within the scanner's bound, take the lines up to the first whose content ends
-- the loop. If they have at most 256 MiB, line ends not counted, and at most 200000 events, the loop
-- ends as that line or the end of the lines has it; otherwise it fails with the budget's error, which
-- counts as retryable.
pub read-new :
    (lines : List Line)
    → AllShort lines
    → let result = (read_lines new_stream_budget lines).1 in
      ((result ≡ unbounded_end lines)
        × (total (looked_at lines) ≤ 268_435_456)
        × (events_in (looked_at lines) ≤ 200_000))
      ⊎ (IsBudgetError result
          × ((268_435_456 < total (looked_at lines)) ⊎ (200_000 < events_in (looked_at lines))))
unfolding new_stream_budget
read-new lines short = ground (
  arith,
  read_within new_stream_budget lines short (omega arith) (omega arith) (omega arith) (omega arith)
      (omega arith) (omega arith),
)
