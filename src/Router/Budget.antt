-- ===== src/Router/Budget.antt =====
-- internal/backend/agent/model/stream_budget.go: the bound on the bytes and events of one stream;
-- and openai.go: the loop that counts a stream's lines.
--
-- An int64 is its bit pattern.
use cursor_switch.Common.{
  ℕ, ◌+◌, ◌*◌, ◌%◌, ◌^◌, Bool, ◌&&◌, Option, none, some, List, [], ◌∷◌, ◌++◌, ltb, if◌then◌else◌,
}
use cursor_switch.Common.Text.{Text, codes}
use cursor_switch.Common.Decimal.{decimal}
use cursor_switch.Router.Errors.{GoError, plain_error}

pub record StreamBudget : Type 0 where
  pub max_bytes : ℕ
  pub max_events : ℕ
  pub bytes : ℕ
  pub events : ℕ
  pub exceeded : Text

unfoldable pub new_stream_budget : StreamBudget
new_stream_budget = record {
  max_bytes = 256 * 1024 * 1024;
  max_events = 200_000;
  bytes = 0;
  events = 0;
  exceeded = [];
}

-- `n > 0`
abbrev pub is_positive : ℕ → Bool
is_positive n = ltb 0 n && ltb n (2 ^ 63)

unfoldable pub provider_stream_budget_exceeded_error : Text → ℕ → ℕ → GoError
provider_stream_budget_exceeded_error dimension seen limit = plain_error (
    codes "provider stream budget exceeded: "
    ++ (dimension ++ codes " " ++ decimal seen ++ codes " > " ++ decimal limit))

-- `limit > 0 && seen > limit`
over_limit : ℕ → ℕ → Bool
over_limit seen limit = is_positive limit && is_positive seen && ltb limit seen

unfoldable pub add_bytes : StreamBudget → ℕ → StreamBudget × Option GoError
unfolding over_limit
add_bytes b n =
    let seen = (b.bytes + n) % 2 ^ 64 in
    if is_positive n
    then (if over_limit seen b.max_bytes
        then (
          record b { bytes = seen; exceeded = codes "bytes" },
          some (provider_stream_budget_exceeded_error (codes "bytes") seen b.max_bytes),
        )
        else (record b { bytes = seen }, none))
    else (b, none)

unfoldable pub add_event : StreamBudget → StreamBudget × Option GoError
unfolding over_limit
add_event b =
    let seen = (b.events + 1) % 2 ^ 64 in
    if over_limit seen b.max_events
    then (
      record b { events = seen; exceeded = codes "events" },
      some (provider_stream_budget_exceeded_error (codes "events") seen b.max_events),
    )
    else (record b { events = seen }, none)

-- The longest line that openai.go lets its scanner give.
abbrev pub openai_stream_max_token_size : ℕ
openai_stream_max_token_size = 64 * 1024 * 1024

-- What the code does with a line that begins with "data:" once the line is counted: the scan goes on,
-- or is left (after the terminator, or a broken line after some events), or the call fails (an error chunk, a
-- broken line before any event, an error of the sink). Which of them it is, is given.
pub data Verdict : Type 0 where
  goes_on breaks_off : Verdict
  fails : GoError → Verdict

-- A line that the scanner gives: the number of its bytes, and the verdict if it begins with "data:".
pub data Line : Type 0 where
  other_line : ℕ → Line
  event_line : ℕ → Verdict → Line

-- How the loop over the lines ends: the scanner gives no more, which it does at the end of the body and
-- after an error of its own, such as a line that is too long; or by a line's verdict, or by an error of
-- the budget.
pub data ScanEnd : Type 0 where
  no_more_lines left_early : ScanEnd
  failed_with : GoError → ScanEnd

unfoldable pub after_verdict :
    Verdict → StreamBudget → StreamBudget × ScanEnd → StreamBudget × ScanEnd
after_verdict goes_on b rest = rest
after_verdict breaks_off b rest = (b, left_early)
after_verdict (fails err) b rest = (b, failed_with err)

-- The loop over the lines of a stream in openai.go, as far as the budget and the loop's end go.
unfoldable pub read_lines : StreamBudget → List Line → StreamBudget × ScanEnd
unfolding after_verdict
read_lines b [] = (b, no_more_lines)
read_lines b (other_line n ∷ lines) =
    let (counted, too_long) = add_bytes b n in
    let rest = read_lines counted lines in
    elim too_long [ some err ↦ (counted, failed_with err) | none ↦ rest ]
read_lines b (event_line n verdict ∷ lines) =
    let (counted, too_long) = add_bytes b n in
    let (seen, too_many) = add_event counted in
    let rest = read_lines seen lines in
    elim too_long [
      | some err ↦ (counted, failed_with err)
      | none ↦ elim too_many [
        | some err ↦ (seen, failed_with err)
        | none ↦ after_verdict verdict seen rest
      ]
    ]
