-- ===== src/Router/Errors.antt =====
-- internal/backend/agent/model/router.go and http_error.go: which errors of a channel allow a switch
-- to the next candidate.
use cursor_switch.Common.{
  ℕ, Bool, true, false, ◌||◌, Option, none, some, [], ◌∷◌, ◌++◌, leb, ◌==◌, if◌then◌else◌,
}
use cursor_switch.Common.Text.{Text, codes, has_prefix, after_first, trim_space}
use cursor_switch.Common.Decimal.{is_digit, decimal, leading_number}

-- A Go error: its text, and what `errors.As` and `errors.Is` find in its chain: a `*url.Error`, and
-- `context.Canceled` or `context.DeadlineExceeded`.
pub record GoError : Type 0 where
  pub text : Text
  pub url_error : Bool
  pub context_error : Bool

-- An error that `fmt.Errorf` makes of a text alone.
abbrev pub plain_error : Text → GoError
plain_error text = record { text = text; url_error = false; context_error = false }

unfoldable pub starts_with_digit : Text → Bool
starts_with_digit [] = false
starts_with_digit (a ∷ s) = is_digit a

-- `strconv.Atoi` of the run of digits fails above the largest int.
unfoldable pub extract_http_status : Text → Option ℕ
unfolding starts_with_digit
extract_http_status text = elim (after_first (codes "status=") text) [
  | none ↦ none
  | some rest ↦
      if starts_with_digit rest
      then if leb (leading_number 0 rest) 9_223_372_036_854_775_807
        then some (leading_number 0 rest)
        else none
      else none
]

unfoldable pub is_retryable_status : ℕ → Bool
is_retryable_status status =
    if status == 429 || leb 500 status
    then true
    else status == 401 || status == 403 || status == 404

unfoldable pub is_retryable_channel_error : GoError → Bool
unfolding is_retryable_status
is_retryable_channel_error err =
    if err.url_error
    then true
    else if has_prefix (codes "provider stream idle timeout after ") err.text
    then true
    else if has_prefix (codes "provider stream truncated: ") err.text
    then true
    else if has_prefix (codes "provider stream budget exceeded: ") err.text
    then true
    else elim (extract_http_status err.text) [
      | none ↦ false
      | some status ↦ is_retryable_status status
    ]

-- `ctx` is present at every call; `context_done` is `ctx.Err() != nil`.
unfoldable pub is_client_side_cancellation : Bool → GoError → Bool
is_client_side_cancellation context_done err = if context_done then true else err.context_error

unfoldable pub with_body : Text → Text → Text
with_body head [] = head
with_body head (b ∷ body) = head ++ codes " body=" ++ b ∷ body

-- What `io.ReadAll(io.LimitReader(resp.Body, maxErrorBodyBytes))` returns: the bytes that it read, or
-- the text of its error.
pub data LimitedBody : Type 0 where
  read_body body_read_error : Text → LimitedBody

-- What `buildHTTPStatusError` looks at of a response.
pub record ErrorResponse : Type 0 where
  pub status_code : ℕ
  pub limited_body : LimitedBody

unfoldable pub build_status_text : Text → LimitedBody → Text
unfolding with_body
build_status_text head (read_body body) = with_body head (trim_space body)
build_status_text head (body_read_error err) = head ++ codes " body_read_error=" ++ err

-- `none` is a nil response; `ProviderRetryAttemptSummary` is always empty.
unfoldable pub build_http_status_error : Text → Option ErrorResponse → GoError
unfolding build_status_text
build_http_status_error prefix none = plain_error (trim_space prefix ++ codes " response is nil")
build_http_status_error prefix (some resp) = plain_error (
    build_status_text (trim_space prefix ++ codes " status=" ++ decimal resp.status_code)
      resp.limited_body)
