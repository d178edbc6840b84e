-- ===== src/Router/Tests.antt =====
-- Calls of the router, and its theorems at concrete channels.
use mathlib.Core.List.{Perm}
use cursor_switch.Common.{
  inl, ◌↔◌, ℕ, zero, suc, ◌*◌, ◌≤◌, ◌<◌, ◌≡◌, ◌≢◌, refl, ◌⊎◌, true, false, Option, none, some, List,
  [], ◌∷◌, ◌++◌, arith, leb, length,
}
use cursor_switch.Common.Int.{pos}
use cursor_switch.Common.Text.{Text, codes, trim_space, ◌==◌, after_first, has_prefix, lower_text}
use cursor_switch.Router.Effort.{normalize_runtime_thinking_effort}
use cursor_switch.Common.Decimal.{leading_number}
use cursor_switch.Common.StringMap.{lookup}
use cursor_switch.Breaker.{Platform, new_circuit_breaker, default_circuit_breaker_config}
use cursor_switch.Router.Errors.{
  GoError, plain_error, is_retryable_channel_error, is_client_side_cancellation,
  extract_http_status, body_read_error, ErrorResponse, build_http_status_error,
}
use cursor_switch.Router.Registry.{
  CircuitBreakerRegistry, new_circuit_breaker_registry, breaker_of, allow_request_of,
  record_failure_of, note_failure_reason_of, release_half_open_permit_of,
}
use cursor_switch.Router.Request.{ResolvedChannel, StreamRequest, apply_channel_to_request}
use cursor_switch.Router.Stream.{
  Script, finish, emit, Environment, Progress, continues, returns, attempt, order_candidates,
  stream, admitted, run_adapter, play, finished_attempt, failed_attempt,
}
use cursor_switch.Router.Budget.{
  new_stream_budget, goes_on, breaks_off, Line, other_line, event_line, left_early, read_lines,
}
use cursor_switch.Router.Streams.{looked_at, total, events_in, IsBudgetError, read-new}
use cursor_switch.Router.ToolCallId.{
  split_legacy_tool_call_id, short_tool_call_hash, build_provider_safe_tool_call_id,
  provider_tool_call_id, namespace_tool_call_id,
}
use cursor_switch.Router.ToolCallIds.{provider_tool_call_id-le}
use cursor_switch.Router.Status.{MaySwitch, retryable-printed}
use cursor_switch.Router.Order.{chosen, shown, HaveTimeouts, order_candidates_lem}
use cursor_switch.Router.InFlight.{in_flight_of}
use cursor_switch.Router.Failover.{
  stream-SingleSource, attempt-continues, IsSupported, IsSwitchable,
}
use cursor_switch.Router.Permits.{stream-in_flight}

need-le-need : (old need : ℕ) → need ≤ need
need-le-need old need = omega arith

abbrev fractions : Platform (ℕ × ℕ)
fractions = record {
  of_uint = λ n. (n, 1);
  div = λ a b. (a.0 * b.1, a.1 * b.0);
  ge = λ a b. leb (b.0 * a.1) (a.0 * b.1);
  zero_rate = (0, 1);
  grown_cap = λ old need. need;
  need-le-grown_cap = need-le-need;
}

abbrev channel : Text → Text → ResolvedChannel
channel id provider = record {
  id = id;
  name = id;
  provider = provider;
  provider_label = [];
  base_url = codes "https://example.org";
  api_key = codes "key";
  model = codes "m";
  context_window_tokens = pos 100000;
  max_tokens = pos 4096;
  reasoning_effort = [];
  openai_endpoint = [];
  openai_extra_params_enabled = false;
  openai_extra_params_json = [];
  custom_headers_enabled = false;
  custom_headers_json = [];
  anthropic_extra_params_enabled = false;
  anthropic_extra_params_json = [];
  anthropic_max_tokens = pos 0;
  anthropic_thinking_effort = [];
  thinking_budget_tokens = pos 0;
}

abbrev request : StreamRequest
request = record {
  request_id = codes "r";
  run_id = [];
  model_call_id = [];
  conversation_id = [];
  mode = pos 0;
  model_id = codes "m";
  thinking_effort = codes "High";
  provider = [];
  provider_label = [];
  base_url = [];
  api_key = [];
  provider_model_id = [];
  resolved_channel_id = [];
  resolved_channel_name = [];
  resolved_context_window_tokens = pos 0;
  reasoning_effort = [];
  openai_endpoint = [];
  openai_extra_params_enabled = false;
  openai_extra_params_json = [];
  custom_headers_enabled = false;
  custom_headers_json = [];
  anthropic_extra_params_enabled = false;
  anthropic_extra_params_json = [];
  anthropic_max_tokens = pos 0;
  anthropic_thinking_effort = [];
  thinking_budget_tokens = pos 0;
  messages = [];
  stable_message_count = pos 0;
  tools = [];
  max_tokens = pos 0;
  stream = true;
  request_knobs = some [];
  compile_summary = [];
  provider_stream_idle_timeout = pos 0;
}

-- The first candidate fails with status 503; the second sends two events and ends.
abbrev unavailable : GoError
unavailable = plain_error (codes "openai status=503")

openai_script : ℕ → Script ℕ
openai_script zero = finish (some unavailable)
openai_script (suc index) = emit 1 (λ _. emit 2 (λ _. finish none))

abbrev environment : Environment (ℕ × ℕ) ℕ
environment = record {
  order_time = λ index. 0;
  allow_time = λ index. 1;
  failure_time = λ index. 2;
  context_done_at_report = λ index. false;
  context_done_at_switch = λ index. false;
  anthropic = λ index req. finish none;
  openai = λ index req. openai_script index;
  sink = λ delivered event. none;
  meanwhile = λ index breakers. breakers;
  quoted = λ text. text;
  idle_timeout = pos 0;
}

abbrev channels : List ResolvedChannel
channels = channel (codes "A") (codes "openai") ∷ channel (codes "B") (codes " openai ") ∷ []

abbrev registry : CircuitBreakerRegistry (ℕ × ℕ)
registry = new_circuit_breaker_registry (default_circuit_breaker_config fractions)

registry-idle : (j : Text) → in_flight_of (some registry) j ≡ 0
unfolding in_flight_of breaker_of new_circuit_breaker_registry new_circuit_breaker lookup
registry-idle j = refl

stream-in_flight_example :
    in_flight_of
      (stream fractions environment request channels (some registry)).breakers
      (codes "a")
    ≡ 0
stream-in_flight_example =
    stream-in_flight fractions environment request channels (some registry) (λ index b. refl)
      registry-idle (codes "a")

stream-SingleSource_example :
    let final = stream fractions environment request channels (some registry) in
    ((final.delivered ≡ []) × (final.last_err ≢ none))
    ⊎ ((index : ℕ) × (ch : ResolvedChannel) × (before : Progress (ℕ × ℕ) ℕ) × (before.delivered
          ≡ [])
        × (attempt fractions environment request index ch before ≡ returns final))
stream-SingleSource_example =
    stream-SingleSource fractions environment request channels (some registry)

registry-HaveTimeouts : HaveTimeouts (shown (some registry))
unfolding breaker_of new_circuit_breaker_registry new_circuit_breaker default_circuit_breaker_config
    lookup
registry-HaveTimeouts id = omega arith

order_candidates_lem_example :
    let (ordered, candidates) =
      order_candidates fractions environment request channels (some registry) in
    (shown ordered ≡ shown (some registry))
    × Perm candidates channels
    × (candidates
        ≡ chosen true (shown (some registry)) environment.order_time 0 channels
          ++ chosen false (shown (some registry)) environment.order_time 0 channels)
order_candidates_lem_example =
    order_candidates_lem fractions environment request channels (some registry)
      registry-HaveTimeouts

abbrev start : Progress (ℕ × ℕ) ℕ
start = record { breakers = none; last_err = none; delivered = [] }

abbrev switched : Progress (ℕ × ℕ) ℕ
switched = record { breakers = none; last_err = some unavailable; delivered = [] }

attempt-switched :
    attempt fractions environment request 0 (channel (codes "A") (codes "openai")) start
    ≡ continues switched
unfolding attempt allow_request_of admitted run_adapter play finished_attempt failed_attempt
    is_client_side_cancellation is_retryable_channel_error extract_http_status record_failure_of
    note_failure_reason_of release_half_open_permit_of apply_channel_to_request trim_space ◌==◌
    leading_number after_first has_prefix normalize_runtime_thinking_effort lower_text openai_script
attempt-switched = refl

attempt-continues_example :
    (switched.delivered ≡ [])
    × (((allow_request_of start.breakers (codes "A") 1).1.allowed ≡ false)
        ⊎ (¬ IsSupported
            (apply_channel_to_request request
              (channel (codes "A") (codes "openai"))
              (pos 0)).provider)
        ⊎ IsSwitchable false switched.last_err)
attempt-continues_example =
    attempt-continues fractions environment request 0 (channel (codes "A") (codes "openai")) start
      switched attempt-switched

-- The body of the response cannot be read.
abbrev broken_response : Option ErrorResponse
broken_response = some (record { status_code = 429; limited_body = body_read_error (codes "EOF") })

retryable-printed_example :
    (is_retryable_channel_error (build_http_status_error (codes "openai adapter") broken_response)
      ≡ true)
    ↔ MaySwitch broken_response
retryable-printed_example =
    retryable-printed (codes "openai adapter") broken_response (inl refl) (omega arith)

-- Three events, of which the last ends the loop, and an empty line.
abbrev stream_lines : List Line
stream_lines =
    event_line 20 goes_on ∷ other_line 0 ∷ event_line 90 goes_on ∷ event_line 12 breaks_off ∷ []

read-new_example :
    let result = (read_lines new_stream_budget stream_lines).1 in
    ((result ≡ left_early)
      × (total (looked_at stream_lines) ≤ 268_435_456)
      × (events_in (looked_at stream_lines) ≤ 200_000))
    ⊎ (IsBudgetError result
        × ((268_435_456 < total (looked_at stream_lines))
            ⊎ (200_000 < events_in (looked_at stream_lines))))
read-new_example =
    read-new stream_lines (omega arith, (omega arith, (omega arith, (omega arith, tt))))

abbrev longest_digest : Text → Text
longest_digest s = s

-- A legacy id is taken apart at its first separator.
legacy_id :
    provider_tool_call_id longest_digest (codes "call-1::functions.Shell:0")
    ≡ codes "tc_call-1_functions.Shell:0"
unfolding provider_tool_call_id build_provider_safe_tool_call_id split_legacy_tool_call_id
    short_tool_call_hash trim_space after_first
legacy_id = refl

provider_tool_call_id-le_example :
    (length (provider_tool_call_id longest_digest (codes "call-1::functions.Shell:0")) ≤ 64)
    × (length (namespace_tool_call_id longest_digest (codes "m") (codes "functions.Shell:0")) ≤ 64)
provider_tool_call_id-le_example =
    provider_tool_call_id-le longest_digest (codes "call-1::functions.Shell:0") (codes "m")
      (codes "functions.Shell:0")
