-- ===== src/Lib.antt =====
-- The verification library of Cursor-Switch: the Go code that decides to which model provider a
-- request goes, what of it is sent, and how the events of the answer reach the editor.
--
-- A request for a model reaches `Router.Stream` (internal/backend/agent/model/router.go). The router
-- takes the channels that serve the model, orders them by their circuit breakers, and tries one after
-- the other: it writes the channel's data into the request, runs the provider's adapter, reports the
-- result to the channel's breaker, and fails over when the error allows it and nothing was shown yet.
-- The adapters send the request's messages after `sanitizeProviderMessages` has put them in order.
--
-- Common holds what the parts share: Boolean tests, lists, signed integers, byte strings with the
-- functions of package strings that the code calls, decimal numerals, and maps keyed by strings.
--
-- Breaker is internal/backend/agent/model/circuit_breaker.go. Types has the records and enums, Gate
-- the recovery after the timeout, the transitions and `AllowRequest`, Outcome the window of recent
-- results and the reports of success and failure. A method is a function from a breaker to a breaker
-- with the source's name; its time is an argument, since the mutex makes each method one step. Calls
-- has sequences of calls. Invariant, History, Diagram, Due, Timing and Probe hold the theorems. float64 and
-- the capacity that `append` gives are parameters (`Platform`), with the one law that `append` makes
-- room for what it is asked to hold; int64 nanoseconds and uint32 counters wrap as in Go.
--
-- Messages is the part of router.go from `sanitizeProviderMessages` on. Types has the messages, Merge
-- the merging of neighbouring assistant messages, Sanitize the removal of unanswered calls and the
-- whole function. Groups, Pairing, Ending and Merging hold the theorems.
--
-- Router is the rest of router.go. Errors says which errors allow a switch (with
-- `buildHTTPStatusError` of http_error.go), Registry is the map of breakers, Effort and Request are
-- `applyChannelToRequest`, Stream is the order of the candidates and the loop of `Router.Stream`. The
-- adapters are scripts that give events to the sink and react to its errors; the sink, the clock, the
-- context and what other requests do to the breakers during an attempt are parameters
-- (`Environment`). Budget is stream_budget.go, the bound on the bytes and events of a stream, with the
-- loop of openai.go over a stream's lines: the lines are what the scanner gives, and what the loop makes
-- of a counted event is given with its line. ToolCallId is tool_call_id.go, the ids of tool calls, with
-- the digest of a text as a parameter. InFlight, Order, Permits, Failover, Status, Streams and
-- ToolCallIds hold the theorems.
--
-- AppendSeq is internal/backend/forwarder/append_seq.go, which admits the appends of a request one at a
-- time. State has the rounds of `acquire` and `Release`, each one step since it holds the mutex;
-- Tracker the map of states, with pointers as addresses in a store; Pool the goroutines of one state,
-- whose steps interleave in any order, with the channel `ready` as a number that grows when it is
-- closed. Exclusion, Wakeup, Order and Requests hold the theorems.
--
-- WebFetch is internal/backend/agent/bridge/interaction/webfetch_cache.go, the cache of fetched pages:
-- Cache has its data and operations, with the elements of the linked list as numbers, Entries the
-- lemmas on the list, Consistent, Calls, Hits and Freshness the theorems.
--
-- Updater is internal/updater/semver.go, the comparison of versions: Semver has the functions, with
-- `strconv.Atoi` and `strings.Split` written out, Comparison the theorem.
--
-- Broker is internal/backend/forwarder/broker.go, the active streams of requests: Stream has their
-- data, Backlog the events of a stream with their bound and reads from a cursor, Registry the streams
-- by request with subscribers and removal, Terminal the ends of a stream. Reader is the loop of
-- `RunSSE` in service.go that reads a stream, whose rounds interleave with publishing. Each method is
-- one step, though the source takes its locks one after the other. The calls that a method makes of
-- functions it was given (`ProviderCancel`, `OnStreamRemoved`) are a list of effects, and a timer is
-- the sequence number that it will fire with. The maps of pending work in a stream belong to its actor
-- and are left out. Capped, Delivery, Saturation, Ending and Removal hold the theorems.
--
-- ModelChannel is internal/modelchannel, which finds the configured channels that serve a model:
-- Resolve has the two resolvers of resolve.go, Identity the ids of identity.go, with the digest of a
-- text as a parameter. Scans and Agreement, Candidates and Ids hold the theorems.
--
-- Replay is internal/backend/forwarder/tool_result_replay_truncation.go, which bounds the tool results
-- of a replayed conversation: Truncate cuts a text, with `utf8.ValidString` written out, Compact has
-- the JSON values with what is changed inside them, and the limits of the tools, Limit the function
-- `limitProjectedToolResultReplay`. encoding/json and `computeEditDiff` are arguments. Lengths, Prefix,
-- Rounds and Bound hold the theorems.
--
-- Rewind is the decision of internal/backend/forwarder/rewind.go: whether a run that repeats an earlier
-- user message takes the conversation back to it. Decide has the decision, with the decoding of a
-- stored message as a parameter; Choice, Earliest and Kept hold the theorems.
--
-- Loops are structural recursion on the lists they traverse. The eviction loop of the cache runs on
-- fuel, the length of its list: each round takes an entry off the list, so the loop has ended when the
-- fuel is used up (WebFetch/Consistent). The two loops of a truncation run on fuel, one round of which is
-- enough (Replay/Rounds). Printing a number in decimal runs on fuel above the number
-- (Common/Decimal).
--
-- Not modelled: the adapters' HTTP and the translation of their streams, the events that are logged for
-- diagnostics, and the other packages of the repository (the proxy, the desktop window, the Connect
-- services, configuration and certificates). Of internal/backend/forwarder the conversation actor with
-- its handlers and stores is not modelled, nor is the application of a rewind, which derives the state
-- of the conversation anew. Where the code parses or prints a URL, JSON or a protobuf message, it calls
-- packages that are not in the repository: these are parameters, or the function is left out.
pub mod Common
pub mod Breaker
pub mod Messages
pub mod Router
pub mod AppendSeq
pub mod WebFetch
pub mod Updater
pub mod Broker
pub mod ModelChannel
pub mod Replay
pub mod Rewind
