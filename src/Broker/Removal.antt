-- ===== src/Broker/Removal.antt =====
-- When a stream leaves the broker.
use mathlib.Core.List.{append-nil}
use cursor_switch.Common.{
  ℕ, ◌+◌, ◌%◌, ◌^◌, ◌≡◌, ◌≢◌, ◌⊎◌, ◌↔◌, true, false, none, some, [], ◌∷◌, ◌++◌, arith,
  if◌then◌else◌,
}
use cursor_switch.Common.Text.{Text, codes, trim_space, text_eq_iff}
use cursor_switch.Common.StringMap.{insert, lookup-insert, lookup-delete}
use cursor_switch.Common.Decimal.{decimal}
use cursor_switch.Messages.{is_blank}
use cursor_switch.Broker.Stream.{is_terminal_stream_status, ActiveStream}
use cursor_switch.Broker.Registry.{
  stream_removed, StreamBroker, get_stream, put_stream, stop_cleanup_timer, retired,
  retired_effects, remove_if_idle, subscribe, run_scheduled_terminal_cleanup,
}
use cursor_switch.Broker.Ending.{get_stream-put_stream}

next_differs : (n : ℕ) → (n + 1) % 2 ^ 64 ≢ n
next_differs n = omega arith

module _ {M : Type 0} where
  retired-backlog : (stream : ActiveStream M) → (retired stream).backlog ≡ stream.backlog
  unfolding retired stop_cleanup_timer
  retired-backlog stream = ground arith

  -- Nobody reads the stream, and it has ended, or no provider works for it, it holds no event, and it
  -- names no conversation.
  abbrev pub IsIdle : ActiveStream M → Type 0
  IsIdle stream =
      (stream.subscribers ≡ [])
      × ((is_terminal_stream_status stream.status ≡ true)
          ⊎ ((stream.provider_active ≡ false)
              × (stream.backlog ≡ [])
              × (trim_space stream.conversation_id ≡ [])))

  -- A stream is removed exactly when it has no subscriber and either has ended, or has no active
  -- provider, no event in its backlog and a blank conversation id. The broker's client is told of the
  -- removal, and only then. A stream that stays keeps its backlog, and no other stream is touched.
  pub remove_if_idle-IsIdle :
      (broker : StreamBroker M) (id other : Text) (stream : ActiveStream M)
      → is_blank id ≡ false
      → get_stream broker id ≡ some stream
      → trim_space other ≢ trim_space id
      → let (after, removed) = remove_if_idle broker id in
        ((removed ≡ true) ↔ IsIdle stream)
        × (get_stream after id ≡ (if removed then none else some (retired stream)))
        × ((retired stream).backlog ≡ stream.backlog)
        × (after.effects
            ≡ (broker.effects ++ retired_effects stream)
              ++ (if removed then stream_removed (trim_space id) ∷ [] else []))
        × (get_stream after other ≡ get_stream broker other)
  unfolding remove_if_idle get_stream put_stream
  remove_if_idle-IsIdle broker id other stream named found distinct =
      let kept = insert (trim_space id) (retired stream) broker.streams in
      (
        ground arith,
        ground (
          arith,
          lookup-insert (trim_space id) (trim_space id) (retired stream) broker.streams,
          lookup-delete (trim_space id) (trim_space id) kept,
          text_eq_iff (trim_space id) (trim_space id),
        ),
        retired-backlog stream,
        ground (arith, append-nil (broker.effects ++ retired_effects stream)),
        ground (
          arith,
          lookup-insert (trim_space id) (trim_space other) (retired stream) broker.streams,
          lookup-delete (trim_space id) (trim_space other) kept,
          text_eq_iff (trim_space id) (trim_space other),
        ),
      )

  -- A cleanup that was scheduled before a subscription, and that fires after it, changes nothing: the
  -- stream stays with its subscriber.
  pub subscribe-run_scheduled_terminal_cleanup :
      (broker : StreamBroker M) (id : Text) (now : ℕ) (stream : ActiveStream M)
      → is_blank id ≡ false
      → get_stream broker id ≡ some stream
      → let after = (subscribe broker id now).0 in
        run_scheduled_terminal_cleanup after id stream.cleanup_seq ≡ after
  unfolding subscribe run_scheduled_terminal_cleanup stop_cleanup_timer
  subscribe-run_scheduled_terminal_cleanup broker id now stream named found =
      let after = (subscribe broker id now).0 in
      let subscriber_id = codes "sub-" ++ decimal ((broker.next_id + 1) % 2 ^ 64) in
      let subscribed : ActiveStream M = record (stop_cleanup_timer stream) {
        subscribers = insert subscriber_id false stream.subscribers;
        updated_at = now;
      } in
      let held : get_stream after id ≡ some subscribed = ground (
        arith,
        get_stream-put_stream (record broker { next_id = (broker.next_id + 1) % 2 ^ 64 }) id
            subscribed,
      ) in
      outdated after id stream.cleanup_seq subscribed held (next_differs stream.cleanup_seq)
    where
      outdated :
          (b : StreamBroker M) (i : Text) (sequence : ℕ) (s : ActiveStream M)
          → get_stream b i ≡ some s
          → s.cleanup_seq ≢ sequence
          → run_scheduled_terminal_cleanup b i sequence ≡ b
      outdated b i sequence s f differs = ground arith
