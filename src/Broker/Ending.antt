-- ===== src/Broker/Ending.antt =====
-- How a stream ends.
use cursor_switch.Common.{
  ℕ, ◌-◌, ◌≡◌, refl, ap, ◌∙◌, Bool, true, false, Option, none, some, List, [], ◌∷◌, ◌++◌, arith,
  ltb, if◌then◌else◌, length,
}
use cursor_switch.Common.Text.{Text, codes, trim_space, text_eq_iff}
use cursor_switch.Common.StringMap.{lookup-insert}
use cursor_switch.Broker.Stream.{
  StreamStatus, completed, canceled, failed, is_terminal_stream_status, StreamEvent, ActiveStream,
}
use cursor_switch.Broker.Backlog.{capped, published, is_refused}
use cursor_switch.Broker.Capped.{endings, endings-append, endings-drop_oldest}
use cursor_switch.Broker.Registry.{
  provider_canceled, StreamBroker, get_stream, put_stream, stop_cleanup_timer, scheduled,
  schedule_terminal_cleanup, publish,
}
use cursor_switch.Broker.Terminal.{
  end_event, published_end, with_status, complete, fail, cancel, first_non_empty,
}

module _ {M : Type 0} where
  pub get_stream-put_stream :
      (broker : StreamBroker M) (id : Text) (stream : ActiveStream M)
      → get_stream (put_stream broker id stream) id ≡ some stream
  unfolding get_stream put_stream
  get_stream-put_stream broker id stream = ground (
    arith,
    lookup-insert (trim_space id) (trim_space id) stream broker.streams,
    text_eq_iff (trim_space id) (trim_space id),
  )

  pub endings-published :
      (backlog_cap now : ℕ) (event : StreamEvent M) (stream : ActiveStream M)
      → endings (published backlog_cap event now stream).backlog
        ≡ endings stream.backlog ++ endings (event ∷ [])
  unfolding published capped
  endings-published backlog_cap now event stream =
      let es = stream.backlog ++ event ∷ [] in
      ground (
        arith,
        endings-drop_oldest (length es - backlog_cap) es,
        endings-append stream.backlog (event ∷ []),
      )

  -- The broker holds the stream with this status, and these events in it end it.
  abbrev EndsWith : StreamBroker M → Text → StreamStatus → List (StreamEvent M) → Type 0
  EndsWith broker id status events =
      (stream : ActiveStream M) × (get_stream broker id ≡ some stream)
      × (stream.status ≡ status)
      × (endings stream.backlog ≡ events)

  scheduled-EndsWith :
      (broker : StreamBroker M) (id : Text) (now : ℕ) (status : StreamStatus)
      (events : List (StreamEvent M))
      → EndsWith broker id status events
      → EndsWith (schedule_terminal_cleanup broker id now) id status events
  unfolding schedule_terminal_cleanup scheduled stop_cleanup_timer
  scheduled-EndsWith broker id now status events (stream, found, has_status, ends) = rw found (
    scheduled stream now,
    get_stream-put_stream broker id (scheduled stream now),
    kept.0 ∙ has_status,
    ap endings kept.1 ∙ ends,
  )
    where
      kept :
          ((scheduled stream now).status ≡ stream.status)
          × ((scheduled stream now).backlog ≡ stream.backlog)
      kept = (ground arith, ground arith)

  publish-taken :
      (broker : StreamBroker M) (id : Text) (event : StreamEvent M) (now : ℕ)
      (stream : ActiveStream M)
      → get_stream broker id ≡ some stream
      → is_refused event stream ≡ false
      → publish broker id event now
        ≡ (put_stream broker id (published broker.backlog_cap event now stream), none)
  unfolding publish
  publish-taken broker id event now stream found taken = ground (arith)

  pub publish-refused :
      (broker : StreamBroker M) (id : Text) (event : StreamEvent M) (now : ℕ)
      (stream : ActiveStream M)
      → get_stream broker id ≡ some stream
      → is_refused event stream ≡ true
      → publish broker id event now ≡ (broker, none)
  unfolding publish
  publish-refused broker id event now stream found refused = ground (arith)

  published_end-taken :
      (broker : StreamBroker M) (id : Text) (event : StreamEvent M) (subscribers now : ℕ)
      (after : StreamBroker M)
      → publish broker id event now ≡ (after, none)
      → published_end broker id event subscribers now ≡ (
          if ltb 0 subscribers
          then (after, none)
          else (schedule_terminal_cleanup after id now, none))
  unfolding published_end
  published_end-taken broker id event subscribers now after taken = ground arith

  published_end-EndsWith :
      (broker : StreamBroker M) (id : Text) (event : StreamEvent M) (subscribers now : ℕ)
      (stream : ActiveStream M)
      → event.ends ≡ true
      → get_stream broker id ≡ some stream
      → let (after, err) = published_end broker id event subscribers now in
        (err ≡ none) × EndsWith after id stream.status (endings stream.backlog ++ event ∷ [])
  unfolding is_refused published
  published_end-EndsWith broker id event subscribers now stream ends found =
      rw
        (published_end-taken broker id event subscribers now after
          (publish-taken broker id event now stream found (ground arith)))
        (by_subscribers (ltb 0 subscribers))
    where
      after : StreamBroker M
      after = put_stream broker id (published broker.backlog_cap event now stream)

      ending : (e : StreamEvent M) → e.ends ≡ true → endings (e ∷ []) ≡ e ∷ []
      ending e h = ground arith

      at_publish : EndsWith after id stream.status (endings stream.backlog ++ event ∷ [])
      at_publish = (
        published broker.backlog_cap event now stream,
        get_stream-put_stream broker id (published broker.backlog_cap event now stream),
        refl,
        endings-published broker.backlog_cap now event stream
            ∙ ap (λ es. endings stream.backlog ++ es) (ending event ends),
      )

      by_subscribers :
          (some_left : Bool)
          → let result : StreamBroker M × Option Text =
              if some_left then (after, none) else (schedule_terminal_cleanup after id now, none) in
            (result.1 ≡ none)
            × EndsWith result.0 id stream.status (endings stream.backlog ++ event ∷ [])
      by_subscribers true = (refl, at_publish)
      by_subscribers false = (
        refl,
        scheduled-EndsWith after id now stream.status (endings stream.backlog ++ event ∷ [])
            at_publish,
      )

  complete-EndsWith :
      (broker : StreamBroker M) (id code message : Text) (now : ℕ) (stream : ActiveStream M)
      → get_stream broker id ≡ some stream
      → is_terminal_stream_status stream.status ≡ false
      → let (after, err) = complete broker id code message now in
        (err ≡ none)
        × EndsWith after id completed
            (endings stream.backlog ++ end_event (trim_space code) (trim_space message) ∷ [])
  unfolding complete with_status stop_cleanup_timer end_event
  complete-EndsWith broker id code message now stream found live =
      rw (found, live)
        (published_end-EndsWith (put_stream broker id (with_status completed now stream)) id
          (end_event (trim_space code) (trim_space message)) (length stream.subscribers) now
          (with_status completed now stream) refl
          (get_stream-put_stream broker id (with_status completed now stream)))

  fail-EndsWith :
      (broker : StreamBroker M) (id code message : Text) (now : ℕ) (stream : ActiveStream M)
      → get_stream broker id ≡ some stream
      → let (after, err) = fail broker id code message now in
        (err ≡ none)
        × EndsWith after id failed
            (endings stream.backlog ++ end_event (trim_space code) (trim_space message) ∷ [])
  unfolding fail with_status stop_cleanup_timer end_event
  fail-EndsWith broker id code message now stream found = rw found (
      published_end-EndsWith (put_stream broker id (with_status failed now stream)) id
        (end_event (trim_space code) (trim_space message)) (length stream.subscribers) now
        (with_status failed now stream) refl
        (get_stream-put_stream broker id (with_status failed now stream)))

  cancel-EndsWith :
      (broker : StreamBroker M) (id message : Text) (now : ℕ) (stream : ActiveStream M)
      → get_stream broker id ≡ some stream
      → let (after, err) = cancel broker id message now in
        (err ≡ none)
        × EndsWith after id canceled (
            endings stream.backlog
            ++ end_event
                (codes "canceled")
                (first_non_empty (trim_space message) (codes "[canceled] User aborted request"))
              ∷ [])
  unfolding cancel with_status stop_cleanup_timer end_event
  cancel-EndsWith broker id message now stream found =
      let effects =
        if stream.has_provider_cancel then provider_canceled stream.request_id ∷ [] else [] in
      let stopped = record (with_status canceled now stream) {
        has_provider_cancel = false;
        provider_active = false;
      } in
      let told : StreamBroker M = record broker { effects = broker.effects ++ effects } in
      rw found (
        published_end-EndsWith (put_stream told id stopped) id
          (end_event (codes "canceled")
            (first_non_empty (trim_space message) (codes "[canceled] User aborted request")))
          (length stream.subscribers) now stopped refl (get_stream-put_stream told id stopped))

  -- Completing a live stream ends it once: it is then completed, and of the events that end it its
  -- backlog has one more, with the given code and message. Completing it again changes nothing, and an
  -- event published after it that does not end the stream is dropped without an error.
  pub complete_again :
      (broker : StreamBroker M) (id code message other_code other_message : Text)
      (event : StreamEvent M) (now later : ℕ) (stream : ActiveStream M)
      → get_stream broker id ≡ some stream
      → is_terminal_stream_status stream.status ≡ false
      → event.ends ≡ false
      → let (after, err) = complete broker id code message now in
        (err ≡ none)
        × EndsWith after id completed
            (endings stream.backlog ++ end_event (trim_space code) (trim_space message) ∷ [])
        × (complete after id other_code other_message later ≡ (after, none))
        × (publish after id event later ≡ (after, none))
  unfolding complete is_terminal_stream_status is_refused
  complete_again broker id code message other_code other_message event now later stream found live
        plain =
      let (after, err) = complete broker id code message now in
      let (no_error, ended) = complete-EndsWith broker id code message now stream found live in
      let terminal : is_terminal_stream_status ended.0.status ≡ true =
        ap is_terminal_stream_status ended.2 in
      (
        no_error,
        ended,
        complete_terminal after id other_code other_message later ended.0 ended.1 terminal,
        publish-refused after id event later ended.0 ended.1 (refused event ended.0 plain terminal),
      )
    where
      complete_terminal :
          (b : StreamBroker M) (i c m : Text) (n : ℕ) (s : ActiveStream M)
          → get_stream b i ≡ some s
          → is_terminal_stream_status s.status ≡ true
          → complete b i c m n ≡ (b, none)
      complete_terminal b i c m n s f t = ground (arith)

      refused :
          (e : StreamEvent M) (s : ActiveStream M)
          → e.ends ≡ false
          → is_terminal_stream_status s.status ≡ true
          → is_refused e s ≡ true
      refused e s p t = ground (arith)

  -- Failing or cancelling a stream that the broker holds succeeds whatever its status, also on a stream
  -- that has ended: its status is then failed or canceled, and its backlog has one more event that ends
  -- it.
  pub ended_again-EndsWith :
      (broker : StreamBroker M) (id code message : Text) (now : ℕ) (stream : ActiveStream M)
      → get_stream broker id ≡ some stream
      → ((fail broker id code message now).1 ≡ none)
        × EndsWith
            (fail broker id code message now).0
            id
            failed
            (endings stream.backlog ++ end_event (trim_space code) (trim_space message) ∷ [])
        × ((cancel broker id message now).1 ≡ none)
        × EndsWith (cancel broker id message now).0 id canceled (
            endings stream.backlog
            ++ end_event
                (codes "canceled")
                (first_non_empty (trim_space message) (codes "[canceled] User aborted request"))
              ∷ [])
  ended_again-EndsWith broker id code message now stream found =
      let (no_error, ended) = fail-EndsWith broker id code message now stream found in
      let (no_error_too, ended_too) = cancel-EndsWith broker id message now stream found in
      (no_error, ended, no_error_too, ended_too)
