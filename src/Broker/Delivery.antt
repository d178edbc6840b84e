-- ===== src/Broker/Delivery.antt =====
-- What a reader of a stream gets.
use cursor_switch.Common.{
  ℕ, zero, suc, ◌+◌, ◌≤◌, ◌≡◌, refl, sym, ap, ◌∙◌, Bool, true, false, not, ◌&&◌, List, [], ◌∷◌,
  ◌++◌, arith, if◌then◌else◌, length, drop, take, length-take, length-append, take-append-drop,
  take_of_length-le,
}
use mathlib.Core.Path.{subst}
use mathlib.Core.List.{append-nil, append_assoc}
use cursor_switch.Broker.Stream.{StreamEvent, ActiveStream, is_terminal_stream_status}
use cursor_switch.Broker.Backlog.{capped, published, is_refused, read_from_cursor}
use cursor_switch.Broker.Reader.{
  Reader, Turn, publishes, reads, until_end, has_end, read_round, new_reader, take_turn, take_turns,
}

module _ {M : Type 0} where
  -- The events that a stream takes; a terminal stream takes only those that end it.
  abbrev pub accepted : Bool → List (Turn M) → List (StreamEvent M)
  accepted terminal [] = []
  accepted terminal (publishes event now ∷ turns) =
      if not event.ends && terminal
      then accepted terminal turns
      else event ∷ accepted terminal turns
  accepted terminal (reads ∷ turns) = accepted terminal turns

  until_end-append :
      (es fs : List (StreamEvent M))
      → until_end (es ++ fs) ≡ (if has_end es then until_end es else es ++ until_end fs)
  unfolding until_end
  until_end-append [] fs = refl
  until_end-append (e ∷ es) fs = ground (arith, until_end-append es fs)

  has_end-append :
      (es fs : List (StreamEvent M))
      → has_end (es ++ fs) ≡ (if has_end es then true else has_end fs)
  has_end-append [] fs = refl
  has_end-append (e ∷ es) fs = ground (arith, has_end-append es fs)

  has_end-until_end : (es : List (StreamEvent M)) → has_end (until_end es) ≡ has_end es
  unfolding until_end
  has_end-until_end [] = refl
  has_end-until_end (e ∷ es) = ground (arith, has_end-until_end es)

  until_end_all : (es : List (StreamEvent M)) → has_end es ≡ false → until_end es ≡ es
  unfolding until_end
  until_end_all [] h = refl
  until_end_all (e ∷ es) h = ground (arith, until_end_all es)

  take-append :
      (n : ℕ) (es fs : List (StreamEvent M)) → n ≤ length es → take n (es ++ fs) ≡ take n es
  take-append zero es fs h = refl
  take-append (suc n) [] fs h = absurd (omega arith)
  take-append (suc n) (e ∷ es) fs h = ap (◌∷◌ e) (take-append n es fs (omega arith))

  -- Where the reader is, on the events of the stream.
  abbrev IsAhead : List (StreamEvent M) → Reader M → Type 0
  IsAhead backlog reader =
      if reader.returned
      then (reader.handled ≡ until_end backlog) × (has_end backlog ≡ true)
      else (reader.cursor ≤ length backlog)
        × (reader.handled ≡ take reader.cursor backlog)
        × (has_end reader.handled ≡ false)

  append-IsAhead :
      (backlog : List (StreamEvent M)) (event : StreamEvent M) (reader : Reader M)
      → IsAhead backlog reader
      → IsAhead (backlog ++ event ∷ []) reader
  append-IsAhead backlog event reader a = by_returned reader.returned a
    where
      by_returned :
          (returned : Bool)
          → IsAhead backlog (record reader { returned = returned })
          → IsAhead (backlog ++ event ∷ []) (record reader { returned = returned })
      by_returned true (all, ended) = (
        all ∙ sym (until_end-append backlog (event ∷ []) ∙ rw ended refl),
        has_end-append backlog (event ∷ []) ∙ rw ended refl,
      )
      by_returned false (within, seen, plain) = (
        omega (arith, length-append backlog (event ∷ [])),
        seen ∙ sym (take-append reader.cursor backlog (event ∷ []) within),
        plain,
      )

  ahead :
      (backlog : List (StreamEvent M)) (reader : Reader M) (left : List (StreamEvent M))
      → reader.cursor ≤ length backlog
      → reader.handled ++ left ≡ backlog
      → reader.handled ++ until_end left ≡ until_end backlog
      → has_end reader.handled ≡ false
      → length reader.handled ≡ reader.cursor
      → (returned : Bool) → has_end (until_end left) ≡ returned
      → IsAhead backlog (record {
        cursor = reader.cursor + length (until_end left);
        handled = reader.handled ++ until_end left;
        returned = returned;
      })
  ahead backlog reader left within whole sent plain position true h = (
    sent,
    ap has_end (sym whole)
        ∙ has_end-append reader.handled left
        ∙ rw plain (sym (has_end-until_end left) ∙ h),
  )
  ahead backlog reader left within whole sent plain position false h =
      let same : until_end left ≡ left = until_end_all left (sym (has_end-until_end left) ∙ h) in
      let size : reader.cursor + length left ≡ length backlog =
        omega (arith, position, length-append reader.handled left, ap length whole) in
      rw same (
        omega (arith, size),
        whole
            ∙ sym (
                ap (λ n. take n backlog) size
                ∙ take_of_length-le (length backlog) backlog (omega arith)),
        has_end-append reader.handled left ∙ rw plain (ap has_end (sym same) ∙ h),
      )

  -- A round leaves a reader that has gone past all of the stream, or up to its end.
  abbrev IsCaughtUp : List (StreamEvent M) → Reader M → Type 0
  IsCaughtUp backlog reader = IsAhead backlog reader × (reader.handled ≡ until_end backlog)

  round-IsCaughtUp :
      (stream : ActiveStream M) (reader : Reader M)
      → IsAhead stream.backlog reader
      → IsCaughtUp stream.backlog (read_round stream reader)
  unfolding read_round read_from_cursor
  round-IsCaughtUp stream reader a = by_returned reader.returned a
    where
      by_returned :
          (returned : Bool)
          → IsAhead stream.backlog (record reader { returned = returned })
          → IsCaughtUp stream.backlog (read_round stream (record reader { returned = returned }))
      by_returned true a = (a, a.0)
      by_returned false (within, seen, plain) =
          let left = drop reader.cursor stream.backlog in
          let whole : reader.handled ++ left ≡ stream.backlog =
            ap (λ es. es ++ left) seen ∙ take-append-drop reader.cursor stream.backlog in
          let sent : reader.handled ++ until_end left ≡ until_end stream.backlog =
            sym (ap until_end (sym whole) ∙ until_end-append reader.handled left ∙ rw plain refl) in
          (
            ahead stream.backlog reader left within whole sent plain
                (omega (arith, ap length seen, length-take reader.cursor stream.backlog))
                (has_end (until_end left)) refl,
            sent,
          )

  capped_within :
      (backlog_cap : ℕ) (es : List (StreamEvent M))
      → length es ≤ backlog_cap
      → capped backlog_cap es ≡ es
  unfolding capped
  capped_within backlog_cap es h = ground arith

  -- What `delivered_from` states of the turns that are left.
  abbrev Delivers : ℕ → ActiveStream M → Reader M → List (Turn M) → Type 0
  Delivers backlog_cap stream reader turns =
      IsAhead stream.backlog reader
      → length stream.backlog + length (accepted (is_terminal_stream_status stream.status) turns)
        ≤ backlog_cap
      → let state = take_turns backlog_cap (stream, reader) turns in
        (state.0.backlog
          ≡ stream.backlog ++ accepted (is_terminal_stream_status stream.status) turns)
        × IsAhead state.0.backlog state.1

  publishes-Delivers :
      (backlog_cap : ℕ) (stream : ActiveStream M) (reader : Reader M) (event : StreamEvent M)
      (now : ℕ) (turns : List (Turn M))
      → ((s : ActiveStream M) → Delivers backlog_cap s reader turns)
      → Delivers backlog_cap stream reader (publishes event now ∷ turns)
  unfolding take_turns take_turn is_refused published
  publishes-Delivers backlog_cap stream reader event now turns go a fits =
      by_refused (not event.ends && is_terminal_stream_status stream.status) fits
    where
      rest : List (StreamEvent M)
      rest = accepted (is_terminal_stream_status stream.status) turns

      by_refused :
          (refused : Bool)
          → length stream.backlog + length (if refused then rest else event ∷ rest) ≤ backlog_cap
          → let state =
              take_turns backlog_cap
                (if refused then stream else published backlog_cap event now stream, reader)
                turns in
            (state.0.backlog ≡ stream.backlog ++ (if refused then rest else event ∷ rest))
            × IsAhead state.0.backlog state.1
      by_refused true fits' = go stream a fits'
      by_refused false fits' =
          let grown : (published backlog_cap event now stream).backlog
              ≡ stream.backlog ++ event ∷ [] =
            capped_within backlog_cap (stream.backlog ++ event ∷ [])
              (omega (arith, length-append stream.backlog (event ∷ []))) in
          let (all, ahead_of) =
            go (published backlog_cap event now stream)
              (subst (λ es. IsAhead es reader) (sym grown)
                (append-IsAhead stream.backlog event reader a))
              (omega (arith, ap length grown, length-append stream.backlog (event ∷ []))) in
          (
            all ∙ ap (λ es. es ++ rest) grown ∙ append_assoc stream.backlog (event ∷ []) rest,
            ahead_of,
          )

  delivered_from :
      (backlog_cap : ℕ) (stream : ActiveStream M) (reader : Reader M) (turns : List (Turn M))
      → Delivers backlog_cap stream reader turns
  unfolding take_turns take_turn
  delivered_from backlog_cap stream reader [] a fits = (sym (append-nil stream.backlog), a)
  delivered_from backlog_cap stream reader (reads ∷ turns) a fits =
      delivered_from backlog_cap stream (read_round stream reader) turns
        (round-IsCaughtUp stream reader a).0 fits
  delivered_from backlog_cap stream reader (publishes event now ∷ turns) a fits =
      publishes-Delivers backlog_cap stream reader event now turns
        (λ s. delivered_from backlog_cap s reader turns) a fits

  -- A reader that subscribes to a stream without events gets, after its next round, every event that
  -- the stream has taken, each once and in their order, up to the first that ends the stream, however
  -- publishing and rounds interleave; if the stream has taken no more events than its bound.
  pub delivered :
      (backlog_cap : ℕ) (stream : ActiveStream M) (turns : List (Turn M))
      → stream.backlog ≡ []
      → length (accepted (is_terminal_stream_status stream.status) turns) ≤ backlog_cap
      → let (after, reader) = take_turns backlog_cap (stream, new_reader) turns in
        (read_round after reader).handled
        ≡ until_end (accepted (is_terminal_stream_status stream.status) turns)
  delivered backlog_cap stream turns empty fits =
      let (after, reader) = take_turns backlog_cap (stream, new_reader) turns in
      let (all, a) =
        delivered_from backlog_cap stream new_reader turns (omega arith, refl, refl)
          (omega (arith, ap length empty)) in
      (round-IsCaughtUp after reader a).1
      ∙ ap until_end
          (all ∙ ap (λ es. es ++ accepted (is_terminal_stream_status stream.status) turns) empty)
