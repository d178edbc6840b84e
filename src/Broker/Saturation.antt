-- ===== src/Broker/Saturation.antt =====
-- A reader at the bound of the backlog.
use cursor_switch.Common.{
  ℕ, suc, ◌-◌, ◌≤◌, ◌<◌, ◌≡◌, refl, sym, ap, ◌∙◌, Bool, true, false, List, [], ◌∷◌, ◌++◌, arith,
  if◌then◌else◌, length, length-append,
}
use mathlib.Core.List.{append-nil}
use mathlib.Core.Path.{subst}
use cursor_switch.Broker.Stream.{StreamEvent, ActiveStream}
use cursor_switch.Broker.Backlog.{drop_oldest, capped, published, is_refused, read_from_cursor}
use cursor_switch.Broker.Capped.{
  endings-append, endings, others, length_split, endings-drop_oldest, length-drop_oldest, drop_all,
}
use cursor_switch.Broker.Reader.{
  Reader, Turn, publishes, reads, until_end, read_round, take_turn, take_turns,
}

module _ {M : Type 0} where
  -- The backlog is full of events that do not end the stream.
  abbrev IsFull : ℕ → ActiveStream M → Type 0
  IsFull backlog_cap stream = (length stream.backlog ≡ backlog_cap) × (endings stream.backlog ≡ [])

  -- An event more leaves it as long as it is.
  published-full :
      (backlog_cap now : ℕ) (event : StreamEvent M) (stream : ActiveStream M)
      → 0 < backlog_cap
      → IsFull backlog_cap stream
      → (length (published backlog_cap event now stream).backlog ≡ backlog_cap)
        × (endings (published backlog_cap event now stream).backlog ≡ endings (event ∷ []))
  unfolding published capped
  published-full backlog_cap now event stream pos full =
      let es = stream.backlog ++ event ∷ [] in
      let size : length es ≡ suc backlog_cap =
        omega (arith, full.0, length-append stream.backlog (event ∷ [])) in
      let plain : length (others stream.backlog) ≡ backlog_cap =
        omega (arith, full.0, length_split stream.backlog, ap length full.1) in
      let ends : endings es ≡ endings (event ∷ []) =
        endings-append stream.backlog (event ∷ []) ∙ ap (λ l. l ++ endings (event ∷ [])) full.1 in
      let taken : capped backlog_cap es ≡ drop_oldest (length es - backlog_cap) es = ground arith in
      (
        ap length taken
            ∙ omega (
              arith,
              size,
              length-drop_oldest (length es - backlog_cap) es,
              length_split es,
              ap length ends,
              one_at_most event,
            ),
        ap endings taken ∙ endings-drop_oldest (length es - backlog_cap) es ∙ ends,
      )
    where
      one_at_most : (e : StreamEvent M) → length (endings (e ∷ [])) ≤ 1
      one_at_most e = ground arith

  -- The turns publish no event that ends the stream.
  abbrev pub NoneEnds : List (Turn M) → Type 0
  NoneEnds [] = Unit
  NoneEnds (publishes event now ∷ turns) = (event.ends ≡ false) × NoneEnds turns
  NoneEnds (reads ∷ turns) = NoneEnds turns

  -- The reader has gone past as many events as the backlog holds.
  abbrev IsAtBound : ℕ → Reader M → Type 0
  IsAtBound backlog_cap reader = (reader.cursor ≡ backlog_cap) × (reader.returned ≡ false)

  read_round-stuck :
      (backlog_cap : ℕ) (stream : ActiveStream M) (reader : Reader M)
      → length stream.backlog ≡ backlog_cap
      → IsAtBound backlog_cap reader
      → read_round stream reader ≡ reader
  unfolding read_round read_from_cursor until_end
  read_round-stuck backlog_cap stream reader full at_bound =
      ground (arith, append-nil reader.handled, drop_all reader.cursor stream.backlog)

  -- What `take_turns-stuck` states of the turns that are left.
  abbrev StaysStuck : ℕ → Reader M → List (Turn M) → ActiveStream M → Type 0
  StaysStuck backlog_cap reader turns stream =
      IsFull backlog_cap stream
      → NoneEnds turns
      → let state = take_turns backlog_cap (stream, reader) turns in
        IsFull backlog_cap state.0 × (state.1 ≡ reader)

  publishes-StaysStuck :
      (backlog_cap : ℕ) (stream : ActiveStream M) (reader : Reader M) (event : StreamEvent M)
      (now : ℕ) (turns : List (Turn M))
      → 0 < backlog_cap
      → ((s : ActiveStream M) → StaysStuck backlog_cap reader turns s)
      → StaysStuck backlog_cap reader (publishes event now ∷ turns) stream
  unfolding take_turns take_turn
  publishes-StaysStuck backlog_cap stream reader event now turns pos go full none =
      by_refused (is_refused event stream)
    where
      plain : (e : StreamEvent M) → e.ends ≡ false → endings (e ∷ []) ≡ []
      plain e h = ground arith

      by_refused :
          (refused : Bool)
          → let state =
              take_turns backlog_cap
                (if refused then stream else published backlog_cap event now stream, reader)
                turns in
            IsFull backlog_cap state.0 × (state.1 ≡ reader)
      by_refused true = go stream full none.1
      by_refused false =
          let (size, ends) = published-full backlog_cap now event stream pos full in
          go (published backlog_cap event now stream) (size, ends ∙ plain event none.0) none.1

  take_turns-stuck :
      (backlog_cap : ℕ) (stream : ActiveStream M) (reader : Reader M) (turns : List (Turn M))
      → 0 < backlog_cap
      → IsAtBound backlog_cap reader
      → StaysStuck backlog_cap reader turns stream
  unfolding take_turns take_turn
  take_turns-stuck backlog_cap stream reader [] pos at_bound full none = (full, refl)
  take_turns-stuck backlog_cap stream reader (reads ∷ turns) pos at_bound full none =
      subst
        (λ r.
          let state = take_turns backlog_cap (stream, r) turns in
          IsFull backlog_cap state.0 × (state.1 ≡ reader))
        (sym (read_round-stuck backlog_cap stream reader full.0 at_bound))
        (take_turns-stuck backlog_cap stream reader turns pos at_bound full none)
  take_turns-stuck backlog_cap stream reader (publishes event now ∷ turns) pos at_bound full none =
      publishes-StaysStuck backlog_cap stream reader event now turns pos
        (λ s. take_turns-stuck backlog_cap s reader turns pos at_bound) full none

  -- Once a reader has gone past as many events as the backlog holds at most, on a backlog that is full
  -- of events that do not end the stream, it stands still: however publishing and rounds interleave, it
  -- never gets an event again, as long as none that ends the stream is published; and when any event is
  -- published last, also one that ends the stream, the next round gives the reader nothing, and its
  -- loop does not return.
  pub published_past_bound-read_round :
      (backlog_cap now : ℕ) (stream : ActiveStream M) (reader : Reader M) (turns : List (Turn M))
      (last : StreamEvent M)
      → 0 < backlog_cap
      → (length stream.backlog ≡ backlog_cap) × (endings stream.backlog ≡ [])
      → (reader.cursor ≡ backlog_cap) × (reader.returned ≡ false)
      → NoneEnds turns
      → let (after, then_reader) = take_turns backlog_cap (stream, reader) turns in
        (then_reader ≡ reader)
        × (read_round (published backlog_cap last now after) then_reader ≡ reader)
  published_past_bound-read_round backlog_cap now stream reader turns last pos full at_bound none =
      let (after, then_reader) = take_turns backlog_cap (stream, reader) turns in
      let (still_full, same) =
        take_turns-stuck backlog_cap stream reader turns pos at_bound full none in
      let size = (published-full backlog_cap now last after pos still_full).0 in
      (
        same,
        ap (read_round (published backlog_cap last now after)) same
            ∙ read_round-stuck backlog_cap (published backlog_cap last now after) reader size
                at_bound,
      )
