-- ===== src/AppendSeq/Requests.antt =====
-- Which state a request's appends share.
use cursor_switch.Common.{
  ℕ, ◌+◌, ◌≤◌, ◌||◌, ◌⊎◌, Bool-cases, ◌<◌, ◌≡◌, refl, true, false, Option, none, some, [], ◌∷◌,
  arith, if◌then◌else◌, inl, inr, sym, ◌∙◌,
}
use cursor_switch.Common.Text.{Text, trim_space, text_eq_iff}
use cursor_switch.Common.StringMap.{StringMap, lookup, lookup-insert, lookup-delete}
use cursor_switch.Messages.{is_empty}
use cursor_switch.AppendSeq.State.{
  append_sequence_retention, AppendSequenceState, is_not_positive, expired,
}
use cursor_switch.AppendSeq.Tracker.{
  AppendSequenceTracker, drop_expired, found_or_made, state_of, enter,
}

-- What the map holds for a request, unless it expired.
abbrev pub live : (ℕ → AppendSequenceState) → ℕ → Option ℕ → Option ℕ
live store now none = none
live store now (some a) = if expired (store a) now then none else some a

lookup-drop_expired :
    (store : ℕ → AppendSequenceState) (now : ℕ) (m : StringMap ℕ) (key : Text)
    → lookup key (drop_expired store now m) ≡ live store now (lookup key m)
unfolding drop_expired lookup
lookup-drop_expired store now [] key = refl
lookup-drop_expired store now (entry ∷ rest) key = ground (
  arith,
  lookup-drop_expired store now rest key,
  lookup-delete entry.0 key (drop_expired store now rest),
)

-- Each state that the tracker knows was made, and belongs to one request.
pub record IsSeparate (tracker : AppendSequenceTracker) : Type 0 where
  pub was_made : (key : Text) (a : ℕ) → lookup key tracker.states ≡ some a → a < tracker.made
  pub apart :
      (key other : Text) (a : ℕ)
      → lookup key tracker.states ≡ some a
      → lookup other tracker.states ≡ some a
      → key ≡ other

live-some :
    (store : ℕ → AppendSequenceState) (now a : ℕ) (o : Option ℕ)
    → live store now o ≡ some a
    → o ≡ some a
live-some store now a none h = h
live-some store now a (some b) h = ground arith

drop_expired-IsSeparate :
    (tracker : AppendSequenceTracker) (now : ℕ)
    → IsSeparate tracker
    → IsSeparate (record tracker { states = drop_expired tracker.store now tracker.states })
drop_expired-IsSeparate tracker now s =
    let before : (key : Text) (a : ℕ)
        → lookup key (drop_expired tracker.store now tracker.states) ≡ some a
        → lookup key tracker.states ≡ some a =
      λ key a h.
        live-some tracker.store now a (lookup key tracker.states)
          (sym (lookup-drop_expired tracker.store now tracker.states key) ∙ h) in
    record {
      was_made = λ key a h. s.was_made key a (before key a h);
      apart = λ key other a h k. s.apart key other a (before key a h) (before other a k);
    }

found_or_made-IsSeparate :
    (tracker : AppendSequenceTracker) (key : Text) (now : ℕ) (o : Option ℕ)
    → IsSeparate tracker
    → IsSeparate (found_or_made tracker key now o).0
unfolding found_or_made
found_or_made-IsSeparate tracker key now (some a) s = record {
  was_made = s.was_made;
  apart = s.apart;
}
found_or_made-IsSeparate tracker key now none s = record {
  was_made =
      λ j a h. ground (arith, s.was_made j a, lookup-insert key j tracker.made tracker.states);
  apart = λ j k a h l. ground (
    arith,
    s.apart j k a,
    s.was_made j a,
    s.was_made k a,
    lookup-insert key j tracker.made tracker.states,
    lookup-insert key k tracker.made tracker.states,
    text_eq_iff key j,
    text_eq_iff key k,
  );
}

found_or_made-lookup :
    (tracker : AppendSequenceTracker) (key : Text) (now : ℕ) (o : Option ℕ)
    → lookup key tracker.states ≡ o
    → lookup key (found_or_made tracker key now o).0.states
      ≡ some (found_or_made tracker key now o).1
unfolding found_or_made
found_or_made-lookup tracker key now (some a) h = h
found_or_made-lookup tracker key now none h =
    ground (arith, lookup-insert key key tracker.made tracker.states, text_eq_iff key key)

state_of-IsSeparate :
    (tracker : AppendSequenceTracker) (key : Text) (now : ℕ)
    → IsSeparate tracker
    → IsSeparate (state_of tracker key now).0
unfolding state_of
state_of-IsSeparate tracker key now s =
    let kept = drop_expired tracker.store now tracker.states in
    found_or_made-IsSeparate (record tracker { states = kept }) key now (lookup key kept)
      (drop_expired-IsSeparate tracker now s)

state_of-lookup :
    (tracker : AppendSequenceTracker) (key : Text) (now : ℕ)
    → lookup key (state_of tracker key now).0.states ≡ some (state_of tracker key now).1
unfolding state_of
state_of-lookup tracker key now =
    let kept = drop_expired tracker.store now tracker.states in
    found_or_made-lookup (record tracker { states = kept }) key now (lookup key kept) refl

-- No two requests share a state: from a tracker of which this holds, an append that enters leaves
-- one of which it holds, and is handed the state that the tracker then has for its request.
pub enter-IsSeparate :
    (tracker : AppendSequenceTracker) (request_id : Text) (append_seq now : ℕ)
    → IsSeparate tracker
    → let (t, o) = enter tracker request_id append_seq now in
      IsSeparate t × ((o ≡ none) ⊎ (lookup (trim_space request_id) t.states ≡ o))
unfolding enter
enter-IsSeparate tracker request_id append_seq now s =
    elim (Bool-cases (is_empty (trim_space request_id) || is_not_positive append_seq)) [
      | inl refused ↦ rw refused (s, inl refl)
      | inr goes ↦ rw goes (
        state_of-IsSeparate tracker (trim_space request_id) now s,
        inr (state_of-lookup tracker (trim_space request_id) now),
      )
    ]

-- While a ticket of a request is out, or its state was used in the last ten minutes, each
-- append of the request with a positive number is handed that same state.
pub enter_same :
    (tracker : AppendSequenceTracker) (request_id : Text) (append_seq now a : ℕ)
    → lookup (trim_space request_id) tracker.states ≡ some a
    → ((tracker.store a).processing ≡ true)
      ⊎ ((used : ℕ) × ((tracker.store a).updated_at ≡ some used)
          × (now ≤ used + append_sequence_retention))
    → is_empty (trim_space request_id) ≡ false
    → is_not_positive append_seq ≡ false
    → (enter tracker request_id append_seq now).1 ≡ some a
unfolding enter state_of found_or_made expired
enter_same tracker request_id append_seq now a here in_use named pos =
    ground (arith, lookup-drop_expired tracker.store now tracker.states (trim_space request_id))
