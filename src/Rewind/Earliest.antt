-- ===== src/Rewind/Earliest.antt =====
-- Among several entries with one message, the earliest is taken.
use mathlib.Core.Path.{subst}
use cursor_switch.Common.{
  ℕ, ◌+◌, ◌≤◌, ◌<◌, ◌≡◌, refl, sym, ◌∙◌, ◌⊎◌, inl, inr, Bool, true, false, not, ◌&&◌, ◌||◌, Option,
  none, some, List, [], ◌∷◌, arith, if◌then◌else◌,
}
use cursor_switch.Common.Int.{ℤ, pos, ◌<ℤ◌, ◌≤ℤ◌}
use cursor_switch.Common.Text.{Text, codes}
use cursor_switch.Rewind.Decide.{
  HistoryEntry, earlier_history_entry, eq_ℤ, first_aligned, earliest_after, earliest,
  select_run_rewind_match,
}
use cursor_switch.Rewind.Choice.{
  IsIn, is_earliest, select-IsIn, IsEarlier, earlier→IsEarlier, IsEarlier→earlier, IsEarlier-trans,
}

lt_or_le : (a b : ℤ) → (a <ℤ b) ⊎ (b ≤ℤ a)
lt_or_le a b = ground arith

before_or_after : (a b : ℕ) → (a < b) ⊎ (b ≤ a)
before_or_after a b = ground arith

-- An entry between two in order is after the first or before the second.
split_time :
    (a b c : HistoryEntry)
    → b.turn_seq ≤ℤ a.turn_seq
    → c.turn_seq ≤ℤ b.turn_seq
    → a.turn_seq ≤ℤ c.turn_seq
    → b.seq ≤ℤ a.seq
    → c.seq ≤ℤ b.seq
    → a.seq ≤ℤ c.seq
    → a.created_at < c.created_at
    → IsEarlier a b ⊎ IsEarlier b c
split_time a b c t u v p q r time = elim (before_or_after a.created_at b.created_at) [
  | inl first ↦ inl (inr (omega arith, inr (omega arith, first)))
  | inr second ↦ inr (inr (omega arith, inr (omega arith, omega arith)))
]

split_seq :
    (a b c : HistoryEntry)
    → b.turn_seq ≤ℤ a.turn_seq
    → c.turn_seq ≤ℤ b.turn_seq
    → a.turn_seq ≤ℤ c.turn_seq
    → (a.seq <ℤ c.seq) ⊎ ((a.seq ≤ℤ c.seq) × (a.created_at < c.created_at))
    → IsEarlier a b ⊎ IsEarlier b c
split_seq a b c t u v order = elim (lt_or_le a.seq b.seq) [
  | inl first ↦ inl (inr (omega arith, inl first))
  | inr after ↦ elim (lt_or_le b.seq c.seq) [
    | inl second ↦ inr (inr (omega arith, inl second))
    | inr both ↦ elim order [
      | inl strict ↦ absurd (omega arith)
      | inr at_once ↦ split_time a b c t u v after both at_once.0 at_once.1
    ]
  ]
]

IsEarlier-split : (a b c : HistoryEntry) → IsEarlier a c → IsEarlier a b ⊎ IsEarlier b c
IsEarlier-split a b c order = elim (lt_or_le a.turn_seq b.turn_seq) [
  | inl first ↦ inl (inl first)
  | inr after ↦ elim (lt_or_le b.turn_seq c.turn_seq) [
    | inl second ↦ inr (inl second)
    | inr both ↦ elim order [
      | inl strict ↦ absurd (omega arith)
      | inr same ↦ split_seq a b c after both same.0 same.1
    ]
  ]
]

earlier_irrefl : (a : HistoryEntry) → IsEarlier a a → ⊥
earlier_irrefl a (inl turn) = omega arith
earlier_irrefl a (inr (turn, inl seq)) = omega arith
earlier_irrefl a (inr (turn, inr (seq, time))) = omega arith

-- No entry of the list is earlier.
abbrev pub IsEarliest : HistoryEntry → List HistoryEntry → Type 0
IsEarliest entry matches = (other : HistoryEntry) → IsIn other matches → IsEarlier other entry → ⊥

not_earlier : (a b : HistoryEntry) → earlier_history_entry a b ≡ false → IsEarlier a b → ⊥
not_earlier a b h e =
    let both : true ≡ false = sym (IsEarlier→earlier a b e) ∙ h in absurd (ground arith)

earliest-IsEarliest :
    (selected : HistoryEntry) (matches : List HistoryEntry)
    → IsEarliest (earliest selected matches) (selected ∷ matches)
unfolding earliest
earliest-IsEarliest selected [] other (inl same) e =
    earlier_irrefl selected (subst (λ o. IsEarlier o selected) (sym same) e)
earliest-IsEarliest selected [] other (inr later) e = later
earliest-IsEarliest selected (entry ∷ matches) other within e =
    by_order (earlier_history_entry entry selected) refl
      (earliest (if earlier_history_entry entry selected then entry else selected) matches)
      (earliest-IsEarliest (if earlier_history_entry entry selected then entry else selected)
        matches)
      within e
  where
    by_order :
        (better : Bool)
        → earlier_history_entry entry selected ≡ better
        → (least : HistoryEntry) → IsEarliest least ((if better then entry else selected) ∷ matches)
        → IsIn other (selected ∷ entry ∷ matches)
        → IsEarlier other least
        → ⊥
    by_order true h least go (inl same) e = go entry (inl refl) (
        IsEarlier-trans entry selected least (earlier→IsEarlier entry selected h)
          (subst (λ o. IsEarlier o least) (sym same) e))
    by_order true h least go (inr later) e = go other later e
    by_order false h least go (inl same) e = go other (inl same) e
    by_order false h least go (inr (inl same)) e =
        elim (IsEarlier-split entry selected least (subst (λ o. IsEarlier o least) (sym same) e)) [
          | inl before ↦ not_earlier entry selected h before
          | inr after ↦ go selected (inl refl) after
        ]
    by_order false h least go (inr (inr later)) e = go other (inr later) e

is_earliest_of :
    (entry : HistoryEntry) (matches : List HistoryEntry)
    → IsEarliest entry matches
    → is_earliest entry matches ≡ true
is_earliest_of entry [] h = refl
is_earliest_of entry (other ∷ matches) h =
    by_order (earlier_history_entry other entry) refl
      (is_earliest_of entry matches (λ o within. h o (inr within)))
  where
    by_order :
        (earlier : Bool)
        → earlier_history_entry other entry ≡ earlier
        → is_earliest entry matches ≡ true
        → (not earlier && is_earliest entry matches) ≡ true
    by_order true e rest = absurd (h other (inl refl) (earlier→IsEarlier other entry e))
    by_order false e rest = rest

-- The entry is of the turn.
abbrev pub is_of_turn : ℤ → HistoryEntry → Bool
is_of_turn turn entry = eq_ℤ entry.turn_seq turn

abbrev pub any_of_turn : ℤ → List HistoryEntry → Bool
any_of_turn turn [] = false
any_of_turn turn (entry ∷ matches) = is_of_turn turn entry || any_of_turn turn matches

-- What the selected entry is, by the number of turns that the client counts: without one, no match is
-- earlier; with one, it is of the next turn if a match is.
abbrev pub is_chosen : Option ℕ → HistoryEntry → List HistoryEntry → Bool
is_chosen none chosen matches = is_earliest chosen matches
is_chosen (some turns) chosen matches =
    not (any_of_turn (pos (turns + 1)) matches) || is_of_turn (pos (turns + 1)) chosen

-- What a search for a turn finds.
abbrev is_aligned : ℤ → Option HistoryEntry → List HistoryEntry → Bool
is_aligned turn none matches = not (any_of_turn turn matches)
is_aligned turn (some entry) matches = is_of_turn turn entry

first_aligned-is_aligned :
    (turn : ℤ) (matches : List HistoryEntry)
    → is_aligned turn (first_aligned turn matches) matches ≡ true
unfolding first_aligned
first_aligned-is_aligned turn [] = refl
first_aligned-is_aligned turn (entry ∷ matches) =
    by_turn (eq_ℤ entry.turn_seq turn) refl (first_aligned turn matches)
      (first_aligned-is_aligned turn matches)
  where
    by_turn :
        (here : Bool)
        → eq_ℤ entry.turn_seq turn ≡ here
        → (later : Option HistoryEntry) → is_aligned turn later matches ≡ true
        → is_aligned turn (if here then some entry else later) (entry ∷ matches) ≡ true
    by_turn true e later h = e
    by_turn false e none h = ground arith
    by_turn false e (some other) h = h

-- The entry that a rewind selects among the entries that hold the message is one of them. If the client
-- gives no number of turns, none of them is earlier, by turn, then by number, then by time; if it gives
-- one, the entry is of the next turn, if one of them is.
pub select_run_rewind_match_lem :
    (first : HistoryEntry) (others : List HistoryEntry) (client_turns : Option ℕ)
    → let chosen = (select_run_rewind_match first others client_turns).0 in
      IsIn chosen (first ∷ others) × (is_chosen client_turns chosen (first ∷ others) ≡ true)
unfolding select_run_rewind_match
select_run_rewind_match_lem first others none = (
  select-IsIn first others none,
  is_earliest_of (earliest first others) (first ∷ others) (earliest-IsEarliest first others),
)
select_run_rewind_match_lem first others (some turns) = (
  select-IsIn first others (some turns),
  by_aligned (first_aligned (pos (turns + 1)) (first ∷ others))
      (first_aligned-is_aligned (pos (turns + 1)) (first ∷ others)),
)
  where
    by_aligned :
        (aligned : Option HistoryEntry)
        → is_aligned (pos (turns + 1)) aligned (first ∷ others) ≡ true
        → is_chosen
            (some turns)
            (let selected : HistoryEntry × Text = elim aligned [
              | some entry ↦ (entry, codes "client_turn_count_aligned")
              | none ↦ elim (earliest_after (pos turns) none (first ∷ others)) [
                | some candidate ↦ (candidate, codes "first_match_after_client_turn_count")
                | none ↦ (earliest first others, codes "earliest_message_id_match")
              ]
            ] in
              selected).0
            (first ∷ others)
          ≡ true
    by_aligned (some entry) h = ground arith
    by_aligned none h = ground arith
