-- ===== src/Rewind/Choice.antt =====
-- Which entry a rewind goes to.
use cursor_switch.Common.{
  ℕ, ◌+◌, ◌<◌, ◌≡◌, refl, ◌⊎◌, inl, inr, Bool, true, false, not, ◌&&◌, Option, none, some, List, [],
  ◌∷◌, arith, if◌then◌else◌,
}
use cursor_switch.Common.Int.{ℤ, pos, ◌<ℤ◌, ◌≤ℤ◌, leb_ℤ}
use cursor_switch.Common.Text.{Text, codes}
use cursor_switch.Rewind.Decide.{
  HistoryEntry, eq_ℤ, earlier_history_entry, is_better, first_aligned, earliest_after, earliest,
  select_run_rewind_match,
}

abbrev pub IsIn : HistoryEntry → List HistoryEntry → Type 0
IsIn entry [] = ⊥
IsIn entry (other ∷ entries) = (other ≡ entry) ⊎ IsIn entry entries

-- Nothing in the list is earlier than the entry.
abbrev pub is_earliest : HistoryEntry → List HistoryEntry → Bool
is_earliest entry [] = true
is_earliest entry (other ∷ entries) =
    not (earlier_history_entry other entry) && is_earliest entry entries

-- The order of entries, as a statement.
abbrev pub IsEarlier : HistoryEntry → HistoryEntry → Type 0
IsEarlier a b =
    (a.turn_seq <ℤ b.turn_seq)
    ⊎ ((a.turn_seq ≤ℤ b.turn_seq)
        × ((a.seq <ℤ b.seq) ⊎ ((a.seq ≤ℤ b.seq) × (a.created_at < b.created_at))))

pub earlier→IsEarlier : (a b : HistoryEntry) → earlier_history_entry a b ≡ true → IsEarlier a b
earlier→IsEarlier a b h = ground arith

pub IsEarlier→earlier : (a b : HistoryEntry) → IsEarlier a b → earlier_history_entry a b ≡ true
IsEarlier→earlier a b (inl turn) = ground arith
IsEarlier→earlier a b (inr (turn, inl seq)) = ground arith
IsEarlier→earlier a b (inr (turn, inr (seq, time))) = ground arith

pub IsEarlier-trans : (a b c : HistoryEntry) → IsEarlier a b → IsEarlier b c → IsEarlier a c
IsEarlier-trans a b c (inl t) (inl u) = inl (omega arith)
IsEarlier-trans a b c (inl t) (inr (u, v)) = inl (omega arith)
IsEarlier-trans a b c (inr (t, v)) (inl u) = inl (omega arith)
IsEarlier-trans a b c (inr (t, inl v)) (inr (u, inl w)) = inr (omega arith, inl (omega arith))
IsEarlier-trans a b c (inr (t, inl v)) (inr (u, inr w)) = inr (omega arith, inl (omega arith))
IsEarlier-trans a b c (inr (t, inr v)) (inr (u, inl w)) = inr (omega arith, inl (omega arith))
IsEarlier-trans a b c (inr (t, inr v)) (inr (u, inr w)) =
    inr (omega arith, inr (omega arith, omega arith))

choice_within :
    (take_first : Bool) (entry selected other : HistoryEntry) (matches : List HistoryEntry)
    → IsIn entry ((if take_first then other else selected) ∷ matches)
    → IsIn entry (selected ∷ other ∷ matches)
choice_within true entry selected other matches h = inr h
choice_within false entry selected other matches (inl same) = inl same
choice_within false entry selected other matches (inr later) = inr (inr later)

earliest-IsIn :
    (selected : HistoryEntry) (matches : List HistoryEntry)
    → IsIn (earliest selected matches) (selected ∷ matches)
unfolding earliest
earliest-IsIn selected [] = inl refl
earliest-IsIn selected (other ∷ matches) =
    choice_within (earlier_history_entry other selected)
      (earliest (if earlier_history_entry other selected then other else selected) matches) selected
      other matches
      (earliest-IsIn (if earlier_history_entry other selected then other else selected) matches)

IsFound : Option HistoryEntry → List HistoryEntry → Type 0
IsFound none entries = Unit
IsFound (some entry) entries = IsIn entry entries

first_aligned-IsFound :
    (target : ℤ) (matches : List HistoryEntry) → IsFound (first_aligned target matches) matches
unfolding first_aligned IsFound
first_aligned-IsFound target [] = tt
first_aligned-IsFound target (entry ∷ matches) =
    by_match (eq_ℤ entry.turn_seq target) (first_aligned target matches)
      (first_aligned-IsFound target matches)
  where
    by_match :
        (aligned : Bool) (later : Option HistoryEntry)
        → IsFound later matches
        → IsFound (if aligned then some entry else later) (entry ∷ matches)
    by_match true later h = inl refl
    by_match false none h = tt
    by_match false (some other) h = inr h

-- What was found is in the list, or was the candidate before.
IsFrom : Option HistoryEntry → Option HistoryEntry → List HistoryEntry → Type 0
IsFrom none candidate entries = Unit
IsFrom (some entry) none entries = IsIn entry entries
IsFrom (some entry) (some candidate) entries = IsIn entry (candidate ∷ entries)

keep_candidate :
    (found candidate : Option HistoryEntry) (entry : HistoryEntry) (matches : List HistoryEntry)
    → IsFrom found candidate matches
    → IsFrom found candidate (entry ∷ matches)
unfolding IsFrom
keep_candidate none candidate entry matches h = tt
keep_candidate (some e) none entry matches h = inr h
keep_candidate (some e) (some c) entry matches (inl same) = inl same
keep_candidate (some e) (some c) entry matches (inr later) = inr (inr later)

take_entry :
    (found candidate : Option HistoryEntry) (entry : HistoryEntry) (matches : List HistoryEntry)
    → IsFrom found (some entry) matches
    → IsFrom found candidate (entry ∷ matches)
unfolding IsFrom
take_entry none candidate entry matches h = tt
take_entry (some e) none entry matches h = h
take_entry (some e) (some c) entry matches h = inr h

earliest_after-IsFrom :
    (turns : ℤ) (candidate : Option HistoryEntry) (matches : List HistoryEntry)
    → IsFrom (earliest_after turns candidate matches) candidate matches
unfolding earliest_after IsFrom
earliest_after-IsFrom turns none [] = tt
earliest_after-IsFrom turns (some candidate) [] = inl refl
earliest_after-IsFrom turns candidate (entry ∷ matches) =
    by_tests (leb_ℤ entry.turn_seq turns) (is_better entry candidate) candidate
      (λ c. earliest_after-IsFrom turns c matches)
  where
    by_tests :
        (early better : Bool) (candidate : Option HistoryEntry)
        → ((c : Option HistoryEntry) → IsFrom (earliest_after turns c matches) c matches)
        → IsFrom
            (earliest_after turns
              (if early then candidate else if better then some entry else candidate)
              matches)
            candidate
            (entry ∷ matches)
    by_tests true better candidate go =
        keep_candidate (earliest_after turns candidate matches) candidate entry matches
          (go candidate)
    by_tests false true candidate go =
        take_entry (earliest_after turns (some entry) matches) candidate entry matches
          (go (some entry))
    by_tests false false candidate go =
        keep_candidate (earliest_after turns candidate matches) candidate entry matches
          (go candidate)

-- The selected entry is one of the matches.
pub select-IsIn :
    (first : HistoryEntry) (others : List HistoryEntry) (client_turns : Option ℕ)
    → IsIn (select_run_rewind_match first others client_turns).0 (first ∷ others)
unfolding select_run_rewind_match IsFound IsFrom
select-IsIn first others none = earliest-IsIn first others
select-IsIn first others (some turns) =
    by_aligned (first_aligned (pos (turns + 1)) (first ∷ others))
      (first_aligned-IsFound (pos (turns + 1)) (first ∷ others))
  where
    by_after :
        (after : Option HistoryEntry)
        → IsFrom after none (first ∷ others)
        → IsIn
            (let selected : HistoryEntry × Text = elim after [
              | some candidate ↦ (candidate, codes "first_match_after_client_turn_count")
              | none ↦ (earliest first others, codes "earliest_message_id_match")
            ] in
              selected).0
            (first ∷ others)
    by_after (some candidate) h = h
    by_after none h = earliest-IsIn first others

    by_aligned :
        (aligned : Option HistoryEntry)
        → IsFound aligned (first ∷ others)
        → IsIn
            (let selected : HistoryEntry × Text = elim aligned [
              | some entry ↦ (entry, codes "client_turn_count_aligned")
              | none ↦ elim (earliest_after (pos turns) none (first ∷ others)) [
                | some candidate ↦ (candidate, codes "first_match_after_client_turn_count")
                | none ↦ (earliest first others, codes "earliest_message_id_match")
              ]
            ] in
              selected).0
            (first ∷ others)
    by_aligned (some entry) h = h
    by_aligned none h =
        by_after (earliest_after (pos turns) none (first ∷ others))
          (earliest_after-IsFrom (pos turns) none (first ∷ others))
