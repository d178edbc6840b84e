-- ===== src/Messages/Merging.antt =====
-- The merge of adjacent assistant messages that call tools.
use mathlib.Core.List.{reverse-cons, append_assoc, append-nil, map-append, reverse_aux}
use cursor_switch.Common.{
  ◌≡◌, refl, ◌∙◌, inl, inr, true, false, List, [], ◌∷◌, ◌++◌, arith, length, Bool-cases, reverse,
}
use cursor_switch.Common.Text.{Text}
use cursor_switch.Messages.Types.{Message}
use cursor_switch.Messages.Merge.{
  reindex, has_role, merge_metadata, merge_calls, can_merge, merge_onto, merge_loop, merge_adjacent,
}
use cursor_switch.Messages.Sanitize.{call_ids}
use cursor_switch.Messages.Groups.{call_ids-reindex}

-- The ids of all calls, in order.
abbrev pub all_call_ids : List Message → List Text
all_call_ids [] = []
all_call_ids (message ∷ input) = call_ids message.tool_calls ++ all_call_ids input

all_call_ids-append :
    (xs ys : List Message) → all_call_ids (xs ++ ys) ≡ all_call_ids xs ++ all_call_ids ys
all_call_ids-append [] ys = refl
all_call_ids-append (m ∷ xs) ys = rw (all_call_ids-append xs ys, append_assoc)

tool_calls-merge_calls :
    (last m : Message)
    → (merge_calls last m).tool_calls
      ≡ last.tool_calls ++ reindex (length last.tool_calls) m.tool_calls
unfolding merge_calls merge_metadata
tool_calls-merge_calls last m = ground arith

call_ids-merge_calls :
    (last m : Message)
    → call_ids (merge_calls last m).tool_calls ≡ call_ids last.tool_calls ++ call_ids m.tool_calls
call_ids-merge_calls last m = rw (
  tool_calls-merge_calls last m,
  map-append,
  call_ids-reindex (length last.tool_calls) m.tool_calls,
)

all_call_ids-merge_onto :
    (merged : List Message) (m : Message)
    → all_call_ids (reverse (merge_onto merged m))
      ≡ all_call_ids (reverse merged) ++ call_ids m.tool_calls
unfolding merge_onto
all_call_ids-merge_onto [] m = append-nil _
all_call_ids-merge_onto (last ∷ merged) m = elim (Bool-cases (can_merge last m)) [
  | inl merges ↦ rw merges (
      simp
        (reverse-cons, all_call_ids-append, append-nil, append_assoc, call_ids-merge_calls last m))
  | inr apart ↦ rw apart (simp (reverse-cons, all_call_ids-append, append-nil, append_assoc))
]

all_call_ids-merge_loop :
    (merged input : List Message)
    → all_call_ids (merge_loop merged input) ≡ all_call_ids (reverse merged) ++ all_call_ids input
unfolding merge_loop
all_call_ids-merge_loop merged [] = rw append-nil
all_call_ids-merge_loop merged (m ∷ input) = rw (
  all_call_ids-merge_loop (merge_onto merged m) input,
  all_call_ids-merge_onto merged m,
  append_assoc,
)

-- No two neighbours could still be merged.
abbrev pub NoneMerge : List Message → Type 0
NoneMerge [] = Unit {0}
NoneMerge (a ∷ []) = Unit {0}
NoneMerge (a ∷ b ∷ rest) = (can_merge a b ≡ false) × NoneMerge (b ∷ rest)

-- The same of a list in reverse order.
abbrev NoneMergeBack : List Message → Type 0
NoneMergeBack [] = Unit {0}
NoneMergeBack (b ∷ []) = Unit {0}
NoneMergeBack (b ∷ a ∷ rest) = (can_merge a b ≡ false) × NoneMergeBack (a ∷ rest)

others-merge_calls :
    (last m : Message)
    → let merged = merge_calls last m in
      (merged.role ≡ last.role)
      × (merged.tool_call_id ≡ last.tool_call_id)
      × (merged.name ≡ last.name)
      × (merged.content ≡ last.content)
      × (merged.content_parts ≡ last.content_parts)
unfolding merge_calls merge_metadata
others-merge_calls last m = ground arith

can_merge-merge_calls :
    (a last m : Message)
    → can_merge last m ≡ true
    → can_merge a (merge_calls last m) ≡ can_merge a last
unfolding can_merge has_role
can_merge-merge_calls a last m h =
    ground (arith, others-merge_calls last m, tool_calls-merge_calls last m)

merge_onto-NoneMerge :
    (merged : List Message) (m : Message)
    → NoneMergeBack merged
    → NoneMergeBack (merge_onto merged m)
unfolding merge_onto
merge_onto-NoneMerge [] m h = tt
merge_onto-NoneMerge (last ∷ []) m h = elim (Bool-cases (can_merge last m)) [
  | inl merges ↦ rw merges tt
  | inr apart ↦ rw apart (apart, tt)
]
merge_onto-NoneMerge (last ∷ a ∷ merged) m h = elim (Bool-cases (can_merge last m)) [
  | inl merges ↦ rw merges (can_merge-merge_calls a last m merges ∙ h.0, h.1)
  | inr apart ↦ rw apart (apart, h)
]

reverse-NoneMerge :
    (b : Message) (backwards rest : List Message)
    → NoneMergeBack (b ∷ backwards)
    → NoneMerge (b ∷ rest)
    → NoneMerge (reverse_aux (b ∷ backwards) rest)
reverse-NoneMerge b [] rest h n = n
reverse-NoneMerge b (a ∷ backwards) rest h n = reverse-NoneMerge a backwards (b ∷ rest) h.1 (h.0, n)

merge_loop-NoneMerge :
    (merged input : List Message) → NoneMergeBack merged → NoneMerge (merge_loop merged input)
unfolding merge_loop
merge_loop-NoneMerge [] [] h = tt
merge_loop-NoneMerge (last ∷ merged) [] h = reverse-NoneMerge last merged [] h tt
merge_loop-NoneMerge merged (m ∷ input) h =
    merge_loop-NoneMerge (merge_onto merged m) input (merge_onto-NoneMerge merged m h)

-- The merge keeps the ids of all tool calls in their order, and leaves no two neighbours that could
-- still be merged.
pub merge_adjacent_lem :
    (input : List Message)
    → (all_call_ids (merge_adjacent input) ≡ all_call_ids input) × NoneMerge (merge_adjacent input)
unfolding merge_adjacent
merge_adjacent_lem input = (all_call_ids-merge_loop [] input, merge_loop-NoneMerge [] input tt)
