-- ===== src/Broker/Capped.antt =====
-- What the bound on the backlog keeps.
use mathlib.Core.List.{Sublist}
use mathlib.Core.List.Sublist
use cursor_switch.Common.{
  ℕ, zero, suc, ◌+◌, ◌-◌, ◌≤◌, ◌<◌, ◌≡◌, refl, ◌∙◌, ◌⊎◌, inl, inr, Bool, true, false, List, [], ◌∷◌,
  ◌++◌, arith, ltb, if◌then◌else◌, length, drop, length-drop, lt→ltb, Bool-cases,
}
use cursor_switch.Broker.Stream.{StreamEvent, ActiveStream}
use cursor_switch.Broker.Backlog.{drop_oldest, capped, published}

le_cases : (a b : ℕ) → (a ≤ b) ⊎ (b < a)
le_cases a b = ground arith

module _ {M : Type 0} where
  -- The events that end the stream, and the others.
  abbrev pub endings : List (StreamEvent M) → List (StreamEvent M)
  endings [] = []
  endings (e ∷ es) = if e.ends then e ∷ endings es else endings es

  abbrev pub others : List (StreamEvent M) → List (StreamEvent M)
  others [] = []
  others (e ∷ es) = if e.ends then others es else e ∷ others es

  pub length_split :
      (es : List (StreamEvent M)) → length (endings es) + length (others es) ≡ length es
  length_split [] = refl
  length_split (e ∷ es) = ground (arith, length_split es)

  pub endings-append :
      (es fs : List (StreamEvent M)) → endings (es ++ fs) ≡ endings es ++ endings fs
  endings-append [] fs = refl
  endings-append (e ∷ es) fs = ground (arith, endings-append es fs)

  pub endings-drop_oldest :
      (n : ℕ) (es : List (StreamEvent M)) → endings (drop_oldest n es) ≡ endings es
  unfolding drop_oldest
  endings-drop_oldest zero es = refl
  endings-drop_oldest (suc n) [] = refl
  endings-drop_oldest (suc n) (e ∷ es) =
      ground (arith, endings-drop_oldest (suc n) es, endings-drop_oldest n es)

  others-drop_oldest :
      (n : ℕ) (es : List (StreamEvent M)) → others (drop_oldest n es) ≡ drop n (others es)
  unfolding drop_oldest
  others-drop_oldest zero es = refl
  others-drop_oldest (suc n) [] = refl
  others-drop_oldest (suc n) (e ∷ es) =
      ground (arith, others-drop_oldest (suc n) es, others-drop_oldest n es)

  drop_oldest-Sublist : (n : ℕ) (es : List (StreamEvent M)) → Sublist (drop_oldest n es) es
  unfolding drop_oldest
  drop_oldest-Sublist zero es = Sublist.refl es
  drop_oldest-Sublist (suc n) [] = Sublist.refl []
  drop_oldest-Sublist (suc n) (e ∷ es) =
      by_end e.ends (drop_oldest-Sublist (suc n) es) (drop_oldest-Sublist n es)
    where
      by_end :
          (ends : Bool)
          → Sublist (drop_oldest (suc n) es) es
          → Sublist (drop_oldest n es) es
          → Sublist (if ends then e ∷ drop_oldest (suc n) es else drop_oldest n es) (e ∷ es)
      by_end true kept dropped = Sublist.cons-cons e kept
      by_end false kept dropped = Sublist.cons e dropped

  -- What a bound leaves of a backlog.
  abbrev IsKept : ℕ → List (StreamEvent M) → List (StreamEvent M) → Type 0
  IsKept cap before after =
      Sublist after before
      × (endings after ≡ endings before)
      × (others after ≡ drop (length before - cap) (others before))
      × ((length after ≤ cap) ⊎ (others after ≡ []))

  pub length-drop_oldest :
      (n : ℕ) (es : List (StreamEvent M))
      → length (drop_oldest n es) ≡ length (endings es) + (length (others es) - n)
  length-drop_oldest n es = ground (
    arith,
    length_split (drop_oldest n es),
    endings-drop_oldest n es,
    others-drop_oldest n es,
    length-drop n (others es),
  )

  pub drop_all : (n : ℕ) (es : List (StreamEvent M)) → length es ≤ n → drop n es ≡ []
  drop_all zero [] h = refl
  drop_all zero (e ∷ es) h = absurd (omega arith)
  drop_all (suc n) [] h = refl
  drop_all (suc n) (e ∷ es) h = drop_all n es (omega arith)

  within :
      (es : List (StreamEvent M)) {cap : ℕ}
      → length es ≤ cap
      → others es ≡ drop (length es - cap) (others es)
  within es {cap} h = let none_over : length es - cap ≡ 0 = omega arith in rw none_over refl

  over_bound :
      (cap : ℕ) (es : List (StreamEvent M))
      → let after = drop_oldest (length es - cap) es in (length after ≤ cap) ⊎ (others after ≡ [])
  over_bound cap es = elim (le_cases (length (others es)) (length es - cap)) [
    | inl all ↦
        inr (others-drop_oldest (length es - cap) es ∙ drop_all (length es - cap) (others es) all)
    | inr some_left ↦ inl (omega (arith, length-drop_oldest (length es - cap) es, length_split es))
  ]

  capped-IsKept : (cap : ℕ) (es : List (StreamEvent M)) → 0 < cap → IsKept cap es (capped cap es)
  unfolding capped
  capped-IsKept cap es pos = elim (Bool-cases (ltb cap (length es))) [
    | inr fits ↦
        rw (lt→ltb 0 cap pos, fits)
          (Sublist.refl es, refl, within es (ground arith), inl (ground arith))
    | inl over ↦
        rw (lt→ltb 0 cap pos, over)
          (
            drop_oldest-Sublist (length es - cap) es,
            endings-drop_oldest (length es - cap) es,
            others-drop_oldest (length es - cap) es,
            over_bound cap es,
          )
  ]

  -- When a backlog takes an event beyond its bound, what it keeps is in the same order; it keeps every
  -- event that ends the stream, and of the others it drops the oldest, as many as there are too many;
  -- so it is within its bound, or holds nothing but events that end the stream.
  pub published-IsKept :
      (cap now : ℕ) (event : StreamEvent M) (stream : ActiveStream M)
      → 0 < cap
      → IsKept cap (stream.backlog ++ event ∷ []) (published cap event now stream).backlog
  unfolding published
  published-IsKept cap now event stream pos = capped-IsKept cap (stream.backlog ++ event ∷ []) pos
