-- ===== src/Common/Decimal.antt =====
-- Decimal numerals: what `%d` prints, and the digits that the parsers read.
use Prim.Native.Nat.{ℕ, zero, suc, ◌+◌, ◌-◌, ◌*◌, ◌/◌, ◌%◌, ◌≤◌, ◌<◌}
use mathlib.Core.Path.{◌≡◌, refl, ◌∙◌}
use mathlib.Core.Bool.{Bool, true, false, ◌&&◌}
use mathlib.Core.List.{[], ◌∷◌, ◌++◌}
use mathlib.Core.Logic.{inl, inr}
use native.Mathlib.Omega.{arith}
use cursor_switch.Common.Tests.{ltb, leb, if◌then◌else◌, Bool-cases}
use cursor_switch.Common.Lists.{length, length-append}
use cursor_switch.Common.Text.{Text}

abbrev pub is_digit : ℕ → Bool
is_digit a = leb 48 a && leb a 57

-- The fuel bounds the number of digits.
digits : ℕ → ℕ → Text
digits zero n = []
digits (suc f) n =
    let high = digits f (n / 10) in if ltb n 10 then (48 + n) ∷ [] else high ++ (48 + n % 10) ∷ []

unfoldable pub decimal : ℕ → Text
unfolding digits
decimal n = digits (suc n) n

-- The number that the digits at the front of a text spell, after the value v of those before.
unfoldable pub leading_number : ℕ → Text → ℕ
leading_number v [] = v
leading_number v (a ∷ s) = if is_digit a then leading_number (v * 10 + (a - 48)) s else v

-- The text does not go on with a digit.
abbrev pub NoDigit : Text → Type 0
NoDigit [] = Unit {0}
NoDigit (a ∷ s) = is_digit a ≡ false

abbrev pub AllDigits : Text → Type 0
AllDigits [] = Unit {0}
AllDigits (a ∷ s) = (is_digit a ≡ true) × AllDigits s

AllDigits-append : (s t : Text) → AllDigits s → AllDigits t → AllDigits (s ++ t)
AllDigits-append [] t hs ht = ht
AllDigits-append (a ∷ s) t hs ht = (hs.0, AllDigits-append s t hs.1 ht)

leading_number-append :
    (v : ℕ) (s t : Text)
    → AllDigits s
    → leading_number v (s ++ t) ≡ leading_number (leading_number v s) t
unfolding leading_number
leading_number-append v [] t h = refl
leading_number-append v (a ∷ s) t h =
    ground (arith, leading_number-append (v * 10 + (a - 48)) s t h.1)

leading_number_stop : (v : ℕ) (s : Text) → NoDigit s → leading_number v s ≡ v
unfolding leading_number
leading_number_stop v [] h = refl
leading_number_stop v (a ∷ s) h = ground arith

digits-AllDigits : (f n : ℕ) → AllDigits (digits f n)
unfolding digits
digits-AllDigits zero n = tt
digits-AllDigits (suc f) n = elim (Bool-cases (ltb n 10)) [
  | inl small ↦ rw small (ground arith, tt)
  | inr large ↦ rw large (
      AllDigits-append (digits f (n / 10)) ((48 + n % 10) ∷ []) (digits-AllDigits f (n / 10))
        (ground arith, tt))
]

leading_number-digits : (f n : ℕ) → n < f → leading_number 0 (digits f n) ≡ n
unfolding digits leading_number
leading_number-digits zero n h = elim h [ ]
leading_number-digits (suc f) n h = ground (
  arith,
  leading_number-append 0 (digits f (n / 10)) ((48 + n % 10) ∷ []) (digits-AllDigits f (n / 10)),
  leading_number-digits f (n / 10),
)

pub decimal-AllDigits : (n : ℕ) → AllDigits (decimal n)
unfolding decimal
decimal-AllDigits n = digits-AllDigits (suc n) n

-- Reading back a printed number that no digit follows.
pub leading_number-decimal : (n : ℕ) (s : Text) → NoDigit s → leading_number 0 (decimal n ++ s) ≡ n
unfolding decimal
leading_number-decimal n s h =
    leading_number-append 0 (decimal n) s (decimal-AllDigits n)
    ∙ leading_number_stop (leading_number 0 (decimal n)) s h
    ∙ leading_number-digits (suc n) n (omega arith)

digits_mono : (f g n m : ℕ) → n < f → m < g → n ≤ m → length (digits f n) ≤ length (digits g m)
unfolding digits
digits_mono zero g n m hn hm h = elim hn [ ]
digits_mono (suc f) zero n m hn hm h = elim hm [ ]
digits_mono (suc f) (suc g) n m hn hm h = ground (
  arith,
  digits_mono f g (n / 10) (m / 10),
  length-append (digits f (n / 10)) ((48 + n % 10) ∷ []),
  length-append (digits g (m / 10)) ((48 + m % 10) ∷ []),
)

-- A smaller number prints no longer.
pub length-decimal_mono : (n m : ℕ) → n ≤ m → length (decimal n) ≤ length (decimal m)
unfolding decimal
length-decimal_mono n m h = digits_mono (suc n) (suc m) n m (omega arith) (omega arith) h

pub length-decimal-pos : (n : ℕ) → 0 < length (decimal n)
unfolding decimal
length-decimal-pos n = ground (arith, length-append (digits n (n / 10)) ((48 + n % 10) ∷ []))
