-- ===== src/Router/Status.antt =====
-- The error that `buildHTTPStatusError` makes, as `isRetryableChannelError` reads it.
use mathlib.Core.List.{append-nil, append_assoc}
use cursor_switch.Common.{
  ℕ, ◌≡◌, ◌≢◌, refl, ◌⊎◌, true, false, Option, none, some, [], ◌∷◌, ◌++◌, arith, ◌≤◌, ◌<◌, ◌^◌, inl,
  inr, ◌↔◌, sym, length,
}
use cursor_switch.Common.Text.{Text, codes, trim_space, strip_prefix, after_first, has_prefix}
use cursor_switch.Common.Decimal.{
  decimal, leading_number, NoDigit, AllDigits, decimal-AllDigits, leading_number-decimal,
  length-decimal-pos,
}
use cursor_switch.Router.Errors.{
  starts_with_digit, with_body, extract_http_status, is_retryable_channel_error, LimitedBody,
  read_body, body_read_error, ErrorResponse, build_status_text, build_http_status_error,
}

-- No byte of the text is x.
abbrev pub Lacks : ℕ → Text → Type 0
Lacks x [] = Unit
Lacks x (a ∷ s) = (a ≢ x) × Lacks x s

-- The text ends with the byte x.
abbrev EndsWith : ℕ → Text → Type 0
EndsWith x [] = ⊥
EndsWith x (a ∷ []) = a ≡ x
EndsWith x (a ∷ b ∷ s) = EndsWith x (b ∷ s)

-- A text that lacks the pattern's last byte, before a byte that the pattern lacks, does not begin
-- with the pattern.
strip_prefix_apart :
    (x y : ℕ) (pattern s rest : Text)
    → Lacks x pattern
    → EndsWith y pattern
    → Lacks y s
    → strip_prefix pattern (s ++ x ∷ rest) ≡ none
unfolding strip_prefix
strip_prefix_apart x y [] s rest apart ends lacks = elim ends [ ]
strip_prefix_apart x y (c ∷ []) [] rest apart ends lacks = ground arith
strip_prefix_apart x y (c ∷ []) (a ∷ s) rest apart ends lacks = ground arith
strip_prefix_apart x y (c ∷ d ∷ pattern) [] rest apart ends lacks = ground arith
strip_prefix_apart x y (c ∷ d ∷ pattern) (a ∷ s) rest apart ends lacks =
    ground (arith, strip_prefix_apart x y (d ∷ pattern) s rest apart.1 ends lacks.1)

after_first-append :
    (x y : ℕ) (pattern s rest : Text)
    → Lacks x pattern
    → EndsWith y pattern
    → Lacks y s
    → after_first pattern (s ++ x ∷ rest) ≡ after_first pattern rest
unfolding after_first
after_first-append x y pattern [] rest apart ends lacks =
    ground (arith, strip_prefix_apart x y pattern [] rest apart ends lacks)
after_first-append x y pattern (a ∷ s) rest apart ends lacks = ground (
  arith,
  strip_prefix_apart x y pattern (a ∷ s) rest apart ends lacks,
  after_first-append x y pattern s rest apart ends lacks.1,
)

-- A number that was printed is not empty, and begins with a digit.
digit_first : (n : ℕ) (s : Text) → starts_with_digit (decimal n ++ s) ≡ true
unfolding starts_with_digit
digit_first n s = by_digits (decimal n) (decimal-AllDigits n) (length-decimal-pos n)
  where
    by_digits : (d : Text) → AllDigits d → 0 < length d → starts_with_digit (d ++ s) ≡ true
    by_digits [] digits pos = absurd (omega arith)
    by_digits (a ∷ d) digits pos = digits.0

found_status :
    (text rest : Text) (status : ℕ)
    → after_first (codes "status=") text ≡ some rest
    → starts_with_digit rest ≡ true
    → leading_number 0 rest ≡ status
    → status < 2 ^ 63
    → extract_http_status text ≡ some status
unfolding extract_http_status
found_status text rest status found digit value small = ground arith

extract_http_status-printed :
    (head tail : Text) (status : ℕ)
    → Lacks b'=' head
    → NoDigit tail
    → status < 2 ^ 63
    → extract_http_status (head ++ (codes " status=" ++ (decimal status ++ tail))) ≡ some status
unfolding extract_http_status after_first strip_prefix
extract_http_status-printed head tail status lacks stop small =
    let found : after_first (codes "status=")
          (head ++ (codes " status=" ++ (decimal status ++ tail)))
        ≡ some (decimal status ++ tail) =
      after_first-append b' ' b'=' (codes "status=") head
        (codes "status=" ++ (decimal status ++ tail)) (ground arith) refl lacks in
    found_status (head ++ (codes " status=" ++ (decimal status ++ tail))) (decimal status ++ tail)
      status found (digit_first status tail) (leading_number-decimal status tail stop) small

with_body-split :
    (head body : Text) → (tail : Text) × (NoDigit tail) × (with_body head body ≡ head ++ tail)
unfolding with_body
with_body-split head [] = ([], tt, sym (append-nil head))
with_body-split head (b ∷ body) =
    (codes " body=" ++ b ∷ body, refl, append_assoc head (codes " body=") (b ∷ body))

build_status_text-split :
    (head : Text) (body : LimitedBody)
    → (tail : Text) × (NoDigit tail) × (build_status_text head body ≡ head ++ tail)
unfolding build_status_text
build_status_text-split head (read_body body) = with_body-split head (trim_space body)
build_status_text-split head (body_read_error err) =
    (codes " body_read_error=" ++ err, refl, append_assoc head (codes " body_read_error=") err)

printed-status :
    (prefix : Text) (resp : ErrorResponse)
    → Lacks b'=' (trim_space prefix)
    → resp.status_code < 2 ^ 63
    → extract_http_status (build_http_status_error prefix (some resp)).text ≡ some resp.status_code
unfolding build_http_status_error
printed-status prefix resp lacks small =
    let head = trim_space prefix in
    let (tail, stop, split) =
      build_status_text-split (head ++ codes " status=" ++ decimal resp.status_code)
        resp.limited_body in
    rw (split, append_assoc, append_assoc)
      (extract_http_status-printed head tail resp.status_code lacks stop small)

-- The prefixes that the adapters give.
abbrev pub IsAdapterPrefix : Text → Type 0
IsAdapterPrefix prefix = (prefix ≡ codes "openai adapter") ⊎ (prefix ≡ codes "anthropic adapter")

first_byte : Text → ℕ
first_byte [] = 0
first_byte (a ∷ s) = a

has_prefix-first_byte :
    (a : ℕ) (pattern s : Text) → first_byte s ≢ a → has_prefix (a ∷ pattern) s ≡ false
unfolding has_prefix strip_prefix first_byte
has_prefix-first_byte a pattern [] h = refl
has_prefix-first_byte a pattern (b ∷ s) h = ground arith

printed-first_byte :
    (prefix : Text) (resp : ErrorResponse)
    → IsAdapterPrefix prefix
    → first_byte (build_http_status_error prefix (some resp)).text ≢ b'p'
unfolding build_http_status_error first_byte trim_space
printed-first_byte prefix resp known =
    let text : Text = trim_space prefix ++ codes " status=" ++ decimal resp.status_code in
    let (tail, stop, split) = build_status_text-split text resp.limited_body in
    elim known [
      | inl openai ↦ rw (split, openai) (ground arith)
      | inr anthropic ↦ rw (split, anthropic) (ground arith)
    ]

prefix-Lacks : (prefix : Text) → IsAdapterPrefix prefix → Lacks b'=' (trim_space prefix)
unfolding trim_space
prefix-Lacks prefix (inl openai) = rw openai (ground arith)
prefix-Lacks prefix (inr anthropic) = rw anthropic (ground arith)

abbrev pub IsRetryableStatus : ℕ → Type 0
IsRetryableStatus status =
    (status ≡ 401) ⊎ (status ≡ 403) ⊎ (status ≡ 404) ⊎ (status ≡ 429) ⊎ (500 ≤ status)

-- No response, or the statuses from which the router may go on to another channel.
abbrev pub MaySwitch : Option ErrorResponse → Type 0
MaySwitch none = ⊥
MaySwitch (some resp) = IsRetryableStatus resp.status_code

abbrev pub HasStatus : Option ErrorResponse → Type 0
HasStatus none = Unit
HasStatus (some resp) = resp.status_code < 2 ^ 63

nil-not_retryable :
    (prefix : Text)
    → IsAdapterPrefix prefix
    → is_retryable_channel_error (build_http_status_error prefix none) ≡ false
unfolding is_retryable_channel_error build_http_status_error extract_http_status trim_space
    after_first has_prefix strip_prefix
nil-not_retryable prefix (inl openai) = rw openai refl
nil-not_retryable prefix (inr anthropic) = rw anthropic refl

-- The error that an adapter makes of a response lets the router switch channels exactly for the
-- statuses 401, 403, 404, 429 and those from 500 on, whether the response's body was read or not, and
-- whatever the body or the error of reading it says; without a response the error never does. The
-- status code is an int of at least 0.
pub retryable-printed :
    (prefix : Text) (resp : Option ErrorResponse)
    → IsAdapterPrefix prefix
    → HasStatus resp
    → (is_retryable_channel_error (build_http_status_error prefix resp) ≡ true) ↔ MaySwitch resp
unfolding is_retryable_channel_error
retryable-printed prefix none known small = ground (arith, nil-not_retryable prefix known)
retryable-printed prefix (some resp) known small =
    let err = build_http_status_error prefix (some resp) in
    let first = printed-first_byte prefix resp known in
    let plain : err.url_error ≡ false = unfold build_http_status_error in refl in
    ground (
      arith,
      has_prefix-first_byte b'p' (codes "rovider stream idle timeout after ") err.text first,
      has_prefix-first_byte b'p' (codes "rovider stream truncated: ") err.text first,
      has_prefix-first_byte b'p' (codes "rovider stream budget exceeded: ") err.text first,
      printed-status prefix resp (prefix-Lacks prefix known) small,
      plain,
    )
