-- ===== src/Storage/Decimal.antt =====
-- `strconv.Itoa` and `strconv.Atoi`, as fmtp_log/fmtp_logger_message.go uses them: an error of Atoi is
-- `none`, and an integer is not bounded.
use fmtp.Prelude.{
  ℕ, zero, suc, ◌+◌, ◌-◌, ◌*◌, ◌/◌, ◌%◌, ◌≤◌, ◌<◌, ◌≡◌, ◌≢◌, refl, ap, ◌∙◌, Bool, false, ◌&&◌,
  Option, none, some, [], ◌∷◌, ◌++◌, Bytes, ltb, leb, ◌==◌, nat_eq, if◌then◌else◌, ℤ, pos, negsuc,
  arith, All, All-append, All-map, Bool-cases, inl, inr,
}

digits : ℕ → ℕ → Bytes
digits zero n = []
digits (suc fuel) n =
    let front = digits fuel (n / 10) in
    if ltb n 10 then (b'0' + n) ∷ [] else front ++ (b'0' + n % 10) ∷ []

unfoldable pub itoa : ℤ → Bytes
unfolding digits
itoa (pos n) = digits (suc n) n
itoa (negsuc n) = b'-' ∷ digits (suc (suc n)) (suc n)

is_digit : ℕ → Bool
is_digit c = leb b'0' c && leb c b'9'

scan : Bytes → ℕ → Option ℕ
unfolding is_digit
scan [] n = some n
scan (c ∷ s) n = if is_digit c then scan s (n * 10 + (c - b'0')) else none

unsigned : Bytes → Option ℕ
unfolding scan
unsigned [] = none
unsigned (c ∷ s) = scan (c ∷ s) 0

opposite : ℕ → ℤ
opposite zero = pos 0
opposite (suc n) = negsuc n

signed : (ℕ → ℤ) → Option ℕ → Option ℤ
signed sign none = none
signed sign (some n) = some (sign n)

unfoldable pub atoi : Bytes → Option ℤ
unfolding unsigned signed opposite
atoi [] = none
atoi (c ∷ s) =
    if c == b'-'
    then signed opposite (unsigned s)
    else if c == b'+'
    then signed pos (unsigned s)
    else signed pos (unsigned (c ∷ s))

abbrev pub IsDigit : ℕ → Type 0
IsDigit c = (b'0' ≤ c) × (c ≤ b'9')

digits-IsDigit : (fuel n : ℕ) → All IsDigit (digits fuel n)
unfolding digits
digits-IsDigit zero n = tt
digits-IsDigit (suc fuel) n = elim (Bool-cases (ltb n 10)) [
  | inl small ↦ rw small ((omega arith, ground (arith, small)), tt)
  | inr large ↦ rw large (
      All-append IsDigit (digits fuel (n / 10)) ((b'0' + n % 10) ∷ [])
        (digits-IsDigit fuel (n / 10)) ((omega arith, omega arith), tt))
]

scan-last :
    (xs : Bytes) (n m c : ℕ)
    → IsDigit c
    → scan xs n ≡ some m
    → scan (xs ++ c ∷ []) n ≡ some (m * 10 + (c - b'0'))
unfolding scan is_digit
scan-last [] n m c digit e = ground arith
scan-last (x ∷ xs) n m c digit e = ground (arith, scan-last xs (n * 10 + (x - b'0')) m c digit)

scan-digits : (fuel n : ℕ) → n < fuel → scan (digits fuel n) 0 ≡ some n
unfolding digits scan is_digit
scan-digits zero n h = absurd (omega arith)
scan-digits (suc fuel) n h = elim (Bool-cases (ltb n 10)) [
  | inl small ↦ rw small (ground (arith, small))
  | inr large ↦
      let under : n / 10 < fuel = ground (arith, large) in
      rw large (
        scan-last (digits fuel (n / 10)) 0 (n / 10) (b'0' + n % 10) (omega arith, omega arith)
          (scan-digits fuel (n / 10) under)
        ∙ ap some (omega arith))
]

unsigned-scan : (s : Bytes) (n : ℕ) → s ≢ [] → scan s 0 ≡ some n → unsigned s ≡ some n
unfolding unsigned
unsigned-scan [] n some_text e = absurd (some_text refl)
unsigned-scan (c ∷ s) n some_text e = e

atoi-unsigned : (s : Bytes) (n : ℕ) → All IsDigit s → unsigned s ≡ some n → atoi s ≡ some (pos n)
unfolding atoi unsigned signed
atoi-unsigned [] n digit e = cc
atoi-unsigned (c ∷ s) n (digit, rest) e = rw (not_minus c digit, not_plus c digit, e) refl
  where
    not_minus : (c : ℕ) → IsDigit c → (c == b'-') ≡ false
    not_minus c digit = ground arith

    not_plus : (c : ℕ) → IsDigit c → (c == b'+') ≡ false
    not_plus c digit = ground arith

append-ne-nil : (xs : Bytes) (c : ℕ) → xs ++ c ∷ [] ≢ []
append-ne-nil [] c = cc
append-ne-nil (x ∷ xs) c = cc

digits-ne-nil : (fuel n : ℕ) → digits (suc fuel) n ≢ []
unfolding digits
digits-ne-nil fuel n = elim (Bool-cases (ltb n 10)) [
  | inl small ↦ rw small cc
  | inr large ↦ rw large (append-ne-nil (digits fuel (n / 10)) (b'0' + n % 10))
]

unsigned-digits : (n : ℕ) → unsigned (digits (suc n) n) ≡ some n
unsigned-digits n =
    unsigned-scan (digits (suc n) n) n (digits-ne-nil n n) (scan-digits (suc n) n (omega arith))

-- An integer is read back from its decimal text.
pub atoi-itoa : (n : ℤ) → atoi (itoa n) ≡ some n
unfolding itoa
atoi-itoa (pos n) =
    atoi-unsigned (digits (suc n) n) n (digits-IsDigit (suc n) n) (unsigned-digits n)
atoi-itoa (negsuc n) = unfold atoi signed opposite in rw (unsigned-digits (suc n)) refl

abbrev pub IsSigned : ℕ → Type 0
IsSigned c = (b'-' ≤ c) × (c ≤ b'9')

digit-IsSigned : (c : ℕ) → IsDigit c → IsSigned c
digit-IsSigned c h = (omega (arith, h), omega (arith, h))

-- The decimal text of an integer is made of digits and a minus.
pub itoa-IsSigned : (n : ℤ) → All IsSigned (itoa n)
unfolding itoa
itoa-IsSigned (pos n) = All-map digit-IsSigned (digits (suc n) n) (digits-IsDigit (suc n) n)
itoa-IsSigned (negsuc n) = (
  (omega arith, omega arith),
  All-map digit-IsSigned (digits (suc (suc n)) (suc n)) (digits-IsDigit (suc (suc n)) (suc n)),
)
