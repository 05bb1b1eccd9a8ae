-- ===== src/Signature/Pieces.antt =====
-- The texts that a signature's header of ironflow/signature.go is made of: no comma and no space in
-- them, decimals and hexadecimals that are read back.
use ironflow_go.Prelude.{
  ℕ, ◌+◌, ◌-◌, ◌*◌, ◌/◌, ◌%◌, ◌<◌, ◌≡◌, ◌≢◌, refl, ap, ◌∙◌, Option, some, [], ◌∷◌, ◌++◌, Text, true,
  false, ◌==◌, ◌&&◌, ltb, leb, All, arith, reverse, pos, Bool-cases, inl, inr,
}
use mathlib.Core.List.{reverse-cons, reverse-reverse}
use ironflow_go.StepId.{itoa}
use ironflow_go.StepId.Decimal.{IsDigit, itoa_digits, value, value-itoa, itoa-ne-nil}
use ironflow_go.Signature.{
  split_on, onto_first, is_space, trim_left, trim_space, parse_digits, parse_nat, with_sign,
  parse_int, two_63, hex_digit, hex_encode, hex_value, join_byte, hex_decode,
}

-- Printed ASCII but the comma, the least of what a header's values have.
abbrev pub IsPlain : ℕ → Type 0
IsPlain c = 44 < c

abbrev pub IsByte : ℕ → Type 0
IsByte b = b < 256

pub split_on-plain : (s : Text) → All IsPlain s → split_on 44 s ≡ s ∷ []
unfolding split_on
split_on-plain [] plain = refl
split_on-plain (x ∷ s) (p, plain) =
    let other : (x == 44) ≡ false = ground arith in
    rw (other, split_on) (ap (onto_first x) (split_on-plain s plain))

pub split_on-comma :
    (s rest : Text) → All IsPlain s → split_on 44 (s ++ 44 ∷ rest) ≡ s ∷ split_on 44 rest
unfolding split_on
split_on-comma [] rest plain = refl
split_on-comma (x ∷ s) rest (p, plain) =
    let other : (x == 44) ≡ false = ground arith in
    rw (other, split_on) (ap (onto_first x) (split_on-comma s rest plain))

pub All-append : (s t : Text) → All IsPlain s → All IsPlain t → All IsPlain (s ++ t)
All-append [] t p q = q
All-append (x ∷ s) t (h, p) q = (h, All-append s t p q)

pub digit-IsPlain : (s : Text) → All IsDigit s → All IsPlain s
digit-IsPlain [] d = tt
digit-IsPlain (c ∷ s) ((low, high), d) = (omega arith, digit-IsPlain s d)

pub hex-IsPlain : (s : Text) → All IsByte s → All IsPlain (hex_encode s)
unfolding hex_encode
hex-IsPlain [] d = tt
hex-IsPlain (b ∷ s) (byte, d) = (ground arith, (ground arith, hex-IsPlain s d))

trim_left-plain : (s : Text) → All IsPlain s → trim_left s ≡ s
unfolding trim_left
trim_left-plain [] plain = refl
trim_left-plain (x ∷ s) (p, plain) =
    let other : is_space x ≡ false = ground arith in rw (other, trim_left) refl

All-reverse : (s : Text) → All IsPlain s → All IsPlain (reverse s)
All-reverse [] p = tt
All-reverse (x ∷ s) (h, p) =
    rw (reverse-cons x s) (All-append (reverse s) (x ∷ []) (All-reverse s p) (h, tt))

pub trim_space-plain : (s : Text) → All IsPlain s → trim_space s ≡ s
unfolding trim_space
trim_space-plain s plain =
    ap (λ t. reverse (trim_left (reverse t))) (trim_left-plain s plain)
    ∙ ap reverse (trim_left-plain (reverse s) (All-reverse s plain))
    ∙ reverse-reverse s

parse_digits-value : (acc : ℕ) (s : Text) → All IsDigit s → parse_digits acc s ≡ some (value acc s)
unfolding parse_digits value
parse_digits-value acc [] d = refl
parse_digits-value acc (c ∷ s) ((low, high), d) =
    let digit : (leb 48 c && ltb c 58) ≡ true = ground arith in
    rw (digit, parse_digits) (parse_digits-value (acc * 10 + (c - 48)) s d)

parse_nat-digits : (s : Text) → s ≢ [] → All IsDigit s → parse_nat s ≡ some (value 0 s)
parse_nat-digits [] ne d = absurd (ne refl)
parse_nat-digits (c ∷ s) ne d = parse_digits-value 0 (c ∷ s) d

hex_value-hex_digit : (n : ℕ) → n < 16 → hex_value (hex_digit n) ≡ some n
hex_value-hex_digit n low = elim (Bool-cases (ltb n 10)) [
  | inl digit ↦ rw (digit) (ground (arith))
  | inr letter ↦ rw (letter) (ground (arith))
]

join_byte_same :
    {a a' b b' : Option ℕ} {s s' : Option Text}
    → a ≡ a'
    → b ≡ b'
    → s ≡ s'
    → join_byte a b s ≡ join_byte a' b' s'
join_byte_same p q r = cc

pub hex_decode-hex_encode : (s : Text) → All IsByte s → hex_decode (hex_encode s) ≡ some s
unfolding hex_encode hex_decode
hex_decode-hex_encode [] bytes = refl
hex_decode-hex_encode (b ∷ s) (byte, bytes) =
    join_byte_same (hex_value-hex_digit (b / 16) (omega (arith, byte)))
      (hex_value-hex_digit (b % 16) (omega arith)) (hex_decode-hex_encode s bytes)
    ∙ ap (λ n. some (n ∷ s)) {x = b / 16 * 16 + b % 16} {y = b} (omega arith)

pub parse_nat-itoa : (n : ℕ) → parse_nat (itoa n) ≡ some n
parse_nat-itoa n =
    parse_nat-digits (itoa n) (itoa-ne-nil n) (itoa_digits n) ∙ ap some (value-itoa n)

abbrev ParsesDigits : Text → ℕ → Type 0
ParsesDigits s n = parse_nat s ≡ some n → n < two_63 → parse_int s ≡ some (pos n)

parse_int-digits : (s : Text) (n : ℕ) → s ≢ [] → All IsDigit s → ParsesDigits s n
unfolding parse_int
parse_int-digits [] n ne d reads low = absurd (ne refl)
parse_int-digits (c ∷ s) n ne ((above, below), d) reads low =
    let no_minus : (c == 45) ≡ false = ground arith in
    let no_plus : (c == 43) ≡ false = ground arith in
    let fits : ltb n two_63 ≡ true = ground arith in
    rw (no_minus, no_plus, parse_int) (ap (with_sign false) reads ∙ rw (fits) refl)

pub parse_int-itoa : (n : ℕ) → n < two_63 → parse_int (itoa n) ≡ some (pos n)
parse_int-itoa n low =
    parse_int-digits (itoa n) n (itoa-ne-nil n) (itoa_digits n) (parse_nat-itoa n) low
