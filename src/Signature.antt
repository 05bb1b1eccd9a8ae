-- ===== src/Signature.antt =====
-- ironflow/signature.go: the header of a signed request. A text is its bytes; HMAC-SHA256 is a
-- parameter, `hmac secret message`. Spaces are those of ASCII, to which a header is limited.
pub mod Pieces
pub mod RoundTrip
pub mod Sound
use ironflow_go.Prelude.{
  ℕ, zero, suc, ◌+◌, ◌-◌, ◌*◌, ◌/◌, ◌%◌, ◌^◌, Option, none, some, List, [], ◌∷◌, ◌++◌, Text, codes,
  Bool, true, false, ◌==◌, ◌&&◌, ◌||◌, ltb, leb, if◌then◌else◌, ℤ, pos, negsuc, is_zero, lookup,
  insert, text_eq, reverse,
}
use ironflow_go.StepId.{itoa}

-- `strings.Split` by one byte.
abbrev pub onto_first : ℕ → List Text → List Text
onto_first x [] = (x ∷ []) ∷ []
onto_first x (part ∷ parts) = (x ∷ part) ∷ parts

unfoldable pub split_on : ℕ → Text → List Text
split_on c [] = [] ∷ []
split_on c (x ∷ s) = let rest = split_on c s in if x == c then [] ∷ rest else onto_first x rest

-- `strings.SplitN(s, c, 2)`, where it has two parts.
abbrev pub with_key : ℕ → Option (Text × Text) → Option (Text × Text)
with_key x none = none
with_key x (some (key, rest)) = some (x ∷ key, rest)

unfoldable pub split_once : ℕ → Text → Option (Text × Text)
split_once c [] = none
split_once c (x ∷ s) = let rest = split_once c s in if x == c then some ([], s) else with_key x rest

-- `strings.TrimSpace`
abbrev pub is_space : ℕ → Bool
is_space c = c == 32 || (leb 9 c && leb c 13)

unfoldable pub trim_left : Text → Text
trim_left [] = []
trim_left (x ∷ s) = let rest = trim_left s in if is_space x then rest else x ∷ s

unfoldable pub trim_space : Text → Text
unfolding trim_left
trim_space s = reverse (trim_left (reverse (trim_left s)))

-- `strconv.ParseInt(s, 10, 64)`
unfoldable pub parse_digits : ℕ → Text → Option ℕ
parse_digits acc [] = some acc
parse_digits acc (c ∷ s) =
    let rest = parse_digits (acc * 10 + (c - 48)) s in if leb 48 c && ltb c 58 then rest else none

abbrev pub parse_nat : Text → Option ℕ
parse_nat [] = none
parse_nat (c ∷ s) = parse_digits 0 (c ∷ s)

abbrev pub two_63 : ℕ
two_63 = 9223372036854775808

abbrev pub in_range : (is_negative : Bool) → ℕ → Option ℤ
in_range false n = if ltb n two_63 then some (pos n) else none
in_range true zero = some (pos 0)
in_range true (suc n) = if ltb n two_63 then some (negsuc n) else none

abbrev pub with_sign : (is_negative : Bool) → Option ℕ → Option ℤ
with_sign is_negative none = none
with_sign is_negative (some n) = in_range is_negative n

unfoldable pub parse_int : Text → Option ℤ
unfolding parse_digits
parse_int [] = none
parse_int (c ∷ s) =
    if c == 45
    then with_sign true (parse_nat s)
    else (if c == 43 then with_sign false (parse_nat s) else with_sign false (parse_nat (c ∷ s)))

-- `%d`
abbrev pub format_int : ℤ → Text
format_int (pos n) = itoa n
format_int (negsuc n) = 45 ∷ itoa (suc n)

pub data SignatureError : Type 0 where
  missing_signature : SignatureError
  missing_secret : SignatureError
  invalid_timestamp : SignatureError
  missing_timestamp : SignatureError
  signature_expired : SignatureError
  missing_v1 : SignatureError
  invalid_signature : SignatureError

pub record SignatureParams : Type 0 where
  pub timestamp : ℤ
  pub signatures : List (Text × Text)

pub data Parsed : Type 0 where
  parsed : SignatureParams → Parsed
  refused : SignatureError → Parsed

abbrev pub set_timestamp : Option ℤ → SignatureParams → Parsed
set_timestamp none params = refused invalid_timestamp
set_timestamp (some ts) params = parsed (record params { timestamp = ts })

-- A part of the header: without "=" it is passed over.
unfoldable pub parse_pair : Option (Text × Text) → SignatureParams → Parsed
unfolding parse_int text_eq insert
parse_pair none params = parsed params
parse_pair (some (key, value)) params =
    if text_eq key (codes "t")
    then set_timestamp (parse_int value) params
    else parsed (record params { signatures = insert key value params.signatures })

unfoldable pub parse_part : Text → SignatureParams → Parsed
unfolding trim_space split_once parse_pair
parse_part part params = parse_pair (split_once 61 (trim_space part)) params

abbrev pub then_parts : (SignatureParams → Parsed) → Parsed → Parsed
then_parts rest (refused e) = refused e
then_parts rest (parsed params) = rest params

unfoldable pub parse_parts : List Text → SignatureParams → Parsed
unfolding parse_part
parse_parts [] params = parsed params
parse_parts (part ∷ parts) params =
    let rest = parse_parts parts in then_parts rest (parse_part part params)

abbrev pub require_timestamp : Parsed → Parsed
require_timestamp (refused e) = refused e
require_timestamp (parsed params) =
    if is_zero params.timestamp then refused missing_timestamp else parsed params

abbrev pub no_params : SignatureParams
no_params = record { timestamp = pos 0; signatures = [] }

-- `ParseSignature`
unfoldable pub parse_signature : Text → Parsed
unfolding parse_parts split_on
parse_signature [] = refused missing_signature
parse_signature (c ∷ header) = require_timestamp (parse_parts (split_on 44 (c ∷ header)) no_params)

-- `hex.EncodeToString` and `hex.DecodeString`
abbrev pub hex_digit : ℕ → ℕ
hex_digit n = if ltb n 10 then 48 + n else 87 + n

unfoldable pub hex_encode : Text → Text
hex_encode [] = []
hex_encode (b ∷ s) = hex_digit (b / 16) ∷ hex_digit (b % 16) ∷ hex_encode s

abbrev pub hex_value : ℕ → Option ℕ
hex_value c =
    if leb 48 c && ltb c 58
    then some (c - 48)
    else (if leb 97 c && ltb c 103
        then some (c - 87)
        else (if leb 65 c && ltb c 71 then some (c - 55) else none))

abbrev pub join_byte : Option ℕ → Option ℕ → Option Text → Option Text
join_byte (some a) (some b) (some s) = some ((a * 16 + b) ∷ s)
join_byte none b s = none
join_byte (some a) none s = none
join_byte (some a) (some b) none = none

unfoldable pub hex_decode : Text → Option Text
hex_decode [] = some []
hex_decode (c ∷ []) = none
hex_decode (c ∷ d ∷ s) = join_byte (hex_value c) (hex_value d) (hex_decode s)

-- |a - b|
abbrev pub distance : ℤ → ℤ → ℕ
distance (pos a) (pos b) = (a - b) + (b - a)
distance (pos a) (negsuc b) = a + suc b
distance (negsuc a) (pos b) = suc a + b
distance (negsuc a) (negsuc b) = (a - b) + (b - a)

abbrev pub is_older : ℕ → (tolerance_seconds : ℤ) → Bool
is_older age (pos t) = ltb t age
is_older age (negsuc t) = true

module _ (hmac : Text → Text → Text) where
  -- `ComputeSignature`
  unfoldable pub compute_signature : (payload secret : Text) → ℤ → Text
  unfolding hex_encode
  compute_signature payload secret timestamp =
      hex_encode (hmac secret (format_int timestamp ++ 46 ∷ payload))

  -- `SignPayload`, at a time.
  unfoldable pub sign_payload : (now : ℤ) (payload secret : Text) → Text
  unfolding compute_signature
  sign_payload now payload secret =
      codes "t=" ++ format_int now ++ codes ",v1=" ++ compute_signature payload secret now

  abbrev pub same_signature : Option Text → Option Text → Option SignatureError
  same_signature (some a) (some b) = if text_eq a b then none else some invalid_signature
  same_signature none b = some invalid_signature
  same_signature (some a) none = some invalid_signature

  abbrev pub check_params :
      (now : ℤ) (payload secret : Text) (tolerance_seconds : ℤ) → Parsed → Option SignatureError
  check_params now payload secret tolerance (refused e) = some e
  check_params now payload secret tolerance (parsed params) =
      if is_older (distance now params.timestamp) tolerance
      then some signature_expired
      else elim (lookup (codes "v1") params.signatures) [
        | none ↦ some missing_v1
        | some provided ↦
            same_signature (hex_decode provided)
              (hex_decode (compute_signature payload secret params.timestamp))
      ]

  abbrev pub with_secret : Text → Option SignatureError → Option SignatureError
  with_secret [] checked = some missing_secret
  with_secret (c ∷ secret) checked = checked

  -- `VerifySignature`, at a time.
  unfoldable pub verify_signature :
      (now : ℤ) (payload signature secret : Text) (tolerance_seconds : ℤ) → Option SignatureError
  unfolding parse_signature compute_signature hex_decode lookup
  verify_signature now payload [] secret tolerance = some missing_signature
  verify_signature now payload (c ∷ signature) secret tolerance =
      with_secret secret
        (check_params now payload secret tolerance (parse_signature (c ∷ signature)))
