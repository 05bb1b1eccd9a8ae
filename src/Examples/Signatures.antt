-- ===== src/Examples/Signatures.antt =====
-- Requests signed with a stand-in for HMAC-SHA256, the length of the message as one byte.
use ironflow_go.Prelude.{
  ◌%◌, ◌≡◌, ◌≢◌, refl, none, some, [], ◌∷◌, ◌++◌, Text, codes, All, arith, pos, length, text_eq,
  lookup, insert,
}
use ironflow_go.StepId.{itoa, itoa_fuel}
use ironflow_go.Signature.{
  sign_payload, verify_signature, compute_signature, hex_encode, hex_decode, parse_signature,
  parse_parts, parse_part, parse_pair, parse_int, parse_digits, split_on, split_once, trim_space,
  trim_left, signature_expired,
}
use ironflow_go.Signature.Pieces.{IsByte}
use ironflow_go.Signature.RoundTrip.{verify_signature-sign_payload}

abbrev short_mac : Text → Text → Text
short_mac secret message = (length (secret ++ message) % 256) ∷ []

short_mac_bytes : (s m : Text) → All IsByte (short_mac s m)
short_mac_bytes s m = (omega arith, tt)

abbrev key : Text
key = codes "k"

abbrev body : Text
body = codes "{}"

abbrev header : Text
header = codes "t=1000, v0=zz,v1=08"

header_expires :
    verify_signature short_mac (pos 1301) body header key (pos 300) ≡ some signature_expired
unfolding verify_signature compute_signature hex_encode hex_decode parse_signature parse_parts
    parse_part parse_pair parse_int parse_digits split_on split_once trim_space trim_left itoa
    itoa_fuel text_eq lookup insert
header_expires = refl

key_not_empty : key ≢ []
key_not_empty h = cc

verify_signature-sign_payload_example :
    verify_signature short_mac
      (pos 1200)
      body
      (sign_payload short_mac (pos 1000) body key)
      key
      (pos 300)
    ≡ none
verify_signature-sign_payload_example =
    verify_signature-sign_payload short_mac 1000 300 (pos 1200) body key (omega arith) (omega arith)
      key_not_empty (short_mac_bytes key (itoa 1000 ++ 46 ∷ body)) (omega arith)
