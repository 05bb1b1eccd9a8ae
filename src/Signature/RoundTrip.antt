-- ===== src/Signature/RoundTrip.antt =====
-- What `VerifySignature` of ironflow/signature.go makes of a header of `SignPayload`.
use ironflow_go.Prelude.{
  ℕ, zero, suc, ◌≤◌, ◌<◌, ◌≡◌, ◌≢◌, refl, ap, ◌∙◌, none, [], ◌∷◌, ◌++◌, Text, codes, false, ltb,
  All, arith, ℤ, pos, lookup, insert, text_eq, text_eq_refl,
}
use mathlib.Core.List.{append_assoc}
use ironflow_go.StepId.{itoa}
use ironflow_go.StepId.Decimal.{itoa_digits}
use ironflow_go.Signature.{
  split_on, split_once, two_63, SignatureParams, parsed, parse_part, parse_pair, set_timestamp,
  then_parts, parse_parts, require_timestamp, no_params, parse_signature, distance,
  compute_signature, sign_payload, same_signature, check_params, verify_signature,
}
use ironflow_go.Signature.Pieces.{
  IsPlain, IsByte, split_on-plain, split_on-comma, digit-IsPlain, hex-IsPlain, trim_space-plain,
  hex_decode-hex_encode, parse_int-itoa,
}

module _ (hmac : Text → Text → Text) where
  abbrev signed : ℕ → Text → Text → Text
  signed n payload secret = compute_signature hmac payload secret (pos n)

  sign_payload-split :
      (n : ℕ) (payload secret : Text)
      → sign_payload hmac (pos n) payload secret
        ≡ (116 ∷ 61 ∷ itoa n) ++ 44 ∷ 118 ∷ 49 ∷ 61 ∷ signed n payload secret
  unfolding sign_payload
  sign_payload-split n payload secret = append_assoc (116 ∷ 61 ∷ itoa n) (44 ∷ 118 ∷ 49 ∷ 61 ∷ []) _

  abbrev params_of : ℕ → Text → SignatureParams
  params_of n sig = record { timestamp = pos n; signatures = (codes "v1", sig) ∷ [] }

  parse_part-t :
      (n : ℕ)
      → n < two_63
      → parse_part (116 ∷ 61 ∷ itoa n) no_params
        ≡ parsed (record { timestamp = pos n; signatures = [] })
  unfolding parse_part parse_pair split_once text_eq
  parse_part-t n low =
      let plain : All IsPlain (116 ∷ 61 ∷ itoa n) =
        (omega arith, (omega arith, digit-IsPlain _ (itoa_digits n))) in
      ap (λ s. parse_pair (split_once 61 s) no_params) (trim_space-plain (116 ∷ 61 ∷ itoa n) plain)
      ∙ ap (λ o. set_timestamp o no_params) (parse_int-itoa n low)

  parse_part-v1 :
      (n : ℕ) (sig : Text)
      → All IsPlain sig
      → parse_part (118 ∷ 49 ∷ 61 ∷ sig) (record { timestamp = pos n; signatures = [] })
        ≡ parsed (params_of n sig)
  unfolding parse_part parse_pair split_once text_eq insert
  parse_part-v1 n sig plain =
      let plain' : All IsPlain (118 ∷ 49 ∷ 61 ∷ sig) =
        (omega arith, (omega arith, (omega arith, plain))) in
      ap (λ s. parse_pair (split_once 61 s) (record { timestamp = pos n; signatures = [] }))
        (trim_space-plain (118 ∷ 49 ∷ 61 ∷ sig) plain')

  parse_signature-sign_payload :
      (n : ℕ) (sig : Text)
      → 1 ≤ n
      → n < two_63
      → All IsPlain sig
      → parse_signature ((116 ∷ 61 ∷ itoa n) ++ 44 ∷ 118 ∷ 49 ∷ 61 ∷ sig) ≡ parsed (params_of n sig)
  unfolding parse_signature parse_parts
  parse_signature-sign_payload zero sig some_time low plain = absurd (omega arith)
  parse_signature-sign_payload (suc n) sig some_time low plain =
      let plain_t : All IsPlain (116 ∷ 61 ∷ itoa (suc n)) =
        (omega arith, (omega arith, digit-IsPlain _ (itoa_digits (suc n)))) in
      let plain_v : All IsPlain (118 ∷ 49 ∷ 61 ∷ sig) =
        (omega arith, (omega arith, (omega arith, plain))) in
      let parts : split_on 44 ((116 ∷ 61 ∷ itoa (suc n)) ++ 44 ∷ 118 ∷ 49 ∷ 61 ∷ sig)
          ≡ (116 ∷ 61 ∷ itoa (suc n)) ∷ (118 ∷ 49 ∷ 61 ∷ sig) ∷ [] =
        split_on-comma (116 ∷ 61 ∷ itoa (suc n)) (118 ∷ 49 ∷ 61 ∷ sig) plain_t
        ∙ ap (λ l. (116 ∷ 61 ∷ itoa (suc n)) ∷ l) (split_on-plain (118 ∷ 49 ∷ 61 ∷ sig) plain_v) in
      ap (λ l. require_timestamp (parse_parts l no_params)) parts
      ∙ ap (λ p. require_timestamp (then_parts (parse_parts ((118 ∷ 49 ∷ 61 ∷ sig) ∷ [])) p))
          (parse_part-t (suc n) low)
      ∙ ap (λ p. require_timestamp (then_parts (parse_parts []) p))
          (parse_part-v1 (suc n) sig plain)

  check_params-signed :
      (n t : ℕ) (later : ℤ) (payload secret : Text)
      → All IsByte (hmac secret (itoa n ++ 46 ∷ payload))
      → distance later (pos n) ≤ t
      → check_params hmac later payload secret
          (pos t)
          (parsed (params_of n (signed n payload secret)))
        ≡ none
  unfolding compute_signature lookup text_eq
  check_params-signed n t later payload secret bytes young =
      let fresh : ltb t (distance later (pos n)) ≡ false = ground arith in
      let decodes = hex_decode-hex_encode (hmac secret (itoa n ++ 46 ∷ payload)) bytes in
      rw (fresh) (
        ap (λ o. same_signature hmac o o) decodes
        ∙ rw (text_eq_refl (hmac secret (itoa n ++ 46 ∷ payload))) refl)

  -- A payload signed with a secret that is not empty, at a time from 1 to below 2^63 and under a MAC of
  -- bytes, verifies with that secret on a clock that differs from it by no more than the tolerance.
  pub verify_signature-sign_payload :
      (n t : ℕ) (later : ℤ) (payload secret : Text)
      → 1 ≤ n
      → n < two_63
      → secret ≢ []
      → All IsByte (hmac secret (itoa n ++ 46 ∷ payload))
      → distance later (pos n) ≤ t
      → verify_signature hmac later payload
          (sign_payload hmac (pos n) payload secret)
          secret
          (pos t)
        ≡ none
  unfolding verify_signature compute_signature
  verify_signature-sign_payload n t later payload [] some_time low has_secret bytes young =
      absurd (has_secret refl)
  verify_signature-sign_payload n t later payload (c ∷ secret) some_time low has_secret bytes
        young =
      let sig = signed n payload (c ∷ secret) in
      ap (λ h. verify_signature hmac later payload h (c ∷ secret) (pos t))
        (sign_payload-split n payload (c ∷ secret))
      ∙ ap (check_params hmac later payload (c ∷ secret) (pos t))
          (parse_signature-sign_payload n sig some_time low (hex-IsPlain _ bytes))
      ∙ check_params-signed n t later payload (c ∷ secret) bytes young
