-- ===== src/Signature/Sound.antt =====
-- What a header that `VerifySignature` of ironflow/signature.go accepts has in it.
use ironflow_go.Prelude.{◌≡◌, some, ◌∷◌, ◌++◌, Text, codes, false, ℤ, lookup}
use ironflow_go.Signature.{
  SignatureParams, Parsed, parsed, hex_decode, format_int, distance, is_older,
}

module _ (hmac : Text → Text → Text) where
  -- What was signed, by whom and when.
  abbrev pub Authentic : (now : ℤ) (payload secret : Text) (tolerance_seconds : ℤ) → Parsed → Type 0
  Authentic now payload secret tolerance result =
      (params : SignatureParams) × (provided : Text) × (result ≡ parsed params)
      × (is_older (distance now params.timestamp) tolerance ≡ false)
      × (lookup (codes "v1") params.signatures ≡ some provided)
      × (hex_decode provided ≡ some (hmac secret (format_int params.timestamp ++ 46 ∷ payload)))
