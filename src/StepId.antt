-- ===== src/StepId.antt =====
-- ironflow/step.go, the composite step ids: the escaping of one segment, the namespaces that keep
-- their colon, and the rendering "{scope}:{name}:{index}". A Go string is a list of bytes.
pub mod Decimal
mod Segments
pub mod Unique
use ironflow_go.Prelude.{
  ℕ, zero, suc, ◌+◌, ◌/◌, ◌%◌, Option, none, some, List, [], ◌∷◌, ◌++◌, Text, codes, ltb, ◌==◌,
  if◌then◌else◌, Bool, true, false,
}

abbrev pub colon : ℕ
colon = 58

abbrev pub backslash : ℕ
backslash = 92

-- `strings.NewReplacer` over one-byte patterns replaces byte by byte.
unfoldable pub step_id_part_escaper : Text → Text
step_id_part_escaper [] = []
step_id_part_escaper (c ∷ s) =
    let rest = step_id_part_escaper s in
    if c == backslash
    then backslash ∷ backslash ∷ rest
    else if c == colon
    then backslash ∷ colon ∷ rest
    else c ∷ rest

abbrev pub compensate_prefix : Text
compensate_prefix = codes "compensate:"

abbrev pub publish_prefix : Text
publish_prefix = codes "publish:"

abbrev pub step_id_namespaces : List Text
step_id_namespaces = compensate_prefix ∷ publish_prefix ∷ []

-- `strings.CutPrefix(s, prefix)`
unfoldable pub cut_prefix : Text → Text → Option Text
cut_prefix [] s = some s
cut_prefix (p ∷ ps) [] = none
cut_prefix (p ∷ ps) (c ∷ s) = if p == c then cut_prefix ps s else none

-- The loop over the namespaces: the first that is a prefix stays as it is.
unfoldable pub escape_after : List Text → Text → Text
escape_after [] part = step_id_part_escaper part
escape_after (ns ∷ more) part = elim (cut_prefix ns part) [
  | none ↦ escape_after more part
  | some after ↦ ns ++ step_id_part_escaper after
]

unfoldable pub escape_step_id_part : Text → Text
unfolding escape_after
escape_step_id_part part = escape_after step_id_namespaces part

-- The digits of a number, with fuel above it: what `%d` prints for a counter, which is never
-- negative.
unfoldable pub itoa_fuel : ℕ → ℕ → Text
itoa_fuel zero n = []
itoa_fuel (suc f) n =
    let rest = itoa_fuel f (n / 10) in
    if ltb n 10 then (48 + n) ∷ [] else rest ++ (48 + n % 10) ∷ []

unfoldable pub itoa : ℕ → Text
unfolding itoa_fuel
itoa n = itoa_fuel (suc n) n

-- `fmt.Sprintf("%s:%s:%d", scope, part, index)`
unfoldable pub format_id : Text → Text → ℕ → Text
format_id scope part index = scope ++ (colon ∷ (part ++ (colon ∷ itoa index)))
