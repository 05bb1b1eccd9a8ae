-- ===== src/Errors/Rest.antt =====
-- ironflow/errors.go: the error code of an HTTP error response.
use ironflow_go.Prelude.{
  ℕ, some, none, List, [], ◌∷◌, Text, codes, leb, ◌==◌, if◌then◌else◌, ◌||◌, lookup,
}

abbrev pub legacy_generic_codes : List (Text × Text)
legacy_generic_codes =
    (codes "INVALID", codes "invalid_argument")
    ∷ (codes "FORBIDDEN", codes "permission_denied")
    ∷ (codes "NOT_FOUND", codes "not_found")
    ∷ (codes "CONFLICT", codes "already_exists")
    ∷ (codes "INTERNAL", codes "internal")
    ∷ []

-- The code for a response whose body has none.
unfoldable pub code_of_status : ℕ → Text
code_of_status status =
    if status == 401
    then codes "unauthenticated"
    else if (status == 408) || (status == 504)
    then codes "deadline_exceeded"
    else if (status == 402) || (status == 412) || (status == 507)
    then codes "failed_precondition"
    else if status == 403
    then codes "permission_denied"
    else if status == 404
    then codes "not_found"
    else if status == 409
    then codes "already_exists"
    else if status == 429
    then codes "resource_exhausted"
    else if status == 501
    then codes "unimplemented"
    else if status == 503
    then codes "unavailable"
    else if leb 500 status
    then codes "internal"
    else codes "invalid_argument"

-- The body's own code, its legacy spelling mapped, or the code of the status.
unfoldable pub rest_error_code : Text → ℕ → Text
unfolding code_of_status
rest_error_code [] status = code_of_status status
rest_error_code (c ∷ body) status = elim (lookup (c ∷ body) legacy_generic_codes) [
  | some code ↦ code
  | none ↦ c ∷ body
]
