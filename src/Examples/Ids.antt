-- ===== src/Examples/Ids.antt =====
-- Ids on the names of #1694, and the theorems on the ids of a first invocation.
use mathlib.Core.Bool.{false≢true}
use ironflow_go.Prelude.{ℕ, ◌≡◌, refl, List, [], ◌∷◌, Text, codes, lookup, insert, text_eq}
use ironflow_go.StepId.{format_id, escape_step_id_part, step_id_part_escaper, cut_prefix, itoa}
use ironflow_go.StepId.Unique.{path_id, path_id_injective}
use ironflow_go.Exec.{Frame, root, branch}
use ironflow_go.Exec.Ids.{
  generate_step_id, generate_root_step_id, generate_branch_step_id, create_branch_context, counter,
  prefer_legacy_step_id,
}
use ironflow_go.Exec.Ids.Distinct.{NoLegacyRows, generate_step_id_injective}
use ironflow_go.Exec.Ids.Sequence.{claim_all, AllDistinct, claims_distinct}
use ironflow_go.Exec.Ids.Keeps.{claimed}
use ironflow_go.Examples.Fixtures.{new_context, start}

escape_colon : escape_step_id_part (codes "a:0:b") ≡ codes "a\\:0\\:b"
unfolding escape_step_id_part step_id_part_escaper cut_prefix
escape_colon = refl

escape_publish : escape_step_id_part (codes "publish:order.placed") ≡ codes "publish:order.placed"
unfolding escape_step_id_part step_id_part_escaper cut_prefix
escape_publish = refl

abbrev nested_step : List (Text × ℕ)
nested_step = (codes "a", 0) ∷ (codes "b", 0) ∷ []

nested_id : path_id (codes "run") nested_step ≡ codes "run:a:0:b:0"
unfolding format_id escape_step_id_part step_id_part_escaper cut_prefix itoa
nested_id = refl

path_id_injective_example : nested_step ≡ nested_step
path_id_injective_example = path_id_injective (codes "run") nested_step nested_step refl

first_ids :
    claim_all (codes "pay" ∷ codes "ship" ∷ codes "pay" ∷ []) start
    ≡ codes "run:pay:0" ∷ codes "run:ship:0" ∷ codes "run:pay:1" ∷ []
unfolding claim_all generate_step_id generate_root_step_id prefer_legacy_step_id counter lookup
    insert text_eq format_id escape_step_id_part step_id_part_escaper cut_prefix itoa
first_ids = refl

no_rows : NoLegacyRows new_context root
unfolding lookup
no_rows name index h = absurd (false≢true h)

claims_distinct_example : AllDistinct (claim_all (codes "pay" ∷ codes "pay" ∷ []) start)
claims_distinct_example = claims_distinct (codes "pay" ∷ codes "pay" ∷ []) start no_rows

-- The step "b" at 0 in branch 0 of "a", where the root has a step named "a:0:b" as well.
abbrev in_branch : Frame ℕ ℕ
in_branch = record start { scope = branch (create_branch_context (codes "a") 0 new_context) }

no_rows_in_branch :
    NoLegacyRows new_context (branch (create_branch_context (codes "a") 0 new_context))
unfolding lookup
no_rows_in_branch name index h = absurd (false≢true h)

different_ids :
    (claimed (generate_step_id (codes "b") in_branch).0 ≡ codes "run:a:0:b:0")
    × (claimed (generate_step_id (codes "a:0:b") start).0 ≡ codes "run:a\\:0\\:b:0")
unfolding generate_step_id generate_root_step_id generate_branch_step_id create_branch_context
    prefer_legacy_step_id counter lookup text_eq format_id escape_step_id_part step_id_part_escaper
    cut_prefix itoa
different_ids = (refl, refl)

abbrev scope_of_a : List (Text × ℕ)
scope_of_a = (codes "a", 0) ∷ []

generate_step_id_injective_example :
    (scope_of_a ≡ scope_of_a)
    × (codes "b" ≡ codes "b")
    × (counter (codes "b") [] ≡ counter (codes "b") [])
unfolding create_branch_context
generate_step_id_injective_example =
    generate_step_id_injective in_branch in_branch scope_of_a scope_of_a (codes "b") (codes "b")
      refl refl refl no_rows_in_branch no_rows_in_branch refl
