-- ===== src/Exec/Ids/Distinct.antt =====
-- The ids that one invocation gives: each names its path of scopes, its name and its index, and no
-- two claims get the same one.
use ironflow_go.Prelude.{
  ◌≡◌, ◌≢◌, refl, sym, ap, ◌∙◌, inl, inr, List, [], ◌∷◌, ◌++◌, Text, ℕ, true, contains, insert,
  lookup-insert_self, lookup-insert_ne,
}
use ironflow_go.StepId.{format_id, escape_step_id_part}
use ironflow_go.StepId.Unique.{path_id, path_id_injective}
use ironflow_go.Exec.{ExecutionContext, BranchContext, Scope, root, branch, Frame, returned}
use ironflow_go.Exec.Ids.{
  prefer_legacy_step_id, generate_step_id, generate_root_step_id, generate_branch_step_id,
  create_branch_context, create_nested_branch_context, counter,
}
use ironflow_go.Exec.Ids.Keeps.{claimed}
use ironflow_go.Exec.Ids.Legacy.{prefer_legacy-cases}

counter-insert_self :
    (name : Text) (n : ℕ) (counters : List (Text × ℕ)) → counter name (insert name n counters) ≡ n
unfolding counter
counter-insert_self name n counters = rw (lookup-insert_self, counter)

counter-insert_ne :
    (name other : Text) (n : ℕ) (counters : List (Text × ℕ))
    → name ≢ other
    → counter other (insert name n counters) ≡ counter other counters
unfolding counter
counter-insert_ne name other n counters ne = rw (lookup-insert_ne name other n counters ne, counter)

abbrev pub prefix_of : {V W : Type 0} → ExecutionContext V W → Scope → Text
prefix_of c root = c.run_id
prefix_of c (branch b) = b.scope_prefix

abbrev pub legacy_prefix_of : {V W : Type 0} → ExecutionContext V W → Scope → Text
legacy_prefix_of c root = c.run_id
legacy_prefix_of c (branch b) = b.legacy_scope_prefix

abbrev pub scope_counters : {V W : Type 0} → ExecutionContext V W → Scope → List (Text × ℕ)
scope_counters c root = c.step_counters
scope_counters c (branch b) = b.step_counters

abbrev pub counters_of : {V W : Type 0} → Frame V W → List (Text × ℕ)
counters_of f = scope_counters f.exec f.scope

-- No row is there under an unescaped spelling of a step of this scope, other than under the escaped
-- one where both are the same.
abbrev pub NoLegacyRows : {V W : Type 0} → ExecutionContext V W → Scope → Type 0
NoLegacyRows c s =
    (name : Text) (index : ℕ)
    → contains (format_id (legacy_prefix_of c s) name index) c.completed_steps ≡ true
    → format_id (legacy_prefix_of c s) name index
      ≡ format_id (prefix_of c s) (escape_step_id_part name) index

escaped_without_legacy :
    {V W : Type 0} (c : ExecutionContext V W) (s : Scope) (name : Text) (index : ℕ)
    → NoLegacyRows c s
    → prefer_legacy_step_id c
        (format_id (prefix_of c s) (escape_step_id_part name) index)
        (format_id (legacy_prefix_of c s) name index)
      ≡ format_id (prefix_of c s) (escape_step_id_part name) index
escaped_without_legacy c s name index none_old =
    elim (prefer_legacy-cases c (format_id (prefix_of c s) (escape_step_id_part name) index)
      (format_id (legacy_prefix_of c s) name index)) [
        | inl e ↦ e
        | inr (e, old, _) ↦ e ∙ none_old name index old
      ]

pub generate-escaped :
    {V W : Type 0} (name : Text) (c : ExecutionContext V W) (s : Scope) (w : W)
    → NoLegacyRows c s
    → (generate_step_id name (record { exec = c; scope = s; world = w })).0
      ≡ returned
          (format_id (prefix_of c s) (escape_step_id_part name) (counter name (scope_counters c s)))
unfolding generate_step_id generate_root_step_id generate_branch_step_id
generate-escaped name c root w h =
    ap returned (escaped_without_legacy c root name (counter name c.step_counters) h)
generate-escaped name c (branch b) w h =
    ap returned (escaped_without_legacy c (branch b) name (counter name b.step_counters) h)

-- The scope of a branch, a branch of a branch, and so on, has the id of its path as its prefix.
abbrev pub HasPath : {V W : Type 0} → ExecutionContext V W → Scope → List (Text × ℕ) → Type 0
HasPath c s path = prefix_of c s ≡ path_id c.run_id path

path_id-append :
    (scope : Text) (path : List (Text × ℕ)) (name : Text) (index : ℕ)
    → path_id scope (path ++ (name, index) ∷ [])
      ≡ format_id (path_id scope path) (escape_step_id_part name) index
path_id-append scope [] name index = refl
path_id-append scope ((n, i) ∷ path) name index =
    path_id-append (format_id scope (escape_step_id_part n) i) path name index

module _ {V W : Type 0} (c : ExecutionContext V W) (name : Text) (index : ℕ) where
  pub create_branch-HasPath :
      HasPath c (branch (create_branch_context name index c)) ((name, index) ∷ [])
  unfolding create_branch_context
  create_branch-HasPath = refl

  pub create_nested-HasPath :
      (b : BranchContext) (path : List (Text × ℕ))
      → HasPath c (branch b) path
      → HasPath c (branch (create_nested_branch_context name index b)) (path ++ (name, index) ∷ [])
  unfolding create_nested_branch_context
  create_nested-HasPath b path h =
      ap (λ t. format_id t (escape_step_id_part name) index) h
      ∙ sym (path_id-append c.run_id path name index)

snoc_injective :
    (p q : List (Text × ℕ)) (a b : Text × ℕ) → p ++ a ∷ [] ≡ q ++ b ∷ [] → (p ≡ q) × (a ≡ b)
snoc_injective [] [] a b h = (refl, cc)
snoc_injective [] (y ∷ []) a b h = cc
snoc_injective [] (y ∷ z ∷ q) a b h = cc
snoc_injective (x ∷ []) [] a b h = cc
snoc_injective (x ∷ z ∷ p) [] a b h = cc
snoc_injective (x ∷ p) (y ∷ q) a b h = let (e, e') = snoc_injective p q a b (cc) in (cc e, e')

module _ {V W : Type 0} (f g : Frame V W) (p q : List (Text × ℕ)) (name other : Text) where
  -- Two claims in one run, in the same scope or in two, where no row stands under an unescaped
  -- spelling: they get the same id only if the scopes have the same path, the names are equal, and
  -- so are the counts of the name.
  pub generate_step_id_injective :
      f.exec.run_id ≡ g.exec.run_id
      → HasPath f.exec f.scope p
      → HasPath g.exec g.scope q
      → NoLegacyRows f.exec f.scope
      → NoLegacyRows g.exec g.scope
      → (generate_step_id name f).0 ≡ (generate_step_id other g).0
      → (p ≡ q) × (name ≡ other) × (counter name (counters_of f) ≡ counter other (counters_of g))
  generate_step_id_injective same_run at_p at_q new_f new_g same =
      let i = counter name (counters_of f) in
      let j = counter other (counters_of g) in
      let ids : format_id (prefix_of f.exec f.scope) (escape_step_id_part name) i
          ≡ format_id (prefix_of g.exec g.scope) (escape_step_id_part other) j =
        ap claimed (
          sym (generate-escaped name f.exec f.scope f.world new_f)
          ∙ same
          ∙ generate-escaped other g.exec g.scope g.world new_g) in
      let paths : path_id f.exec.run_id (p ++ (name, i) ∷ [])
          ≡ path_id f.exec.run_id (q ++ (other, j) ∷ []) =
        path_id-append f.exec.run_id p name i
        ∙ ap (λ t. format_id t (escape_step_id_part name) i) (sym at_p)
        ∙ ids
        ∙ ap (λ t. format_id t (escape_step_id_part other) j) at_q
        ∙ sym (path_id-append g.exec.run_id q other j)
        ∙ ap (λ r. path_id r (q ++ (other, j) ∷ [])) (sym same_run) in
      let (e, last) =
        snoc_injective p q (name, i) (other, j) (path_id_injective f.exec.run_id _ _ paths) in
      (e, ap (λ a. a.0) last, ap (λ a. a.1) last)
