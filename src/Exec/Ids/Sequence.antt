-- ===== src/Exec/Ids/Sequence.antt =====
-- The ids of the claims that one scope makes one after the other.
use ironflow_go.Prelude.{
  ◌≡◌, ◌≢◌, refl, ap, ◌∙◌, List, [], ◌∷◌, Text, ℕ, ◌+◌, ◌≤◌, ◌<◌, All, arith, text_eq→eq,
  text_eq_refl, insert, lookup-insert,
}
use ironflow_go.StepId.{format_id, escape_step_id_part}
use ironflow_go.StepId.Unique.{path_id_injective}
use ironflow_go.Exec.{ExecutionContext, Scope, root, branch, Frame}
use ironflow_go.Exec.Ids.{generate_step_id, generate_root_step_id, generate_branch_step_id, counter}
use ironflow_go.Exec.Ids.Keeps.{claimed}
use ironflow_go.Exec.Ids.Distinct.{
  NoLegacyRows, counters_of, prefix_of, scope_counters, generate-escaped,
}

-- The ids that a scope gives to names claimed in this order.
unfoldable pub claim_all : {V W : Type 0} → List Text → Frame V W → List Text
claim_all [] f = []
claim_all (name ∷ names) f =
    claimed (generate_step_id name f).0 ∷ claim_all names (generate_step_id name f).1

abbrev pub AllDistinct : List Text → Type 0
AllDistinct [] = Unit
AllDistinct (x ∷ xs) = All (λ y. x ≢ y) xs × AllDistinct xs

counter_grows :
    (name other : Text) (counters : List (Text × ℕ))
    → counter other counters ≤ counter other (insert name (counter name counters + 1) counters)
unfolding counter
counter_grows name other counters =
    ground
      (arith, lookup-insert name other (counter name counters + 1) counters, text_eq→eq name other)

counter_claimed :
    (name : Text) (counters : List (Text × ℕ))
    → counter name counters < counter name (insert name (counter name counters + 1) counters)
unfolding counter
counter_claimed name counters =
    ground (arith, lookup-insert name name (counter name counters + 1) counters, text_eq_refl name)

module _ {V W : Type 0} where
  prefix-generate :
      (name : Text) (c : ExecutionContext V W) (s : Scope) (w : W)
      → let f' = (generate_step_id name (record { exec = c; scope = s; world = w })).1 in
        prefix_of f'.exec f'.scope ≡ prefix_of c s
  unfolding generate_step_id generate_root_step_id generate_branch_step_id
  prefix-generate name c root w = refl
  prefix-generate name c (branch b) w = refl

  NoLegacyRows-generate :
      (name : Text) (c : ExecutionContext V W) (s : Scope) (w : W)
      → NoLegacyRows c s
      → let f' = (generate_step_id name (record { exec = c; scope = s; world = w })).1 in
        NoLegacyRows f'.exec f'.scope
  unfolding generate_step_id generate_root_step_id generate_branch_step_id
  NoLegacyRows-generate name c root w h = h
  NoLegacyRows-generate name c (branch b) w h = h

  counters-generate :
      (name other : Text) (c : ExecutionContext V W) (s : Scope) (w : W)
      → let f' = (generate_step_id name (record { exec = c; scope = s; world = w })).1 in
        (counter other (scope_counters c s) ≤ counter other (counters_of f'))
        × (counter name (scope_counters c s) < counter name (counters_of f'))
  unfolding generate_step_id generate_root_step_id generate_branch_step_id
  counters-generate name other c root w =
      (counter_grows name other c.step_counters, counter_claimed name c.step_counters)
  counters-generate name other c (branch b) w =
      (counter_grows name other b.step_counters, counter_claimed name b.step_counters)

  -- An index below the count is not given again.
  past_ids :
      (names : List Text) (scope name : Text) (index : ℕ) (f : Frame V W)
      → prefix_of f.exec f.scope ≡ scope
      → NoLegacyRows f.exec f.scope
      → index < counter name (counters_of f)
      → All (λ id. format_id scope (escape_step_id_part name) index ≢ id) (claim_all names f)
  unfolding claim_all
  past_ids [] scope name index f at new past = tt
  past_ids (other ∷ names) scope name index f at new past =
      let f' = (generate_step_id other f).1 in
      (
        λ same.
            let e =
              path_id_injective scope ((name, index) ∷ [])
                ((other, counter other (counters_of f)) ∷ [])
                (same
                  ∙ ap claimed (generate-escaped other f.exec f.scope f.world new)
                  ∙ ap
                      (λ t. format_id t (escape_step_id_part other) (counter other (counters_of f)))
                      at) in
            let names_same : name ≡ other = cc e in
            let index_same : index ≡ counter other (counters_of f) = cc e in
            absurd (omega (arith, index_same, ap (λ n. counter n (counters_of f)) names_same)),
        past_ids names scope name index f' (prefix-generate other f.exec f.scope f.world ∙ at)
            (NoLegacyRows-generate other f.exec f.scope f.world new)
            (omega (arith, counters-generate other name f.exec f.scope f.world)),
      )

  -- However often and in whatever order a scope claims names, no two claims get the same id, if no
  -- row stands under an unescaped spelling of a step of the scope.
  pub claims_distinct :
      (names : List Text) (f : Frame V W)
      → NoLegacyRows f.exec f.scope
      → AllDistinct (claim_all names f)
  unfolding claim_all
  claims_distinct [] f new = tt
  claims_distinct (name ∷ names) f new =
      let f' = (generate_step_id name f).1 in
      let new' = NoLegacyRows-generate name f.exec f.scope f.world new in
      (
        rw (generate-escaped name f.exec f.scope f.world new) (
            past_ids names (prefix_of f.exec f.scope) name (counter name (counters_of f)) f'
              (prefix-generate name f.exec f.scope f.world) new'
              (counters-generate name name f.exec f.scope f.world).1),
        claims_distinct names f' new',
      )
