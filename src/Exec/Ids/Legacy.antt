-- ===== src/Exec/Ids/Legacy.antt =====
-- The rows of an earlier invocation are found again under the spelling that they were written with.
use ironflow_go.Prelude.{
  ◌≡◌, ◌≢◌, sym, ap, ◌∙◌, Text, true, false, contains, text_eq, text_eq→eq, text_eq_refl, ◌⊎◌, inl,
  inr, Bool-cases,
}
use ironflow_go.StepId.{format_id, escape_step_id_part}
use ironflow_go.Exec.{ExecutionContext}
use ironflow_go.Exec.Ids.{prefer_legacy_step_id, generate_root_step_id, counter}

module _ {V W : Type 0} where
  -- The id is the escaped spelling, or the unescaped one, and then that has a row and the other has
  -- none.
  pub prefer_legacy-cases :
      (c : ExecutionContext V W) (id legacy : Text)
      → (prefer_legacy_step_id c id legacy ≡ id)
        ⊎ ((prefer_legacy_step_id c id legacy ≡ legacy)
            × (contains legacy c.completed_steps ≡ true)
            × (contains id c.completed_steps ≡ false))
  unfolding prefer_legacy_step_id
  prefer_legacy-cases c id legacy = elim (Bool-cases (text_eq legacy id)) [
    | inl same ↦ inl (rw same)
    | inr differ ↦ elim (Bool-cases (contains id c.completed_steps)) [
      | inl known ↦ inl (rw differ (rw known))
      | inr unknown ↦ elim (Bool-cases (contains legacy c.completed_steps)) [
        | inl old ↦ inr (rw differ (rw unknown (rw old)), old, unknown)
        | inr new ↦ inl (rw differ (rw unknown (rw new)))
      ]
    ]
  ]

  prefer_legacy_of_known :
      (d : ExecutionContext V W) (id legacy : Text)
      → contains id d.completed_steps ≡ true
      → prefer_legacy_step_id d id legacy ≡ id
  unfolding prefer_legacy_step_id
  prefer_legacy_of_known d id legacy known = elim (Bool-cases (text_eq legacy id)) [
    | inl same ↦ rw same
    | inr differ ↦ rw differ (rw known)
  ]

  prefer_legacy_of_old :
      (d : ExecutionContext V W) (id legacy : Text)
      → contains legacy d.completed_steps ≡ true
      → (legacy ≢ id → contains id d.completed_steps ≡ false)
      → prefer_legacy_step_id d id legacy ≡ legacy
  unfolding prefer_legacy_step_id
  prefer_legacy_of_old d id legacy old unknown = elim (Bool-cases (text_eq legacy id)) [
    | inl same ↦ rw same (sym (text_eq→eq legacy id same))
    | inr differ ↦
        let ne : legacy ≢ id = λ e. cc (differ, text_eq_refl id, ap (λ t. text_eq t id) e) in
        rw differ (rw (unknown ne) (rw old))
  ]

  -- Two invocations of one run that reach the same count of a name: the later one gives the step
  -- the id that the earlier one gave it, if it has a row under that id, and none under the escaped
  -- spelling where the earlier id was the unescaped one.
  pub generate_stable :
      (name : Text) (c d : ExecutionContext V W)
      → let id = (generate_root_step_id name c).0 in
        let escaped =
          format_id c.run_id (escape_step_id_part name) (counter name c.step_counters) in
        d.run_id ≡ c.run_id
        → counter name d.step_counters ≡ counter name c.step_counters
        → contains id d.completed_steps ≡ true
        → (id ≢ escaped → contains escaped d.completed_steps ≡ false)
        → (generate_root_step_id name d).0 ≡ id
  unfolding generate_root_step_id prefer_legacy_step_id
  generate_stable name c d same_run same_count known unknown =
      let id = format_id c.run_id (escape_step_id_part name) (counter name c.step_counters) in
      let legacy = format_id c.run_id name (counter name c.step_counters) in
      rw (same_run, same_count)
        (elim (prefer_legacy-cases c id legacy) [
          | inl e ↦ prefer_legacy_of_known d id legacy (rw e at known) ∙ sym e
          | inr (e, _, _) ↦
              prefer_legacy_of_old d id legacy (rw e at known) (rw e at unknown) ∙ sym e
        ])
