-- ===== src/Exec/Ids/Keeps.antt =====
-- What a claim of an id leaves as it is.
use ironflow_go.Prelude.{◌≡◌, refl, Text, Option, []}
use ironflow_go.Exec.{ExecutionContext, ResumeContext, Scope, root, branch, Outcome, returned}
use ironflow_go.Exec.Ids.{
  generate_root_step_id, generate_branch_step_id, generate_step_id, prefer_legacy_step_id,
}

module _ {V W : Type 0} (name : Text) (c : ExecutionContext V W) where
  pub completed_steps-generate :
      (generate_root_step_id name c).1.completed_steps ≡ c.completed_steps
  unfolding generate_root_step_id
  completed_steps-generate = refl

  pub executed_steps-generate : (generate_root_step_id name c).1.executed_steps ≡ c.executed_steps
  unfolding generate_root_step_id
  executed_steps-generate = refl

  pub step_timeout-generate : (generate_root_step_id name c).1.step_timeout ≡ c.step_timeout
  unfolding generate_root_step_id
  step_timeout-generate = refl

  pub resume_context-generate : (generate_root_step_id name c).1.resume_context ≡ c.resume_context
  unfolding generate_root_step_id
  resume_context-generate = refl

-- The id does not depend on the resume, nor on the world.
module _ {V W : Type 0} (name : Text) (c : ExecutionContext V W)
    (r : Option (ResumeContext V)) where
  pub generate_root-resume :
      (generate_root_step_id name (record c { resume_context = r })).0
      ≡ (generate_root_step_id name c).0
  unfolding generate_root_step_id prefer_legacy_step_id
  generate_root-resume = refl

  pub generate-resume :
      (s : Scope) (v w : W)
      → (generate_step_id name
          (record { exec = record c { resume_context = r }; scope = s; world = v })).0
        ≡ (generate_step_id name (record { exec = c; scope = s; world = w })).0
  unfolding generate_step_id generate_root_step_id generate_branch_step_id prefer_legacy_step_id
  generate-resume root v w = refl
  generate-resume (branch b) v w = refl

-- The id that a claim answers with; it always answers with one.
abbrev pub claimed : {V : Type 0} → Outcome V Text → Text
claimed (returned id) = id
claimed _ = []

module _ {V W : Type 0} (name : Text) (c : ExecutionContext V W) where
  pub generate-claims :
      (s : Scope) (w : W)
      → let answer = (generate_step_id name (record { exec = c; scope = s; world = w })).0 in
        answer ≡ returned (claimed answer)
  unfolding generate_step_id generate_root_step_id generate_branch_step_id
  generate-claims root w = refl
  generate-claims (branch b) w = refl

  -- A claim in a scope leaves the rows, the results, the resume and the world.
  pub rows-generate :
      (s : Scope) (w : W)
      → let f = (generate_step_id name (record { exec = c; scope = s; world = w })).1 in
        (f.exec.completed_steps ≡ c.completed_steps)
        × (f.exec.executed_steps ≡ c.executed_steps)
        × (f.exec.resume_context ≡ c.resume_context)
        × (f.world ≡ w)
  unfolding generate_step_id generate_root_step_id generate_branch_step_id
  rows-generate root w = (refl, refl, refl, refl)
  rows-generate (branch b) w = (refl, refl, refl, refl)
