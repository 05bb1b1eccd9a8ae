-- ===== src/Projection/Load/Starts.antt =====
-- The state that each partition of a batch starts from in `processManaged` of
-- ironflow/projection_runner.go, and what a failed load leaves.
use ironflow_go.Prelude.{
  All-map, ◌≡◌, refl, sym, ap, ◌∙◌, subst, Option, none, some, List, [], ◌∷◌, Text, Bool, true,
  false, text_eq, text_eq→eq, lookup, lookup-insert, lookup-insert_self, Bool-cases, All, ◌⊎◌, inl,
  inr, if◌then◌else◌,
}
use ironflow_go.Projection.Errors.{ProjectionError}
use ironflow_go.Projection.Batch.{global_partition}
use ironflow_go.Projection.Load.{
  Answer, answered, refused, Saved, load_one, keep_load, load_partition_states,
}

pub Answer-cases :
    {A : Type 0} (a : Answer A)
    → ((e : ProjectionError) × (a ≡ refused e)) ⊎ ((x : A) × (a ≡ answered x))
Answer-cases (refused e) = inl (e, refl)
Answer-cases (answered x) = inr (x, refl)

abbrev pub answer_of : {A : Type 0} → Answer (Option A) → Option A
answer_of (answered o) = o
answer_of (refused e) = none

abbrev pub flat : {A : Type 0} → Option (Option A) → Option A
flat none = none
flat (some o) = o

module _ {O : Type 0} (quoted : Text → Text) where
  keep_load-errs :
      (pk : Text) (a : Answer (Option O)) (r : List (Text × Option O) × List ProjectionError)
      → (keep_load quoted pk a r).1 ≡ []
      → r.1 ≡ []
  keep_load-errs pk (refused e) r h = absurd cc
  keep_load-errs pk (answered none) r h = h
  keep_load-errs pk (answered (some o)) r h = h

  keep_load-other :
      (pk j : Text) (a : Answer (Option O)) (r : List (Text × Option O) × List ProjectionError)
      → text_eq pk j ≡ false
      → lookup j (keep_load quoted pk a r).0 ≡ lookup j r.0
  keep_load-other pk j (refused e) r ne = refl
  keep_load-other pk j (answered none) r ne = refl
  keep_load-other pk j (answered (some o)) r ne =
      lookup-insert pk j (some o) r.0 ∙ ap (λ b. if b then some (some o) else lookup j r.0) ne

  keep_load_self :
      (pk : Text) (a : Answer (Option O)) (r : List (Text × Option O) × List ProjectionError)
      → (keep_load quoted pk a r).1 ≡ []
      → (flat (lookup pk r.0) ≡ none) ⊎ (flat (lookup pk r.0) ≡ answer_of a)
      → flat (lookup pk (keep_load quoted pk a r).0) ≡ answer_of a
  keep_load_self pk (refused e) r h before = absurd cc
  keep_load_self pk (answered none) r h before = elim before [ inl e ↦ e | inr e ↦ e ]
  keep_load_self pk (answered (some o)) r h before = ap flat (lookup-insert_self pk (some o) r.0)

-- The state that the server has saved for a partition other than the global one.
abbrev pub saved_state : {O : Type 0} → (O → Bool) → (Text → Answer (Saved O)) → Text → Option O
saved_state is_empty get_projection pk = answer_of (load_one is_empty get_projection pk)

module _ {O : Type 0} (is_empty : O → Bool) (get_projection : Text → Answer (Saved O))
    (quoted : Text → Text) where
  abbrev pub load : List Text → List (Text × Option O) × List ProjectionError
  load = load_partition_states is_empty get_projection quoted

  abbrev pub Loaded : List Text → Text → Type 0
  Loaded keys pk = flat (lookup pk (load keys).0) ≡ saved_state is_empty get_projection pk

  load-skipped :
      (k : Text) (keys : List Text)
      → text_eq k global_partition ≡ true
      → load (k ∷ keys) ≡ load keys
  unfolding load_partition_states
  load-skipped k keys skipped = rw (skipped, load_partition_states) refl

  load-kept :
      (k : Text) (keys : List Text)
      → text_eq k global_partition ≡ false
      → load (k ∷ keys) ≡ keep_load quoted k (load_one is_empty get_projection k) (load keys)
  unfolding load_partition_states
  load-kept k keys kept = rw (kept, load_partition_states) refl

  load-errs : (k : Text) (keys : List Text) → (load (k ∷ keys)).1 ≡ [] → (load keys).1 ≡ []
  load-errs k keys fine = elim (Bool-cases (text_eq k global_partition)) [
    | inl skipped ↦ ap (λ r. r.1) (sym (load-skipped k keys skipped)) ∙ fine
    | inr kept ↦
        keep_load-errs quoted k _ (load keys) (ap (λ r. r.1) (sym (load-kept k keys kept)) ∙ fine)
  ]

  abbrev Before : List Text → Text → Type 0
  Before keys pk = (flat (lookup pk (load keys).0) ≡ none) ⊎ Loaded keys pk

  load_self :
      (k : Text) (keys : List Text)
      → (load (k ∷ keys)).1 ≡ []
      → text_eq k global_partition ≡ false
      → Before keys k
      → Loaded (k ∷ keys) k
  load_self k keys fine kept before =
      let step = load-kept k keys kept in
      ap (λ r. flat (lookup k r.0)) step
      ∙ keep_load_self quoted k _ (load keys) (ap (λ r. r.1) (sym step) ∙ fine) before

  -- One key more changes nothing for another key.
  load-more :
      (k : Text) (keys : List Text) (pk : Text)
      → (load (k ∷ keys)).1 ≡ []
      → Before keys pk
      → (flat (lookup pk (load (k ∷ keys)).0) ≡ flat (lookup pk (load keys).0))
        ⊎ Loaded (k ∷ keys) pk
  load-more k keys pk fine before = elim (Bool-cases (text_eq k global_partition)) [
    | inl skipped ↦ inl (ap (λ r. flat (lookup pk r.0)) (load-skipped k keys skipped))
    | inr kept ↦ elim (Bool-cases (text_eq k pk)) [
      | inr other ↦ inl (
          ap (λ r. flat (lookup pk r.0)) (load-kept k keys kept)
          ∙ ap flat (keep_load-other quoted k pk _ (load keys) other))
      | inl same ↦
          let here : k ≡ pk = text_eq→eq k pk same in
          inr (
            subst (Loaded (k ∷ keys)) here
              (load_self k keys fine kept (subst (Before keys) (sym here) before)))
    ]
  ]

  load-Before : (keys : List Text) (pk : Text) → (load keys).1 ≡ [] → Before keys pk
  unfolding load_partition_states lookup
  load-Before [] pk fine = inl refl
  load-Before (k ∷ keys) pk fine =
      let before = load-Before keys pk (load-errs k keys fine) in
      elim (load-more k keys pk fine before) [
        | inr loaded ↦ inr loaded
        | inl same ↦ elim before [ inl e ↦ inl (same ∙ e) | inr e ↦ inr (same ∙ e) ]
      ]

  Loaded-more :
      (k : Text) (keys : List Text) (pk : Text)
      → (load (k ∷ keys)).1 ≡ []
      → Loaded keys pk
      → Loaded (k ∷ keys) pk
  Loaded-more k keys pk fine loaded = elim (load-more k keys pk fine (inr loaded)) [
    | inr now ↦ now
    | inl same ↦ same ∙ loaded
  ]

  pub load-global :
      (keys : List Text) → (load keys).1 ≡ [] → flat (lookup global_partition (load keys).0) ≡ none
  unfolding load_partition_states lookup
  load-global [] fine = refl
  load-global (k ∷ keys) fine =
      let rest = load-global keys (load-errs k keys fine) in
      elim (Bool-cases (text_eq k global_partition)) [
        | inl skipped ↦
            ap (λ r. flat (lookup global_partition r.0)) (load-skipped k keys skipped) ∙ rest
        | inr kept ↦
            ap (λ r. flat (lookup global_partition r.0)) (load-kept k keys kept)
            ∙ ap flat (keep_load-other quoted k global_partition _ (load keys) kept)
            ∙ rest
      ]

  -- Where no load fails, each partition of the keys but the global one has its saved state.
  pub load-Loaded :
      (keys : List Text)
      → (load keys).1 ≡ []
      → All (λ k. (text_eq k global_partition ≡ true) ⊎ Loaded keys k) keys
  load-Loaded [] fine = tt
  load-Loaded (k ∷ keys) fine =
      let fine' = load-errs k keys fine in
      (
        elim (Bool-cases (text_eq k global_partition)) [
          | inl skipped ↦ inl skipped
          | inr kept ↦ inr (load_self k keys fine kept (load-Before keys k fine'))
        ],
        All-map (λ j h. elim h [ inl g ↦ inl g | inr l ↦ inr (Loaded-more k keys j fine l) ]) keys
            (load-Loaded keys fine'),
      )
