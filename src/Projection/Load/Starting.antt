-- ===== src/Projection/Load/Starting.antt =====
-- The states that a batch of `processManaged` of ironflow/projection_runner.go starts from, for the
-- partition of each of its events.
use ironflow_go.Prelude.{
  All-map, ◌≡◌, refl, sym, ap, ◌∙◌, subst, Option, none, some, List, [], ◌∷◌, Text, true, false,
  text_eq, text_eq→eq, text_eq_refl, lookup, lookup-insert, lookup-insert_self, Bool-cases,
  Option-cases, All, ◌⊎◌, inl, inr, if◌then◌else◌,
}
use mathlib.Core.Bool.{false≢true}
use ironflow_go.Projection.Errors.{ProjectionError}
use ironflow_go.Projection.Batch.{PollEvent, Reducer, global_partition, partition_of}
use ironflow_go.Projection.Load.{
  has_partition, partitions_of, Answer, answered, Saved, PollResponse, object_of, non_object_state,
  join_errors, with_current, start_states, uses_global,
}
use ironflow_go.Projection.Load.Starts.{saved_state, load, load-Loaded, load-global, flat}

join_errors-nil : (errs : List ProjectionError) → join_errors errs ≡ none → errs ≡ []
join_errors-nil [] h = refl
join_errors-nil (e ∷ errs) h = elim (Option-cases (join_errors errs)) [
  | inl none_more ↦ absurd (cc (rw (none_more) at h))
  | inr (f, more) ↦ absurd (cc (rw (more) at h))
]

All-has_partition :
    (P : Text → Type 0) (pk : Text) (keys : List Text)
    → has_partition pk keys ≡ true
    → All P keys
    → P pk
unfolding has_partition
All-has_partition P pk [] h all = absurd cc
All-has_partition P pk (k ∷ keys) h (p, all) = elim (Bool-cases (text_eq k pk)) [
  | inl same ↦ subst P (text_eq→eq k pk same) p
  | inr other ↦ All-has_partition P pk keys (rw (other, has_partition) at h) all
]

-- What holds of each partition of a batch holds of that of each event.
All-partitions_of :
    {O V : Type 0} (P : Text → Type 0) (events : List (PollEvent O V))
    → All P (partitions_of events)
    → All (λ e. P (partition_of e)) events
unfolding partitions_of
All-partitions_of P [] all = tt
All-partitions_of P (e ∷ events) all =
    elim (Bool-cases (has_partition (partition_of e) (partitions_of events))) [
      | inl there ↦
          let all' : All P (partitions_of events) = rw (there, partitions_of) at all in
          (
            All-has_partition P (partition_of e) (partitions_of events) there all',
            All-partitions_of P events all',
          )
      | inr new ↦
          let all' : P (partition_of e) × All P (partitions_of events) =
            rw (new, partitions_of) at all in
          (all'.0, All-partitions_of P events all'.1)
    ]

with_current-global :
    {O : Type 0} (current : Option O) (states : List (Text × Option O))
    → flat (lookup global_partition states) ≡ none
    → flat (lookup global_partition (with_current current states)) ≡ current
with_current-global none states no_global = no_global
with_current-global (some o) states no_global =
    ap flat (lookup-insert_self global_partition (some o) states)

text_eq_sym_ne : (a b : Text) → text_eq a b ≡ false → text_eq b a ≡ false
text_eq_sym_ne a b ne = elim (Bool-cases (text_eq b a)) [
  | inr other ↦ other
  | inl same ↦ absurd (false≢true (sym ne ∙ ap (text_eq a) (text_eq→eq b a same) ∙ text_eq_refl a))
]

with_current-other :
    {O : Type 0} (pk : Text) (current : Option O) (states : List (Text × Option O))
    → text_eq pk global_partition ≡ false
    → lookup pk (with_current current states) ≡ lookup pk states
with_current-other pk none states ne = refl
with_current-other pk (some o) states ne =
    lookup-insert global_partition pk (some o) states
    ∙ ap (λ b. if b then some (some o) else lookup pk states)
        (text_eq_sym_ne pk global_partition ne)

-- What the server says a partition's state is.
abbrev pub start_of :
    {O V : Type 0} → Reducer O V → (Text → Answer (Saved O)) → PollResponse O V → Text → Option O
start_of reducer get_projection resp pk =
    if text_eq pk global_partition
    then object_of reducer.is_empty resp.current
    else saved_state reducer.is_empty get_projection pk

module _ {O V : Type 0} (reducer : Reducer O V) (get_projection : Text → Answer (Saved O))
    (quoted : Text → Text) where
  abbrev loaded : PollResponse O V → List (Text × Option O) × List ProjectionError
  loaded resp = load reducer.is_empty get_projection quoted (partitions_of resp.events)

  flat-with_current :
      (resp : PollResponse O V) (pk : Text) (states : List (Text × Option O))
      → flat (lookup global_partition states) ≡ none
      → ((text_eq pk global_partition ≡ true)
          ⊎ (flat (lookup pk states) ≡ saved_state reducer.is_empty get_projection pk))
      → flat (lookup pk (with_current (object_of reducer.is_empty resp.current) states))
        ≡ start_of reducer get_projection resp pk
  flat-with_current resp pk states no_global here =
      elim (Bool-cases (text_eq pk global_partition)) [
        | inl is_global ↦ rw (is_global) (
            ap
              (λ k. flat (lookup k (with_current (object_of reducer.is_empty resp.current) states)))
              (text_eq→eq pk _ is_global)
            ∙ with_current-global (object_of reducer.is_empty resp.current) states no_global)
        | inr other ↦ elim here [
          | inl is_global ↦ absurd (false≢true (sym other ∙ is_global))
          | inr found ↦ rw (other) (
              ap flat (with_current-other pk (object_of reducer.is_empty resp.current) states other)
              ∙ found)
        ]
      ]

  pub start_states-All :
      (resp : PollResponse O V) (states : List (Text × Option O))
      → start_states reducer get_projection quoted resp ≡ answered states
      → All
          (λ e.
            flat (lookup (partition_of e) states)
            ≡ start_of reducer get_projection resp (partition_of e))
          resp.events
  unfolding start_states
  start_states-All resp states h =
      elim (Option-cases
        (if uses_global resp.events then non_object_state resp.current else none)) [
          | inr (e, bad) ↦ absurd (cc (rw (bad, start_states) at h))
          | inl fine ↦ elim (Option-cases (join_errors (loaded resp).1)) [
            | inr (e, bad) ↦ absurd (cc (rw (fine, bad, start_states) at h))
            | inl no_error ↦
                let none_failed = join_errors-nil (loaded resp).1 no_error in
                let is_states : with_current (object_of reducer.is_empty resp.current)
                      (loaded resp).0
                    ≡ states =
                  cc (rw (fine, no_error, start_states) at h) in
                subst
                  (λ s.
                    All
                      (λ e.
                        flat (lookup (partition_of e) s)
                        ≡ start_of reducer get_projection resp (partition_of e))
                      resp.events)
                  is_states
                  (All-partitions_of
                    (λ pk.
                      flat (
                        lookup pk
                          (with_current (object_of reducer.is_empty resp.current) (loaded resp).0))
                      ≡ start_of reducer get_projection resp pk)
                    resp.events
                    (All-map
                      (λ pk here.
                        flat-with_current resp pk (loaded resp).0
                          (load-global reducer.is_empty get_projection quoted _ none_failed) here)
                      _
                      (load-Loaded reducer.is_empty get_projection quoted
                        (partitions_of resp.events) none_failed)))
          ]
        ]
