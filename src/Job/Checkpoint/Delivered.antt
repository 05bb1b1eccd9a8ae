-- ===== src/Job/Checkpoint/Delivered.antt =====
-- A pull job's checkpoints against the list of steps it executed, over all orders of recorded steps
-- and flushes, of which any may be cancelled or go unanswered.
use ironflow_go.Prelude.{
  ℕ, ◌+◌, ◌≡◌, refl, sym, ap, ◌∙◌, inl, inr, Option, none, some, Option-cases, List, [], ◌∷◌, ◌++◌,
  All, arith, length, take, drop, length-append, take-append-drop,
}
use mathlib.Core.List.{append_assoc, append-nil}
use ironflow_go.Errors.{Err}
use ironflow_go.Exec.{StepResult}
use ironflow_go.Job.Encode.{Encoder, encodable_steps}
use ironflow_go.Job.Encode.Kept.{encodable_steps_split}
use ironflow_go.Job.Checkpoint.{StepCheckpointer, tail, send_chunk, flush, max_checkpoint_steps}

-- A report of progress that the server received.
pub record Chunk (V : Type 0) : Type 0 where
  pub offset : ℕ
  pub steps : List (StepResult V)

-- The server answers what `reply` says; a report whose answer is an error was received all the same.
pub record Server (V : Type 0) : Type 0 where
  pub context_error : Option (Err V)
  pub reply : Option (Err V)
  pub received : List (Chunk V)
  pub acknowledged : List (StepResult V)

abbrev pub acknowledge :
    {V : Type 0} → Option (Err V) → List (StepResult V) → List (StepResult V) → List (StepResult V)
acknowledge none steps before = before ++ steps
acknowledge (some e) steps before = before

abbrev pub receive : {V : Type 0} → List (StepResult V) → ℕ → Server V → Option (Err V) × Server V
receive steps offset server = (
  server.reply,
  record server {
    received = record { offset = offset; steps = steps } ∷ server.received;
    acknowledged = acknowledge server.reply steps server.acknowledged;
  },
)

-- A step is recorded, or the ticker fires.
pub data CheckpointEvent (V : Type 0) : Type 0 where
  recorded : StepResult V → CheckpointEvent V
  ticked : Option (Err V) → Option (Err V) → CheckpointEvent V

pub record Progress (V : Type 0) : Type 0 where
  pub executed : List (StepResult V)
  pub checkpointer : StepCheckpointer
  pub server : Server V

abbrev pub begin : {V : Type 0} → ℕ → Progress V
begin base = record {
  executed = [];
  checkpointer = record { base = base; cursor = 0 };
  server = record { context_error = none; reply = none; received = []; acknowledged = [] };
}

module _ {V : Type 0} (encoder : Encoder V) where
  unfoldable pub happen : CheckpointEvent V → Progress V → Progress V
  happen (recorded s) p = record p { executed = p.executed ++ s ∷ [] }
  happen (ticked context_error reply) p =
      let (_, c, server) =
        flush encoder Server.context_error receive p.executed p.checkpointer
          (record p.server { context_error = context_error; reply = reply }) in
      record p { checkpointer = c; server = server }

  unfoldable pub progress_after : List (CheckpointEvent V) → Progress V → Progress V
  progress_after [] p = p
  progress_after (e ∷ events) p = progress_after events (happen e p)

-- A chunk holds the executed steps from its offset on.
abbrev pub Placed : {V : Type 0} → ℕ → List (StepResult V) → Chunk V → Type 0
Placed {V} base executed chunk =
    (before : List (StepResult V)) × (after : List (StepResult V)) × (executed
      ≡ before ++ chunk.steps ++ after)
    × (chunk.offset ≡ base + length before)

abbrev pub Tracks : {V : Type 0} → ℕ → Progress V → Type 0
Tracks {V} base p =
    (rest : List (StepResult V)) × (p.executed ≡ p.server.acknowledged ++ rest)
    × (p.checkpointer.cursor ≡ length p.server.acknowledged)
    × (p.checkpointer.base ≡ base)
    × All (Placed base p.executed) p.server.received

module _ {V : Type 0} where
  drop-length : (xs ys : List (StepResult V)) → drop (length xs) (xs ++ ys) ≡ ys
  drop-length [] ys = refl
  drop-length (x ∷ xs) ys = drop-length xs ys

  drop-cursor :
      (n : ℕ) (executed done rest : List (StepResult V))
      → n ≡ length done
      → executed ≡ done ++ rest
      → drop n executed ≡ rest
  drop-cursor n executed done rest at split =
      ap (λ k. drop k executed) at ∙ ap (λ xs. drop (length done) xs) split ∙ drop-length done rest

  All-grows :
      (base : ℕ) (executed more : List (StepResult V)) (chunks : List (Chunk V))
      → All (Placed base executed) chunks
      → All (Placed base (executed ++ more)) chunks
  All-grows base executed more [] h = tt
  All-grows base executed more (c ∷ chunks) ((before, after, split, at), h) = (
    (
      before,
      after ++ more,
      ap (λ t. t ++ more) split ∙ append_assoc (before ++ c.steps) after more,
      at,
    ),
    All-grows base executed more chunks h,
  )

module _ {V : Type 0} (encoder : Encoder V) where
  kept-prefix :
      (n : ℕ) (rest : List (StepResult V))
      → (more : List (StepResult V)) × (rest ≡ (encodable_steps encoder (take n rest)).0 ++ more)
  kept-prefix n rest = elim (encodable_steps_split encoder (take n rest)) [
    | inl (e, same) ↦
        (drop n rest, sym (take-append-drop n rest) ∙ ap (λ t. t ++ drop n rest) (sym same))
    | inr (bad, after, e, m, split, _, _, _, _, _) ↦ (
      (bad ∷ after) ++ drop n rest,
      sym (take-append-drop n rest)
          ∙ ap (λ t. t ++ drop n rest) split
          ∙ append_assoc (encodable_steps encoder (take n rest)).0 (bad ∷ after) (drop n rest),
    )
  ]

  send_chunk-Tracks :
      (base : ℕ) (reply : Option (Err V)) (p : Progress V) (steps more : List (StepResult V))
      → p.server.reply ≡ reply
      → p.executed ≡ p.server.acknowledged ++ steps ++ more
      → p.checkpointer.cursor ≡ length p.server.acknowledged
      → p.checkpointer.base ≡ base
      → All (Placed base p.executed) p.server.received
      → (let sent = send_chunk encoder Server.context_error receive steps p.checkpointer p.server in
          Tracks base (record p { checkpointer = sent.1; server = sent.2 }))
  unfolding send_chunk
  send_chunk-Tracks base reply p [] more same split at same_base placed =
      (more, split ∙ ap (λ t. t ++ more) (append-nil p.server.acknowledged), at, same_base, placed)
  send_chunk-Tracks base none p (s ∷ steps) more same split at same_base placed = rw (same) (
    more,
    split,
    ap (λ t. t + length (s ∷ steps)) at ∙ sym (length-append p.server.acknowledged (s ∷ steps)),
    same_base,
    ((p.server.acknowledged, more, split, omega (arith, at, same_base)), placed),
  )
  send_chunk-Tracks base (some e) p (s ∷ steps) more same split at same_base placed = rw (same) (
    (s ∷ steps) ++ more,
    split ∙ append_assoc p.server.acknowledged (s ∷ steps) more,
    at,
    same_base,
    ((p.server.acknowledged, more, split, omega (arith, at, same_base)), placed),
  )

  flush-Tracks :
      (base : ℕ) (p : Progress V)
      → Tracks base p
      → (let sent = flush encoder Server.context_error receive p.executed p.checkpointer p.server in
          Tracks base (record p { checkpointer = sent.1; server = sent.2 }))
  unfolding flush
  flush-Tracks base p (rest, split, at, same_base, placed) =
      elim (Option-cases p.server.context_error) [
        | inr (e, cancelled) ↦ rw (cancelled) (rest, split, at, same_base, placed)
        | inl running ↦
            rw
              (
                running,
                drop-cursor p.checkpointer.cursor p.executed p.server.acknowledged rest at split,
              )
              (let (more, prefix) = kept-prefix max_checkpoint_steps rest in
                send_chunk-Tracks base p.server.reply
                  (record p { server = record p.server { context_error = none } })
                  (encodable_steps encoder (take max_checkpoint_steps rest)).0 more refl
                  (split
                    ∙ ap (λ t. p.server.acknowledged ++ t) prefix
                    ∙ sym (
                        append_assoc p.server.acknowledged
                          (encodable_steps encoder (take max_checkpoint_steps rest)).0 more))
                  at same_base placed)
      ]

  happen-Tracks :
      (base : ℕ) (event : CheckpointEvent V) (p : Progress V)
      → Tracks base p
      → Tracks base (happen encoder event p)
  unfolding happen
  happen-Tracks base (recorded s) p (rest, split, at, same_base, placed) = (
    rest ++ s ∷ [],
    ap (λ t. t ++ s ∷ []) split ∙ append_assoc p.server.acknowledged rest (s ∷ []),
    at,
    same_base,
    All-grows base p.executed (s ∷ []) p.server.received placed,
  )
  happen-Tracks base (ticked context_error reply) p (rest, split, at, same_base, placed) =
      flush-Tracks base
        (record p { server = record p.server { context_error = context_error; reply = reply } })
        (rest, split, at, same_base, placed)

  progress_after-Tracks :
      (base : ℕ) (events : List (CheckpointEvent V)) (p : Progress V)
      → Tracks base p
      → Tracks base (progress_after encoder events p)
  unfolding progress_after
  progress_after-Tracks base [] p h = h
  progress_after-Tracks base (e ∷ events) p h =
      progress_after-Tracks base events (happen encoder e p) (happen-Tracks base e p h)

  -- After any sequence of recorded steps and flushes of a job that starts at position `base`, each
  -- flush cancelled or not and answered by an error or not: what the server acknowledged, followed by
  -- the tail that the final report carries, is the list of executed steps, each once and in order;
  -- the tail's offset is `base` plus the number of acknowledged steps; and every chunk the server
  -- received, acknowledged or not, holds the executed steps from its offset on.
  pub checkpoints_and_tail :
      (base : ℕ) (events : List (CheckpointEvent V))
      → (let p = progress_after encoder events (begin base) in
          (p.server.acknowledged ++ (tail p.executed p.checkpointer).0 ≡ p.executed)
          × ((tail p.executed p.checkpointer).1 ≡ base + length p.server.acknowledged)
          × All (Placed base p.executed) p.server.received)
  checkpoints_and_tail base events =
      let p = progress_after encoder events (begin base) in
      let (rest, split, at, same_base, placed) =
        progress_after-Tracks base events (begin base) ([], refl, refl, refl, tt) in
      (
        ap (λ t. p.server.acknowledged ++ t)
              (drop-cursor p.checkpointer.cursor p.executed p.server.acknowledged rest at split)
            ∙ sym split,
        omega (arith, at, same_base),
        placed,
      )
