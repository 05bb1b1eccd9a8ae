-- ===== src/Projection/Stream/Batches.antt =====
-- The batches that `readStream` of ironflow/projection_runner.go processes.
use ironflow_go.Prelude.{
  ℕ, ◌≤◌, ◌<◌, ◌≡◌, refl, sym, ap, ◌∙◌, subst, Option, List, [], ◌∷◌, ◌++◌, true, false, ltb,
  length, length-append, Bool-cases, Option-cases, ◌⊎◌, inl, inr, All, arith,
}
use mathlib.Core.List.{append_assoc, append-nil}
use ironflow_go.Projection.Errors.{ProjectionError, err_is}
use ironflow_go.Projection.Batch.{PollEvent}
use ironflow_go.Projection.Stream.{
  Input, frame, heartbeat, stream_ended, flush_due, lost_lease, stop_asked, Reading, Read, reads_on,
  read_ends, flush_batch, end_stream, is_lease_lost, read_input, unless_ended, read_stream,
}

abbrev pub begin_reading : {O V : Type 0} → Reading O V
begin_reading = record { pending = []; armed = false; received = false; progressed = false }

module _ {O V : Type 0} where
  abbrev pub frames : List (Input O V) → List (PollEvent O V)
  frames [] = []
  frames (frame e ∷ inputs) = e ∷ frames inputs
  frames (heartbeat ∷ inputs) = frames inputs
  frames (stream_ended error ∷ inputs) = frames inputs
  frames (flush_due ∷ inputs) = frames inputs
  frames (lost_lease ∷ inputs) = frames inputs
  frames (stop_asked is_lost ∷ inputs) = frames inputs

  abbrev pub concat : List (List (PollEvent O V)) → List (PollEvent O V)
  concat [] = []
  concat (batch ∷ batches) = batch ++ concat batches

  concat-append :
      (batches others : List (List (PollEvent O V)))
      → concat (batches ++ others) ≡ concat batches ++ concat others
  concat-append [] others = refl
  concat-append (batch ∷ batches) others =
      ap (λ l. batch ++ l) (concat-append batches others)
      ∙ sym (append_assoc batch (concat batches) (concat others))

  module _ (refuses : List (PollEvent O V) → List (List (PollEvent O V)) → Option ProjectionError)
      (batch_size : ℕ) where
    -- Every batch that is begun is written down.
    abbrev pub logged :
        List (PollEvent O V)
        → List (List (PollEvent O V))
        → Option ProjectionError × List (List (PollEvent O V))
    logged batch batches = (refuses batch batches, batches ++ batch ∷ [])

    abbrev pub Short : List (PollEvent O V) → Type 0
    Short batch = length batch ≤ batch_size

    abbrev left_of : Read O V → List (PollEvent O V)
    left_of (reads_on s) = s.pending
    left_of (read_ends progressed error) = []

    -- Where the batches begun so far and the pending events stand, after an input.
    abbrev pub Kept : List (PollEvent O V) → Read O V → List (List (PollEvent O V)) → Type 0
    Kept events (reads_on s) batches =
        (concat batches ++ s.pending ≡ events) × (length s.pending < batch_size) × All Short batches
    Kept events (read_ends progressed error) batches =
        ((dropped : List (PollEvent O V)) × (concat batches ++ dropped ≡ events)
          × ((dropped ≡ []) ⊎ (is_lease_lost error ≡ true)))
        × All Short batches

    All-append :
        (batches : List (List (PollEvent O V))) (batch : List (PollEvent O V))
        → All Short batches
        → Short batch
        → All Short (batches ++ batch ∷ [])
    All-append [] batch all ok = (ok, tt)
    All-append (b ∷ batches) batch (p, all) ok = (p, All-append batches batch all ok)

    begun :
        (batch : List (PollEvent O V)) (batches : List (List (PollEvent O V)))
        (events : List (PollEvent O V))
        → concat batches ++ batch ≡ events
        → concat (batches ++ batch ∷ []) ++ [] ≡ events
    begun batch batches events same =
        append-nil _
        ∙ concat-append batches (batch ∷ [])
        ∙ ap (λ l. concat batches ++ l) (append-nil batch)
        ∙ same

    flush_batch-Kept :
        (events : List (PollEvent O V)) (s : Reading O V) (batches : List (List (PollEvent O V)))
        → 1 ≤ batch_size
        → concat batches ++ s.pending ≡ events
        → length s.pending ≤ batch_size
        → All Short batches
        → Kept events (flush_batch logged s batches).0 (flush_batch logged s batches).1
    unfolding flush_batch
    flush_batch-Kept events s batches some_size same short all =
        let all' = All-append batches s.pending all short in
        let whole = begun s.pending batches events same in
        elim (Option-cases (refuses s.pending batches)) [
          | inr (e, bad) ↦ rw (bad, flush_batch) (([], whole, inl refl), all')
          | inl fine ↦ rw (fine, flush_batch) (whole, some_size, all')
        ]

    end_stream-Kept :
        (events : List (PollEvent O V)) (stream_error : Option ProjectionError) (s : Reading O V)
        (batches : List (List (PollEvent O V)))
        → concat batches ++ s.pending ≡ events
        → length s.pending ≤ batch_size
        → All Short batches
        → Kept events
            (end_stream logged stream_error s batches).0
            (end_stream logged stream_error s batches).1
    unfolding end_stream
    end_stream-Kept events stream_error s batches same short all =
        let all' = All-append batches s.pending all short in
        elim (Option-cases (refuses s.pending batches)) [
          | inr (e, bad) ↦
              rw (bad, end_stream) (([], begun s.pending batches events same, inl refl), all')
          | inl fine ↦
              rw (fine, end_stream) (([], begun s.pending batches events same, inl refl), all')
        ]

    read_input-Kept :
        (events : List (PollEvent O V)) (input : Input O V) (s : Reading O V)
        (batches : List (List (PollEvent O V)))
        → 1 ≤ batch_size
        → Kept events (reads_on s) batches
        → Kept
            (events ++ frames (input ∷ []))
            (read_input logged batch_size input s batches).0
            (read_input logged batch_size input s batches).1
    unfolding read_input err_is
    read_input-Kept events (frame e) s batches some_size (same, short, all) =
        let one_more : concat batches ++ (s.pending ++ e ∷ []) ≡ events ++ e ∷ [] =
          sym (append_assoc (concat batches) s.pending (e ∷ [])) ∙ ap (λ l. l ++ e ∷ []) same in
        let longer : length (s.pending ++ e ∷ []) ≤ batch_size =
          omega (arith, length-append s.pending (e ∷ [])) in
        elim (Bool-cases (ltb (length (s.pending ++ e ∷ [])) batch_size)) [
          | inl fits ↦ rw (fits, read_input) (one_more, ground arith, all)
          | inr full ↦
              rw (full, read_input)
                (flush_batch-Kept _ (record s { pending = s.pending ++ e ∷ []; received = true })
                  batches some_size one_more longer all)
        ]
    read_input-Kept events heartbeat s batches some_size (same, short, all) =
        (same ∙ sym (append-nil events), short, all)
    read_input-Kept events flush_due s batches some_size (same, short, all) =
        elim (Bool-cases s.armed) [
          | inl on ↦
              rw (on, read_input)
                (flush_batch-Kept _ s batches some_size (same ∙ sym (append-nil events))
                  (omega arith) all)
          | inr off ↦ rw (off, read_input) (same ∙ sym (append-nil events), short, all)
        ]
    read_input-Kept events (stream_ended stream_error) s batches some_size (same, short, all) =
        let same' = same ∙ sym (append-nil events) in
        elim (Bool-cases (is_lease_lost stream_error)) [
          | inl gone ↦ rw (gone, read_input) ((s.pending, same', inr gone), all)
          | inr other ↦
              rw (other, read_input)
                (end_stream-Kept _ stream_error s batches same' (omega arith) all)
        ]
    read_input-Kept events lost_lease s batches some_size (same, short, all) =
        ((s.pending, same ∙ sym (append-nil events), inr refl), all)
    read_input-Kept events (stop_asked true) s batches some_size (same, short, all) =
        ((s.pending, same ∙ sym (append-nil events), inr refl), all)
    read_input-Kept events (stop_asked false) s batches some_size (same, short, all) = (
      ([], begun s.pending batches _ (same ∙ sym (append-nil events)), inl refl),
      All-append batches s.pending all (omega arith),
    )

    frames-cons :
        (input : Input O V) (inputs : List (Input O V))
        → frames (input ∷ inputs) ≡ frames (input ∷ []) ++ frames inputs
    frames-cons (frame e) inputs = refl
    frames-cons heartbeat inputs = refl
    frames-cons flush_due inputs = refl
    frames-cons (stream_ended error) inputs = refl
    frames-cons lost_lease inputs = refl
    frames-cons (stop_asked is_lost) inputs = refl

    -- Once the loop has ended, the frames after those taken are unread.
    abbrev pub Gathers : List (PollEvent O V) → Read O V → List (List (PollEvent O V)) → Type 0
    Gathers events (reads_on s) batches = Kept events (reads_on s) batches
    Gathers events (read_ends progressed error) batches =
        (taken : List (PollEvent O V)) × (unread : List (PollEvent O V)) × (events
          ≡ taken ++ unread)
        × Kept taken (read_ends progressed error) batches

    unless_ended-Gathers :
        (events unread : List (PollEvent O V))
        (rest : Reading O V → List (List (PollEvent O V)) → Read O V × List (List (PollEvent O V)))
        (result : Read O V × List (List (PollEvent O V)))
        → Kept events result.0 result.1
        → ((s : Reading O V) (batches : List (List (PollEvent O V)))
            → Kept events (reads_on s) batches
            → Gathers (events ++ unread) (rest s batches).0 (rest s batches).1)
        → Gathers (events ++ unread) (unless_ended rest result).0 (unless_ended rest result).1
    unless_ended-Gathers events unread rest (reads_on s, batches) kept goes = goes s batches kept
    unless_ended-Gathers events unread rest (read_ends progressed error, batches) kept goes =
        (events, unread, refl, kept)

    read_stream-from :
        (inputs : List (Input O V)) (events : List (PollEvent O V)) (s : Reading O V)
        (batches : List (List (PollEvent O V)))
        → 1 ≤ batch_size
        → Kept events (reads_on s) batches
        → Gathers
            (events ++ frames inputs)
            (read_stream logged batch_size inputs s batches).0
            (read_stream logged batch_size inputs s batches).1
    unfolding read_stream
    read_stream-from [] events s batches some_size (same, short, all) =
        (same ∙ sym (append-nil events), short, all)
    read_stream-from (input ∷ inputs) events s batches some_size kept =
        let split : (events ++ frames (input ∷ [])) ++ frames inputs
            ≡ events ++ frames (input ∷ inputs) =
          append_assoc events (frames (input ∷ [])) (frames inputs)
          ∙ ap (λ l. events ++ l) (sym (frames-cons input inputs)) in
        let result = read_stream logged batch_size (input ∷ inputs) s batches in
        subst (λ l. Gathers l result.0 result.1) split
          (unless_ended-Gathers _ (frames inputs) (read_stream logged batch_size inputs)
            (read_input logged batch_size input s batches)
            (read_input-Kept events input s batches some_size kept)
            (λ s' batches' kept'. read_stream-from inputs _ s' batches' some_size kept'))

    -- The batches that a stream's loop begins, one after the other, are the frames that it received in
    -- their order, each of at most `batch_size` events. While it reads, fewer than `batch_size` frames
    -- are pending behind them; when it has ended, none was dropped unless the lease was lost.
    pub read_stream_lem :
        (inputs : List (Input O V))
        → 1 ≤ batch_size
        → Gathers
            (frames inputs)
            (read_stream logged batch_size inputs begin_reading []).0
            (read_stream logged batch_size inputs begin_reading []).1
    read_stream_lem inputs some_size =
        read_stream-from inputs [] begin_reading [] some_size (refl, some_size, tt)
