-- ===== src/Dedup/Holds.antt =====
-- What a claim answers is what the store holds for the command.
use ironflow_go.Prelude.{
  ℕ, zero, suc, ◌≡◌, refl, ◌⊎◌, inl, inr, Option, some, Option-cases, Text, Bool, true, Bool-cases,
  ◌==◌,
}
use ironflow_go.Errors.{Err}
use ironflow_go.Exec.Run.{Try, done}
use ironflow_go.Exec.Suspend.Events.{Try-cases}
use ironflow_go.Dedup.{
  KvReply, kv_value, kv_refused, KvBucket, CommandDedup, ClaimResult, won, prior, claim_error,
  ensure_bucket, read_prior, claim_round, claim_rounds, try_claim, claim_attempts,
}

module _ {V A : Type 0} where
  KvReply-cases :
      (r : KvReply V A)
      → ((a : A) × (r ≡ kv_value a)) ⊎ ((status : ℕ) × (e : Err V) × (r ≡ kv_refused status e))
  KvReply-cases (kv_value a) = inl (a, refl)
  KvReply-cases (kv_refused status e) = inr (status, e, refl)

-- The documented behaviour of a bucket, with the entry that the store holds for a key: a create that is
-- accepted leaves its value, and a read that is answered answers with the value that is held.
pub record KvLaws {V W : Type 0} (kv : KvBucket V W) : Type 0 where
  pub held : W → Text → Option Text
  pub created :
      (id bytes : Text) (w : W) (u : Unit {0})
      → (kv.create id bytes w).0 ≡ kv_value u
      → held (kv.create id bytes w).1 id ≡ some bytes
  pub read :
      (id found : Text) (w : W)
      → (kv.get id w).0 ≡ kv_value found
      → held (kv.get id w).1 id ≡ some found

module _ {V W T : Type 0} (kv : KvBucket V W) (laws : KvLaws kv) (marshal : T → Try Text)
    (unmarshal : Text → Try T) (quoted : Text → Text) (is_owner : Option (T → Bool))
    (id : Text) where
  -- A win holds the claim, or an entry that the caller owns; a prior entry is the one that is held.
  abbrev pub Answers : Text → ClaimResult V T × W → Type 0
  Answers bytes (won, w) =
      (laws.held w id ≡ some bytes)
      ⊎ ((found : Text) × (p : T) × (owns : T → Bool) × (laws.held w id ≡ some found)
          × (unmarshal found ≡ done p)
          × (is_owner ≡ some owns)
          × (owns p ≡ true))
  Answers bytes (prior p, w) =
      (found : Text) × (laws.held w id ≡ some found) × (unmarshal found ≡ done p)
  Answers bytes (claim_error e, w) = Unit

  read_prior-Answers :
      (bytes found : Text) (w : W)
      → laws.held w id ≡ some found
      → Answers bytes (read_prior kv marshal unmarshal quoted is_owner found, w)
  unfolding read_prior
  read_prior-Answers bytes found w held = elim (Try-cases (unmarshal found)) [
    | inl (m, bad) ↦ rw (bad, read_prior) tt
    | inr (p, good) ↦ elim (Option-cases is_owner) [
      | inl nobody ↦ rw (good, nobody, read_prior) (found, held, good)
      | inr (owns, given) ↦ elim (Bool-cases (owns p)) [
        | inl mine ↦
            rw (good, given, mine, read_prior) (inr (found, p, owns, held, good, refl, mine))
        | inr other ↦ rw (good, given, other, read_prior) (found, held, good)
      ]
    ]
  ]

  claim_round-Answers :
      (bytes : Text) (again : W → ClaimResult V T × W) (w : W)
      → ((w' : W) → Answers bytes (again w'))
      → Answers bytes (claim_round kv marshal unmarshal quoted is_owner id bytes again w)
  unfolding claim_round
  claim_round-Answers bytes again w h = elim (KvReply-cases (kv.create id bytes w).0) [
    | inl (u, accepted) ↦ rw (accepted, claim_round) (inl (laws.created id bytes w u accepted))
    | inr (status, e, refused) ↦ elim (Bool-cases (status == 412)) [
      | inr other ↦ rw (refused, other, claim_round) tt
      | inl taken ↦ elim (KvReply-cases (kv.get id (kv.create id bytes w).1).0) [
        | inl (found, entry) ↦
            rw (refused, taken, entry, claim_round)
              (read_prior-Answers bytes found (kv.get id (kv.create id bytes w).1).1
                (laws.read id found (kv.create id bytes w).1 entry))
        | inr (status', e', gone) ↦ elim (Bool-cases (status' == 404)) [
          | inl missing ↦ rw (refused, taken, gone, missing, claim_round) (h _)
          | inr broken ↦ rw (refused, taken, gone, broken, claim_round) tt
        ]
      ]
    ]
  ]

  claim_rounds-Answers :
      (n : ℕ) (bytes : Text) (w : W)
      → Answers bytes (claim_rounds kv marshal unmarshal quoted n is_owner id bytes w)
  unfolding claim_rounds
  claim_rounds-Answers zero bytes w = tt
  claim_rounds-Answers (suc n) bytes w =
      claim_round-Answers bytes (claim_rounds kv marshal unmarshal quoted n is_owner id bytes) w
        (claim_rounds-Answers n bytes)

  -- `TryClaim`, of a claim that encodes, over a bucket that behaves as documented, whatever other
  -- callers do between its operations: where it lets the caller proceed, the store holds the caller's
  -- claim, or an entry that `IsOwner` recognizes; where it returns a prior entry, that is what the
  -- store holds.
  pub try_claim_holds :
      (d : CommandDedup V) (claim : T) (bytes : Text) (w : W)
      → marshal claim ≡ done bytes
      → Answers bytes (try_claim kv marshal unmarshal quoted d id claim is_owner w)
  unfolding try_claim
  try_claim_holds d claim bytes w encodes = elim (Option-cases (ensure_bucket kv d w).0.init_err) [
    | inr (e, unusable) ↦ rw (unusable, try_claim) tt
    | inl usable ↦
        rw (usable, encodes, try_claim)
          (claim_rounds-Answers claim_attempts bytes (ensure_bucket kv d w).1)
  ]
