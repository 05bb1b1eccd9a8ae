-- ===== src/Dedup.antt =====
-- ironflow/command_dedup.go: `CommandDedup`, idempotent commands over a bucket of the key-value store.
-- The bucket's operations (ironflow/kv.go, which calls the server) are parameters over a world of type
-- `W`: each answers with a value or is refused with an HTTP status. So are JSON and `%q`.
pub mod Holds
pub mod Once
use ironflow_go.Prelude.{
  ℕ, zero, suc, Option, none, some, ◌++◌, Text, codes, Bool, true, false, not, ◌==◌, ◌&&◌,
  if◌then◌else◌,
}
use ironflow_go.Errors.{Err, foreign, new_error}
use ironflow_go.Exec.Run.{Try, done, failed}

pub data KvReply (V A : Type 0) : Type 0 where
  kv_value : A → KvReply V A
  kv_refused : ℕ → Err V → KvReply V A

pub record KvBucket (V W : Type 0) : Type 0 where
  pub create_bucket : W → KvReply V (Unit {0}) × W
  pub create : Text → Text → W → KvReply V (Unit {0}) × W
  pub get : Text → W → KvReply V Text × W
  pub put : Text → Text → W → KvReply V (Unit {0}) × W
  pub delete : Text → W → KvReply V (Unit {0}) × W

-- `sync.Once` and what it left.
pub record CommandDedup (V : Type 0) : Type 0 where
  pub once : Bool
  pub init_err : Option (Err V)

-- `(nil, nil)`, the prior entry, or an error.
pub data ClaimResult (V T : Type 0) : Type 0 where
  won : ClaimResult V T
  prior : T → ClaimResult V T
  claim_error : Err V → ClaimResult V T

abbrev pub claim_attempts : ℕ
claim_attempts = 3

module _ {V W : Type 0} (kv : KvBucket V W) where
  abbrev pub bucket_error : KvReply V (Unit {0}) → Option (Err V)
  bucket_error (kv_value u) = none
  bucket_error (kv_refused status e) = if status == 409 then none else some e

  -- The bucket is created once; that it exists already is no error.
  unfoldable pub ensure_bucket : CommandDedup V → W → CommandDedup V × W
  ensure_bucket d w =
      if d.once
      then (d, w)
      else (let (answer, w') = kv.create_bucket w in
          (record { once = true; init_err = bucket_error answer }, w'))

  abbrev pub new_command_dedup : W → CommandDedup V × W
  new_command_dedup = ensure_bucket (record { once = false; init_err = none })

  abbrev pub reply_error : KvReply V (Unit {0}) → Option (Err V)
  reply_error (kv_value u) = none
  reply_error (kv_refused status e) = some e

  module _ {T : Type 0} (marshal : T → Try Text) (unmarshal : Text → Try T)
      (quoted : Text → Text) where
    -- A prior entry is this caller's own where `IsOwner`, if there is one, says so.
    unfoldable pub read_prior : Option (T → Bool) → Text → ClaimResult V T
    read_prior is_owner bytes = elim (unmarshal bytes) [
      | failed m ↦ claim_error (foreign m)
      | done p ↦ elim is_owner [ none ↦ prior p | some owns ↦ if owns p then won else prior p ]
    ]

    -- One round: create, and read back where the key is taken; where it is gone by then, `again`.
    unfoldable pub claim_round :
        Option (T → Bool) → Text → Text → (W → ClaimResult V T × W) → W → ClaimResult V T × W
    unfolding read_prior
    claim_round is_owner id bytes again w =
        let (created, w1) = kv.create id bytes w in
        elim created [
          | kv_value u ↦ (won, w1)
          | kv_refused status e ↦
              if not (status == 412)
              then (claim_error e, w1)
              else (let (entry, w2) = kv.get id w1 in
                  elim entry [
                    | kv_value found ↦ (read_prior is_owner found, w2)
                    | kv_refused status' e' ↦
                        if status' == 404 then again w2 else (claim_error e', w2)
                  ])
        ]

    unfoldable pub claim_rounds : ℕ → Option (T → Bool) → Text → Text → W → ClaimResult V T × W
    claim_rounds zero is_owner id bytes w = (
      claim_error (
          new_error
            (codes "command dedup: claim for " ++ quoted id ++ codes " lost the race 3 times")
            (codes "COMMAND_DEDUP_RACE") false),
      w,
    )
    claim_rounds (suc n) is_owner id bytes w =
        claim_round is_owner id bytes (claim_rounds n is_owner id bytes) w

    -- `TryClaim`
    unfoldable pub try_claim :
        CommandDedup V → Text → T → Option (T → Bool) → W → ClaimResult V T × W
    try_claim d id claim is_owner w =
        let (d', w1) = ensure_bucket d w in
        elim d'.init_err [
          | some e ↦ (claim_error e, w1)
          | none ↦ elim (marshal claim) [
            | failed m ↦ (claim_error (foreign m), w1)
            | done bytes ↦ claim_rounds claim_attempts is_owner id bytes w1
          ]
        ]

    -- `Finalize`: nil, or the error.
    unfoldable pub finalize : CommandDedup V → Text → T → W → Option (Err V) × W
    finalize d id result w =
        let (d', w1) = ensure_bucket d w in
        elim d'.init_err [
          | some e ↦ (some e, w1)
          | none ↦ elim (marshal result) [
            | failed m ↦ (some (foreign m), w1)
            | done bytes ↦ let (answer, w2) = kv.put id bytes w1 in (reply_error answer, w2)
          ]
        ]

  abbrev pub release_error : KvReply V (Unit {0}) → Option (Err V)
  release_error (kv_value u) = none
  release_error (kv_refused status e) = if status == 404 then none else some e

  -- `Release`: that the entry is gone already is no error.
  unfoldable pub release : CommandDedup V → Text → W → Option (Err V) × W
  release d id w =
      let (d', w1) = ensure_bucket d w in
      elim d'.init_err [
        | some e ↦ (some e, w1)
        | none ↦ let (answer, w2) = kv.delete id w1 in (release_error answer, w2)
      ]
