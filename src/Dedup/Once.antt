-- ===== src/Dedup/Once.antt =====
-- A command that is claimed is not claimed again.
use ironflow_go.Prelude.{◌≡◌, none, some, Text, true}
use ironflow_go.Errors.{Err}
use ironflow_go.Dedup.{kv_value, kv_refused, KvBucket, CommandDedup}
use ironflow_go.Dedup.Holds.{KvLaws}

-- After `NewCommandDedup` without an error.
abbrev pub ready : {V : Type 0} → CommandDedup V
ready = record { once = true; init_err = none }

-- No other caller acts between two operations: a key that is held is refused with 412 and stays, and
-- is read as it is.
pub record KvUndisturbed {V W : Type 0} (kv : KvBucket V W) (laws : KvLaws kv) : Type 0 where
  pub taken :
      (id bytes other : Text) (w : W)
      → laws.held w id ≡ some bytes
      → (e : Err V) × ((kv.create id other w).0 ≡ kv_refused 412 e)
        × (laws.held (kv.create id other w).1 id ≡ some bytes)
  pub found :
      (id bytes : Text) (w : W) → laws.held w id ≡ some bytes → (kv.get id w).0 ≡ kv_value bytes
