-- ===== src/Examples/Dedups.antt =====
-- A bucket that is an association list, and two claims of one command.
use ironflow_go.Prelude.{
  ℕ, ◌≡◌, refl, inl, inr, none, some, Option-cases, List, [], ◌∷◌, Text, codes, lookup, insert,
  lookup-insert_self,
}
use ironflow_go.Errors.{Err, foreign}
use ironflow_go.Exec.Run.{Try}
use ironflow_go.Dedup.{KvReply, kv_value, kv_refused, KvBucket, try_claim}
use ironflow_go.Dedup.Holds.{KvLaws, Answers, try_claim_holds}
use ironflow_go.Dedup.Once.{ready}
use ironflow_go.Examples.Fixtures.{marshal_number, unmarshal_number}

abbrev Entries : Type 0
Entries = List (Text × Text)

abbrev refusal : Err ℕ
refusal = foreign (codes "refused")

abbrev create_entry : Text → Text → Entries → KvReply ℕ (Unit {0}) × Entries
create_entry id bytes entries = elim (lookup id entries) [
  | none ↦ (kv_value tt, insert id bytes entries)
  | some found ↦ (kv_refused 412 refusal, entries)
]

abbrev get_entry : Text → Entries → KvReply ℕ Text × Entries
get_entry id entries = elim (lookup id entries) [
  | none ↦ (kv_refused 404 refusal, entries)
  | some found ↦ (kv_value found, entries)
]

abbrev list_bucket : KvBucket ℕ Entries
list_bucket = record {
  create_bucket = λ entries. (kv_value tt, entries);
  create = create_entry;
  get = get_entry;
  put = λ id bytes entries. (kv_value tt, insert id bytes entries);
  delete = λ id entries. (kv_value tt, entries);
}

created_entry :
    (id bytes : Text) (entries : Entries) (u : Unit {0})
    → (create_entry id bytes entries).0 ≡ kv_value u
    → lookup id (create_entry id bytes entries).1 ≡ some bytes
created_entry id bytes entries u accepted = elim (Option-cases (lookup id entries)) [
  | inl free ↦ rw (free, create_entry) (lookup-insert_self id bytes entries)
  | inr (found, held) ↦ cc (rw (held, create_entry) at accepted)
]

read_entry :
    (id found : Text) (entries : Entries)
    → (get_entry id entries).0 ≡ kv_value found
    → lookup id (get_entry id entries).1 ≡ some found
read_entry id found entries answered = elim (Option-cases (lookup id entries)) [
  | inl missing ↦ cc (rw (missing, get_entry) at answered)
  | inr (bytes, held) ↦
      let same : ◌≡◌ {A = KvReply ℕ Text} (kv_value bytes) (kv_value found) =
        rw (held, get_entry) at answered in
      rw (held, get_entry) cc
]

abbrev list_laws : KvLaws list_bucket
list_laws = record {
  held = λ entries id. lookup id entries;
  created = created_entry;
  read = read_entry;
}

abbrev marshal_seven : ℕ → Try Text
marshal_seven n = marshal_number (some n)

try_claim_holds_example :
    Answers list_bucket list_laws marshal_seven unmarshal_number
      (λ s. s)
      none
      (codes "c")
      (7 ∷ [])
      (try_claim list_bucket marshal_seven unmarshal_number (λ s. s) ready (codes "c") 7 none [])
try_claim_holds_example =
    try_claim_holds list_bucket list_laws marshal_seven unmarshal_number (λ s. s) none (codes "c")
      ready 7 (7 ∷ []) [] refl
