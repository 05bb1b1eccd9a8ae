-- ===== src/Upcaster.antt =====
-- ironflow/upcaster.go: the registry of functions that bring an event's data from one schema version
-- to the next. `IsRedacted` and the functions themselves are parameters; a version is a natural
-- number.
pub mod Chain
pub mod Register
use ironflow_go.Prelude.{
  ℕ, zero, suc, ◌+◌, ◌-◌, Option, none, some, List, [], ◌∷◌, Text, Bool, true, false, ltb, leb,
  ◌==◌, ◌||◌, if◌then◌else◌, lookup, insert,
}

-- `(json.RawMessage, error)`; the error's text is `fmt`'s and is not modelled.
pub data UpcastResult : Type 0 where
  data_ok : Text → UpcastResult
  chain_broken : ℕ → UpcastResult  -- no upcaster from this version on
  upcaster_failed : ℕ → Text → UpcastResult  -- the one at this version, with its error

-- What an `UpcasterFunc` returns: data, or the text of an error.
pub data Upcasted : Type 0 where
  to_data : Text → Upcasted
  to_error : Text → Upcasted

abbrev pub UpcasterFunc : Type 0
UpcasterFunc = Text → Upcasted

abbrev pub Versions : Type 0
Versions = List (ℕ × UpcasterFunc)

-- `m[version]` and `m[version] = fn` of a map with number keys.
unfoldable pub upcaster_at : ℕ → Versions → Option UpcasterFunc
upcaster_at v [] = none
upcaster_at v ((u, fn) ∷ rest) = if u == v then some fn else upcaster_at v rest

unfoldable pub set_upcaster : ℕ → UpcasterFunc → Versions → Versions
set_upcaster v fn [] = (v, fn) ∷ []
set_upcaster v fn ((u, g) ∷ rest) =
    if u == v then (v, fn) ∷ rest else (u, g) ∷ set_upcaster v fn rest

pub record UpcasterRegistry : Type 0 where
  pub upcasters : List (Text × Versions)
  pub latest_versions : List (Text × ℕ)

abbrev pub new_upcaster_registry : UpcasterRegistry
new_upcaster_registry = record { upcasters = []; latest_versions = [] }

-- The zero value where the map has no such event.
abbrev pub versions_of : UpcasterRegistry → Text → Versions
versions_of r event_name = elim (lookup event_name r.upcasters) [ none ↦ [] | some vs ↦ vs ]

-- `LatestVersion`
unfoldable pub latest_version : UpcasterRegistry → Text → ℕ
latest_version r event_name = elim (lookup event_name r.latest_versions) [ none ↦ 0 | some v ↦ v ]

-- `Register`
unfoldable pub register : Text → ℕ → ℕ → UpcasterFunc → UpcasterRegistry → UpcasterRegistry
register event_name from_version to_version fn r = record {
  upcasters =
      insert event_name (set_upcaster from_version fn (versions_of r event_name)) r.upcasters;
  latest_versions =
      if ltb (latest_version r event_name) to_version
      then insert event_name to_version r.latest_versions
      else r.latest_versions;
}

-- The loop of `Upcast`, with the rounds that are left.
unfoldable pub upcast_from : Versions → ℕ → ℕ → Text → UpcastResult
upcast_from vs zero current data_now = data_ok data_now
upcast_from vs (suc rounds) current data_now = elim (upcaster_at current vs) [
  | none ↦ chain_broken current
  | some fn ↦ elim (fn data_now) [
    | to_error e ↦ upcaster_failed current e
    | to_data next ↦ upcast_from vs rounds (current + 1) next
  ]
]

module _ (is_redacted : Text → Bool) where
  -- `Upcast`: the loop makes `to_version - from_version` rounds.
  unfoldable pub upcast : UpcasterRegistry → Text → Text → ℕ → ℕ → UpcastResult
  upcast r event_name event_data from_version to_version =
      if leb to_version from_version
      then data_ok event_data
      else if is_redacted event_data
      then data_ok event_data
      else upcast_from (versions_of r event_name) (to_version - from_version) from_version
          event_data

  -- `UpcastToLatest`
  unfoldable pub upcast_to_latest : UpcasterRegistry → Text → Text → ℕ → UpcastResult
  upcast_to_latest r event_name event_data from_version =
      let latest = latest_version r event_name in
      if latest == 0 || leb latest from_version
      then data_ok event_data
      else upcast r event_name event_data from_version latest
