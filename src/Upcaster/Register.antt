-- ===== src/Upcaster/Register.antt =====
-- What a registration does to the chain of its event.
use ironflow_go.Prelude.{
  ℕ, suc, ◌+◌, ◌-◌, ◌≤◌, ◌<◌, ◌≡◌, ap, ◌∙◌, Text, Bool, true, false, arith, ltb, leb, ◌==◌,
  lookup-insert_self, ◌||◌,
}
use ironflow_go.Upcaster.{
  data_ok, to_data, UpcasterFunc, Versions, upcaster_at, set_upcaster, UpcasterRegistry,
  versions_of, latest_version, register, upcast_from, upcast, upcast_to_latest,
}
use ironflow_go.Upcaster.Chain.{
  Chain, stop, step, upcaster_at-set_self, upcaster_at-set_ne, Chain-upcast_from,
}

module _ (r : UpcasterRegistry) (event_name : Text) (v w : ℕ) (fn : UpcasterFunc) where
  versions-register :
      versions_of (register event_name v w fn r) event_name
      ≡ set_upcaster v fn (versions_of r event_name)
  unfolding register
  versions-register = rw (lookup-insert_self, versions_of)

  latest-register :
      latest_version r event_name < w → latest_version (register event_name v w fn r) event_name ≡ w
  unfolding register latest_version
  latest-register newer =
      let up : ltb (latest_version r event_name) w ≡ true = ground arith in
      rw up (rw (lookup-insert_self, latest_version))

  upcast_to_latest-register :
      (is_redacted : Text → Bool) (d : Text) (u : ℕ)
      → latest_version r event_name < w
      → u < w
      → is_redacted d ≡ false
      → upcast_to_latest is_redacted (register event_name v w fn r) event_name d u
        ≡ upcast_from (set_upcaster v fn (versions_of r event_name)) (w - u) u d
  unfolding upcast_to_latest upcast
  upcast_to_latest-register is_redacted d u newer older plain =
      let first : (w == 0 || leb w u) ≡ false = ground arith in
      let down : leb w u ≡ false = ground arith in
      rw (latest-register newer, first, down, plain, versions-register)

Chain-extend :
    {vs : Versions} {rounds u : ℕ} {d mid : Text} (v : ℕ) (fn : UpcasterFunc) (last : Text)
    → Chain vs rounds u d mid
    → u + rounds ≡ v
    → fn mid ≡ to_data last
    → Chain (set_upcaster v fn vs) (suc rounds) u d last
Chain-extend {vs} {u = u} v fn last stop at e =
    step fn
      (ap (λ n. upcaster_at n (set_upcaster v fn vs)) (omega arith) ∙ upcaster_at-set_self v fn vs)
      e stop
Chain-extend {vs} {u = u} v fn last (step {rounds = k} g found e' rest) at e =
    step g (upcaster_at-set_ne v u g' vs (omega arith) ∙ found) e'
      (Chain-extend v fn last rest (omega arith) e)
  where
    g' : UpcasterFunc
    g' = fn

-- Registering the step from the latest version to the one after it extends every complete chain:
-- data of an older version is brought to the new latest version, by its chain and the new upcaster.
pub register_extends :
    (is_redacted : Text → Bool) (r : UpcasterRegistry) (event_name : Text) (v u : ℕ)
    (fn : UpcasterFunc) (d mid last : Text)
    → latest_version r event_name ≡ v
    → u ≤ v
    → is_redacted d ≡ false
    → Chain (versions_of r event_name) (v - u) u d mid
    → fn mid ≡ to_data last
    → upcast_to_latest is_redacted (register event_name v (v + 1) fn r) event_name d u
      ≡ data_ok last
register_extends is_redacted r event_name v u fn d mid last latest older plain chain e =
    upcast_to_latest-register r event_name v (v + 1) fn is_redacted d u (omega arith) (omega arith)
      plain
    ∙ ap (λ n. upcast_from (set_upcaster v fn (versions_of r event_name)) n u d) (omega arith)
    ∙ Chain-upcast_from (Chain-extend v fn last chain (omega arith) e)
