-- ===== src/Upcaster/Chain.antt =====
-- Which upcasters are applied, and when the chain is complete.
use ironflow_go.Prelude.{
  ℕ, zero, suc, ◌+◌, ◌-◌, ◌≤◌, ◌<◌, ◌≡◌, ◌≢◌, refl, subst, ◌↔◌, sym, ap, ◌∙◌, ◌⊎◌, inl, inr, none,
  some, Option-cases, [], ◌∷◌, Text, Bool, false, arith, leb,
}
use ironflow_go.Upcaster.{
  data_ok, chain_broken, Upcasted, to_data, to_error, UpcasterFunc, Versions, upcaster_at,
  set_upcaster, UpcasterRegistry, versions_of, upcast_from, upcast,
}

-- The data after the upcasters of `rounds` versions in a row, by the relation of the chain.
pub data Chain (vs : Versions) : ℕ → ℕ → Text → Text → Type 0 where
  stop : {v : ℕ} {d : Text} → Chain vs zero v d d
  step :
      {rounds v : ℕ} {d next last : Text} (fn : UpcasterFunc)
      → upcaster_at v vs ≡ some fn
      → fn d ≡ to_data next
      → Chain vs rounds (v + 1) next last
      → Chain vs (suc rounds) v d last

Upcasted-cases : (u : Upcasted) → ((d : Text) × (u ≡ to_data d)) ⊎ ((m : Text) × (u ≡ to_error m))
Upcasted-cases (to_data d) = inl (d, refl)
Upcasted-cases (to_error m) = inr (m, refl)

upcast_from-Chain :
    (vs : Versions) (rounds v : ℕ) (d last : Text)
    → upcast_from vs rounds v d ≡ data_ok last
    → Chain vs rounds v d last
unfolding upcast_from
upcast_from-Chain vs zero v d last h = subst (λ x. Chain vs zero v d x) (cc) stop
upcast_from-Chain vs (suc rounds) v d last h = elim (Option-cases (upcaster_at v vs)) [
  | inl missing ↦ cc (rw (missing, upcast_from) at h)
  | inr (fn, found) ↦
      let h' = rw (found, upcast_from) at h in
      elim (Upcasted-cases (fn d)) [
        | inl (next, e) ↦
            step fn found e
              (upcast_from-Chain vs rounds (v + 1) next last (rw (e, upcast_from) at h'))
        | inr (m, e) ↦ cc (rw (e, upcast_from) at h')
      ]
]

pub Chain-upcast_from :
    {vs : Versions} {rounds v : ℕ} {d last : Text}
    → Chain vs rounds v d last
    → upcast_from vs rounds v d ≡ data_ok last
unfolding upcast_from
Chain-upcast_from stop = refl
Chain-upcast_from (step fn found e rest) =
    rw (found, upcast_from) (rw (e, upcast_from) (Chain-upcast_from rest))

module _ (is_redacted : Text → Bool) (r : UpcasterRegistry) (event_name d : Text) (v w : ℕ) where
  -- Data that is not redacted, and is older than the version that is asked for, is brought to that
  -- version with a result exactly when the registry has an upcaster for every version from its own
  -- up to the one below, and the result is what they make of it, one after the other.
  pub upcast_iff_Chain :
      (last : Text)
      → v < w
      → is_redacted d ≡ false
      → (upcast is_redacted r event_name d v w ≡ data_ok last)
        ↔ Chain (versions_of r event_name) (w - v) v d last
  unfolding upcast
  upcast_iff_Chain last older plain =
      let down : leb w v ≡ false = ground arith in
      rw (down, plain)
        (
          upcast_from-Chain (versions_of r event_name) (w - v) v d last,
          λ chain. Chain-upcast_from chain,
        )

broken_at :
    (vs : Versions) (rounds v gap : ℕ) (d : Text)
    → upcast_from vs rounds v d ≡ chain_broken gap
    → (v ≤ gap) × (gap < v + rounds) × (upcaster_at gap vs ≡ none)
unfolding upcast_from
broken_at vs zero v gap d h = cc
broken_at vs (suc rounds) v gap d h = elim (Option-cases (upcaster_at v vs)) [
  | inl missing ↦
      let e : v ≡ gap = cc (rw (missing, upcast_from) at h) in
      (omega arith, omega arith, ap (λ n. upcaster_at n vs) (sym e) ∙ missing)
  | inr (fn, found) ↦
      let h' = rw (found, upcast_from) at h in
      elim (Upcasted-cases (fn d)) [
        | inl (next, e) ↦
            (let (low, high, none_there) =
                broken_at vs rounds (v + 1) gap next (rw (e, upcast_from) at h') in
              (omega arith, omega arith, none_there))
        | inr (m, e) ↦ cc (rw (e, upcast_from) at h')
      ]
]

pub upcaster_at-set_self :
    (v : ℕ) (fn : UpcasterFunc) (vs : Versions) → upcaster_at v (set_upcaster v fn vs) ≡ some fn
unfolding upcaster_at set_upcaster
upcaster_at-set_self v fn [] = ground arith
upcaster_at-set_self v fn ((u, g) ∷ rest) = ground (arith, upcaster_at-set_self v fn rest)

pub upcaster_at-set_ne :
    (v u : ℕ) (fn : UpcasterFunc) (vs : Versions)
    → v ≢ u
    → upcaster_at u (set_upcaster v fn vs) ≡ upcaster_at u vs
unfolding upcaster_at set_upcaster
upcaster_at-set_ne v u fn [] ne = ground arith
upcaster_at-set_ne v u fn ((x, g) ∷ rest) ne = ground (arith, upcaster_at-set_ne v u fn rest ne)
