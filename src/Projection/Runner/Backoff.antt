-- ===== src/Projection/Runner/Backoff.antt =====
-- The waits of the loops of ironflow/projection_runner.go: the ladder of `reconnectDelay` and the
-- backoff of `pollLoop`.
use ironflow_go.Prelude.{
  ℕ, zero, suc, ◌-◌, ◌*◌, ◌^◌, ◌≤◌, ◌≡◌, sym, ap, ◌∙◌, subst, List, ltb, Bool-cases, inl, inr,
  arith,
}
use ironflow_go.Projection.Runner.{
  Phase, registering, seeking, streaming, polling, finished, Runner, Request, min_of,
  reconnect_delay, reconnect_base, reconnect_max, min_backoff, max_backoff,
}

pow_pos : (n : ℕ) → 1 ≤ 2 ^ n
pow_pos zero = omega arith
pow_pos (suc n) = omega (arith, pow_pos n)

pow_above : (n : ℕ) → 16 ≤ 2 ^ suc (suc (suc (suc n)))
pow_above n = omega (arith, pow_pos n)

min_of-le : (a b : ℕ) → a ≤ b → min_of a b ≡ a
min_of-le a b h = ground arith

min_of-ge : (a b : ℕ) → b ≤ a → min_of a b ≡ b
min_of-ge a b h = ground arith

-- The clamp of the exponent to 4 changes no delay: the n-th failure in a row waits 2s doubled n - 1
-- times, and at most 30s.
pub reconnect_delay_lem :
    (n : ℕ) → reconnect_delay (suc n) ≡ min_of (reconnect_base * 2 ^ n) reconnect_max
unfolding reconnect_delay
reconnect_delay_lem n =
    ap (λ k. min_of (reconnect_base * 2 ^ min_of k 4) reconnect_max) {x = suc n - 1} {y = n}
      (omega arith)
    ∙ elim (Bool-cases (ltb n 4)) [
      | inl low ↦
          ap (λ k. min_of (reconnect_base * 2 ^ k) reconnect_max) (min_of-le n 4 (ground arith))
      | inr high ↦
          let there : 4 ≤ n = ground arith in
          let above : 16 ≤ 2 ^ n = subst (λ k. 16 ≤ 2 ^ k) (omega arith) (pow_above (n - 4)) in
          ap (λ k. min_of (reconnect_base * 2 ^ k) reconnect_max) (min_of-ge n 4 there)
          ∙ sym (min_of-ge (reconnect_base * 2 ^ n) reconnect_max (omega arith))
    ]

-- The backoff of an empty or failed poll, and the failures that a delay counts.
abbrev pub InRange : Phase → Type 0
InRange (registering failures e) = 1 ≤ failures
InRange seeking = Unit
InRange (streaming failures) = Unit
InRange (polling backoff) = (min_backoff ≤ backoff) × (backoff ≤ max_backoff)
InRange (finished error) = Unit

abbrev Stays : Runner × List Request → Type 0
Stays (r, requests) = InRange r.phase
