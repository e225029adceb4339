-- ===== src/Supervisor/Waiting.antt =====
-- src/supervisor.cpp: how `wait_healthy` ends.
use chimera_ape.Base.{
  ℕ, zero, suc, ◌+◌, ◌-◌, ◌<◌, ◌≤◌, ◌≡◌, refl, inl, inr, arith, true, false, some, ltb, ltb→lt,
  ltb→le, Bool-cases,
}
use chimera_ape.Supervisor.{
  Probe, has_exited, is_up, doubled, Health, healthy, died, timed_out, health_loop, wait_loop,
}

-- How a wait from poll `i` on ends, when `elapsed` milliseconds have passed: each poll before the
-- last finds the child alive, or not to be waited for, and no answer with status 200.
pub data Ended (probes : ℕ → Probe) (timeout : ℕ) : ℕ → ℕ → ℕ → Health → Type 0 where
  ended_late :
      {i elapsed backoff : ℕ} → timeout ≤ elapsed → Ended probes timeout i elapsed backoff timed_out
  ended_up :
      {i elapsed backoff : ℕ}
      → elapsed < timeout
      → has_exited (probes i).wait ≡ false
      → is_up (probes i).status ≡ true
      → Ended probes timeout i elapsed backoff healthy
  ended_dead :
      {i elapsed backoff : ℕ}
      → elapsed < timeout
      → has_exited (probes i).wait ≡ true
      → Ended probes timeout i elapsed backoff died
  polled :
      {i elapsed backoff : ℕ} {h : Health}
      → has_exited (probes i).wait ≡ false
      → is_up (probes i).status ≡ false
      → Ended probes timeout (i + 1) (elapsed + (probes i).took + backoff) (doubled backoff) h
      → Ended probes timeout i elapsed backoff h

module _ (probes : ℕ → Probe) (timeout : ℕ) where
  health_loop-Ended :
      (fuel i elapsed backoff : ℕ)
      → timeout - elapsed < fuel
      → 0 < backoff
      → (h : Health) × (health_loop probes timeout fuel i elapsed backoff ≡ some h)
        × Ended probes timeout i elapsed backoff h
  unfolding health_loop
  health_loop-Ended zero i elapsed backoff enough sleeps = absurd (omega arith)
  health_loop-Ended (suc fuel) i elapsed backoff enough sleeps =
      elim (Bool-cases (ltb elapsed timeout)) [
        | inr late ↦ (timed_out, rw late refl, ended_late (ltb→le elapsed timeout late))
        | inl early ↦
            let less = ltb→lt elapsed timeout early in
            elim (Bool-cases (has_exited (probes i).wait)) [
              | inl dead ↦ (died, rw (early, dead) refl, ended_dead less dead)
              | inr there ↦ elim (Bool-cases (is_up (probes i).status)) [
                | inl up ↦ (healthy, rw (early, there, up) refl, ended_up less there up)
                | inr down ↦
                    let (h, e, ended) =
                      health_loop-Ended fuel (i + 1) (elapsed + (probes i).took + backoff)
                        (doubled backoff) (omega (arith, less)) (ground (arith, sleeps)) in
                    (h, rw (early, there, down) e, polled there down ended)
              ]
            ]
      ]

  -- Where each of its polls returns, the wait for a child ends: with success at the first answer of
  -- status 200, with a failure when the child is found dead before that, or with one when the time is
  -- over.
  pub wait_loop-Ended :
      (h : Health) × (wait_loop probes timeout ≡ some h) × Ended probes timeout 0 0 50 h
  unfolding wait_loop
  wait_loop-Ended = health_loop-Ended (timeout + 1) 0 0 50 (omega arith) (omega arith)
