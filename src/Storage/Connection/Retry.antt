-- ===== src/Storage/Connection/Retry.antt =====
-- The retry loop ends, and what it returns tells what happened.
use agent_coderag.Prelude.{
  ℕ, zero, suc, ◌+◌, ◌≤◌, ◌<◌, ◌≡◌, refl, none, some, arith, leb, Bool-cases, inl, inr,
}
use mathlib.Core.Path.{subst}
use native.Mathlib.Decide.{dec_lt}
use agent_coderag.Core.{storage_error, storage_busy_error, Outcome, ok, raised}
use agent_coderag.Storage.Connection.{Attempt, connected, busy, failed, connect_with_retry}

module _ {D : Type 0} (deadline : ℕ) where
  -- The outcome of the attempt that is not repeated: a database, an error at once for what is no
  -- lock, and `StorageBusyError` for a lock after the deadline.
  abbrev pub Decides : Attempt D → ℕ → Outcome D → Type 0
  Decides (connected d) now r = r ≡ ok d
  Decides failed now r = r ≡ raised (storage_error none)
  Decides busy now r = (r ≡ raised storage_busy_error) × (deadline ≤ now)

module _ {D : Type 0} (attempt : ℕ → Attempt D) (clock : ℕ → ℕ) (deadline : ℕ) where
  -- Attempt `last` decides; those from the first up to it found the file locked, in time.
  pub record IsRetried (first : ℕ) (r : Outcome D) : Type 0 where
    pub last : ℕ
    pub later : first ≤ last
    pub locked : (j : ℕ) → first ≤ j → j < last → (attempt j ≡ busy) × (clock j < deadline)
    pub decides : Decides deadline (attempt last) (clock last) r

  IsRetried-now : (k : ℕ) (r : Outcome D) → Decides deadline (attempt k) (clock k) r → IsRetried k r
  IsRetried-now k r d = record {
    last = k;
    later = omega arith;
    locked = λ j le lt. absurd (omega arith);
    decides = d;
  }

  locked_from :
      (k last : ℕ)
      → attempt k ≡ busy
      → clock k < deadline
      → ((j : ℕ) → suc k ≤ j → j < last → (attempt j ≡ busy) × (clock j < deadline))
      → (j : ℕ) → k ≤ j
      → j < last
      → (attempt j ≡ busy) × (clock j < deadline)
  locked_from k last b t rest j le lt = elim (dec_lt k j) [
    | yes p ↦ rest j p lt
    | no p ↦
        let same : k ≡ j = omega arith in
        subst (λ i. (attempt i ≡ busy) × (clock i < deadline)) same (b, t)
  ]

  -- The retries after attempt k, if it found the file locked in time.
  abbrev Result : ℕ → ℕ → Type 0
  Result fuel k =
      (r : Outcome D) × (connect_with_retry attempt clock deadline fuel k ≡ some r) × IsRetried k r

  connect_step :
      (fuel k : ℕ)
      → (attempt k ≡ busy → clock k < deadline → Result fuel (suc k))
      → (a : Attempt D) → attempt k ≡ a
      → Result (suc fuel) k
  unfolding connect_with_retry
  connect_step fuel k rest (connected d) e =
      (ok d, ground arith, IsRetried-now k (ok d) (rw e refl))
  connect_step fuel k rest failed e =
      (raised (storage_error none), ground arith, IsRetried-now k _ (rw e refl))
  connect_step fuel k rest busy e = elim (Bool-cases (leb deadline (clock k))) [
    | inl late ↦
        (raised storage_busy_error, ground arith, IsRetried-now k _ (rw e (refl, ground arith)))
    | inr early ↦
        let (r, runs, spec) = rest e (ground arith) in
        (
          r,
          ground (arith, runs),
          record {
            last = spec.last;
            later = omega (arith, spec.later);
            locked = locked_from k spec.last e (ground arith) spec.locked;
            decides = spec.decides;
          },
        )
  ]

  connect_from :
      (start fuel k : ℕ)
      → ((j : ℕ) → start + j ≤ clock j)
      → deadline ≤ start + (k + fuel)
      → Result (suc fuel) k
  connect_from start zero k tick enough =
      connect_step zero k (λ b early. absurd (omega (arith, tick k))) (attempt k) refl
  connect_from start (suc fuel) k tick enough =
      connect_step (suc fuel) k (λ b early. connect_from start fuel (suc k) tick (omega arith))
        (attempt k) refl

module _ {D : Type 0} (attempt : ℕ → Attempt D) (clock : ℕ → ℕ) where
  -- If the clock moves at least one tick for each retry, the loop ends within `timeout + 1`
  -- attempts, and its result is that of the last one: the attempts before it all found a lock
  -- before the deadline, and a lock is reported only after the deadline.
  pub connect_with_retry-IsRetried :
      (start timeout : ℕ)
      → ((j : ℕ) → start + j ≤ clock j)
      → (r : Outcome D) × (connect_with_retry attempt clock (start + timeout) (suc timeout) 0
          ≡ some r)
        × IsRetried attempt clock (start + timeout) 0 r
  connect_with_retry-IsRetried start timeout tick =
      connect_from attempt clock (start + timeout) start timeout 0 tick (omega arith)
