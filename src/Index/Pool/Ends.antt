-- ===== src/Index/Pool/Ends.antt =====
-- The workers return, in whatever order they run.
use agent_coderag.Prelude.{
  ℕ, zero, suc, ◌+◌, ◌*◌, ◌≤◌, ◌≡◌, refl, ◌⊎◌, inl, inr, arith, true, false, List, [], ◌∷◌, Text,
  length, Bool-cases,
}
use agent_coderag.Index.Pool.{
  Worker, ready, busy, returned, Entry, Move, takes, empties, succeeds, fails, Moves, here, there,
  Pool, worker_count, new_workers, start_pool, Run, done, step, all_returned,
}

-- The most moves that a worker can make before it looks at the queue once more or has returned.
weight : Worker → ℕ
weight (ready fs) = 1
weight (busy p fs) = 2
weight (returned fs) = 0

weights : List Worker → ℕ
weights [] = 0
weights (w ∷ ws) = weight w + weights ws

Move-weight :
    {w w' : Worker} {q q' : List Text} {new : List Entry}
    → Move w q w' q' new
    → 2 * length q' + weight w' + 1 ≤ 2 * length q + weight w
unfolding weight
Move-weight (takes p q fs) = omega arith
Move-weight (empties fs) = omega arith
Move-weight (succeeds p q fs) = omega arith
Move-weight (fails p e q fs) = omega arith

Moves-weights :
    {ws ws' : List Worker} {q q' : List Text} {new : List Entry}
    → Moves ws q ws' q' new
    → 2 * length q' + weights ws' + 1 ≤ 2 * length q + weights ws
unfolding weights
Moves-weights (here w w' ws q q' new m) = omega (arith, Move-weight m)
Moves-weights (there w ws ws' q q' new m) = omega (arith, Moves-weights m)

Run-weights :
    {s t : Pool} {k : ℕ}
    → Run s k t
    → 2 * length t.queue + weights t.workers + k ≤ 2 * length s.queue + weights s.workers
Run-weights (done s) = omega arith
Run-weights (step s k t ws q new r m) = omega (arith, Run-weights r, Moves-weights m)

weights-new_workers : (n : ℕ) → weights (new_workers n) ≡ n
unfolding weights weight new_workers
weights-new_workers zero = refl
weights-new_workers (suc n) = omega (arith, weights-new_workers n)

-- Some worker can move, as long as one has not returned.
can_move :
    (ws : List Worker) (q : List Text)
    → all_returned ws ≡ false
    → (ws' : List Worker) × (q' : List Text) × (new : List Entry) × Moves ws q ws' q' new
unfolding all_returned
can_move [] q h = absurd (ground arith)
can_move (ready fs ∷ ws) [] h = (_, _, _, here _ _ ws _ _ _ (empties fs))
can_move (ready fs ∷ ws) (p ∷ q) h = (_, _, _, here _ _ ws _ _ _ (takes p q fs))
can_move (busy p fs ∷ ws) q h = (_, _, _, here _ _ ws _ _ _ (succeeds p q fs))
can_move (returned fs ∷ ws) q h =
    let (ws', q', new, m) = can_move ws q h in (returned fs ∷ ws', q', new, there _ _ _ _ _ _ m)

-- Every schedule ends: a run of the pool has at most two steps for each path and one for each
-- worker; and until every worker has returned, some worker can move.
pub Run-Ends :
    (paths : List Text) (max_concurrency k : ℕ) (t : Pool)
    → Run (start_pool paths max_concurrency) k t
    → (k ≤ 2 * length paths + worker_count paths max_concurrency)
      × ((all_returned t.workers ≡ true)
          ⊎ ((ws : List Worker) × (q : List Text) × (new : List Entry) × Moves t.workers t.queue ws
                q new))
unfolding start_pool
Run-Ends paths n k t r = (
  omega (arith, Run-weights r, weights-new_workers (worker_count paths n)),
  elim (Bool-cases (all_returned t.workers)) [
    | inl e ↦ inl e
    | inr e ↦ inr (can_move t.workers t.queue e)
  ],
)
