-- ===== src/Index/Pool/Once.antt =====
-- Each path is synced exactly once, and each failure is reported.
use agent_coderag.Prelude.{
  ℕ, zero, suc, ◌+◌, ◌≤◌, ◌≡◌, refl, arith, Bool, true, false, none, some, List, [], ◌∷◌, ◌++◌,
  Text, text_eq, ◌==◌, length, ap, ◌∙◌, if◌then◌else◌,
}
use agent_coderag.Core.{Error}
use agent_coderag.Index.Pool.{
  Worker, ready, busy, returned, Entry, Move, takes, empties, succeeds, fails, Moves, here, there,
  Pool, worker_count, new_workers, start_pool, Run, done, step, all_returned, gathered,
}

-- How often a path is in a list, is being synced, and has ended.
abbrev pub count : Text → List Text → ℕ
count x [] = 0
count x (p ∷ ps) = (if x == p then 1 else 0) + count x ps

busy_with : Text → Worker → ℕ
busy_with x (ready fs) = 0
busy_with x (busy p fs) = if x == p then 1 else 0
busy_with x (returned fs) = 0

in_work : Text → List Worker → ℕ
in_work x [] = 0
in_work x (w ∷ ws) = busy_with x w + in_work x ws

abbrev pub count_ended : Text → List Entry → ℕ
count_ended x [] = 0
count_ended x ((p, o) ∷ es) = (if x == p then 1 else 0) + count_ended x es

-- The files that ended with an error.
abbrev pub errors_in : List Entry → List (Text × Error)
errors_in [] = []
errors_in ((p, none) ∷ es) = errors_in es
errors_in ((p, some e) ∷ es) = (p, e) ∷ errors_in es

-- How many failures of a path are listed.
abbrev pub count_failures : Text → List (Text × Error) → ℕ
count_failures x [] = 0
count_failures x ((p, e) ∷ fs) = (if x == p then 1 else 0) + count_failures x fs

Move-count :
    (x : Text) {w w' : Worker} {q q' : List Text} {new : List Entry}
    → Move w q w' q' new
    → count x q' + busy_with x w' + count_ended x new ≡ count x q + busy_with x w
unfolding busy_with
Move-count x (takes p q fs) = omega arith
Move-count x (empties fs) = omega arith
Move-count x (succeeds p q fs) = omega arith
Move-count x (fails p e q fs) = omega arith

Moves-count :
    (x : Text) {ws ws' : List Worker} {q q' : List Text} {new : List Entry}
    → Moves ws q ws' q' new
    → count x q' + in_work x ws' + count_ended x new ≡ count x q + in_work x ws
unfolding in_work
Moves-count x (here w w' ws q q' new m) = omega (arith, Move-count x m)
Moves-count x (there w ws ws' q q' new m) = omega (arith, Moves-count x m)

count_ended-append :
    (x : Text) (es ds : List Entry) → count_ended x (es ++ ds) ≡ count_ended x es + count_ended x ds
count_ended-append x [] ds = omega arith
count_ended-append x ((p, o) ∷ es) ds = omega (arith, count_ended-append x es ds)

Run-count :
    (x : Text) {s t : Pool} {k : ℕ}
    → Run s k t
    → count x t.queue + in_work x t.workers + count_ended x t.ended
      ≡ count x s.queue + in_work x s.workers + count_ended x s.ended
Run-count x (done s) = refl
Run-count x (step s k t ws q new r m) =
    omega (arith, Run-count x r, Moves-count x m, count_ended-append x new t.ended)

count_failures-append :
    (x : Text) (fs gs : List (Text × Error))
    → count_failures x (fs ++ gs) ≡ count_failures x fs + count_failures x gs
count_failures-append x [] gs = omega arith
count_failures-append x ((p, e) ∷ fs) gs = omega (arith, count_failures-append x fs gs)

errors_in-append : (es ds : List Entry) → errors_in (es ++ ds) ≡ errors_in es ++ errors_in ds
errors_in-append [] ds = refl
errors_in-append ((p, none) ∷ es) ds = errors_in-append es ds
errors_in-append ((p, some e) ∷ es) ds = ap (λ l. (p, e) ∷ l) (errors_in-append es ds)

Moves-failures :
    (x : Text) {ws ws' : List Worker} {q q' : List Text} {new : List Entry}
    → Moves ws q ws' q' new
    → count_failures x (gathered ws')
      ≡ count_failures x (gathered ws) + count_failures x (errors_in new)
unfolding gathered
Moves-failures x (here _ _ ws _ _ _ (takes p q fs)) = omega arith
Moves-failures x (here _ _ ws _ _ _ (empties fs)) = omega arith
Moves-failures x (here _ _ ws _ _ _ (succeeds p q fs)) = omega arith
Moves-failures x (here _ _ ws _ _ _ (fails p e q fs)) = omega (
  arith,
  count_failures-append x (fs ++ ((p, e) ∷ [])) (gathered ws),
  count_failures-append x fs ((p, e) ∷ []),
  count_failures-append x fs (gathered ws),
)
Moves-failures x (there (ready fs) ws ws' q q' new m) = omega (
  arith,
  Moves-failures x m,
  count_failures-append x fs (gathered ws),
  count_failures-append x fs (gathered ws'),
)
Moves-failures x (there (busy p fs) ws ws' q q' new m) = omega (
  arith,
  Moves-failures x m,
  count_failures-append x fs (gathered ws),
  count_failures-append x fs (gathered ws'),
)
Moves-failures x (there (returned fs) ws ws' q q' new m) = omega (
  arith,
  Moves-failures x m,
  count_failures-append x fs (gathered ws),
  count_failures-append x fs (gathered ws'),
)

Run-failures :
    (x : Text) {s t : Pool} {k : ℕ}
    → Run s k t
    → count_failures x (gathered t.workers) + count_failures x (errors_in s.ended)
      ≡ count_failures x (gathered s.workers) + count_failures x (errors_in t.ended)
Run-failures x (done s) = omega arith
Run-failures x (step s k t ws q new r m) = omega (
  arith,
  Run-failures x r,
  Moves-failures x m,
  ap (count_failures x) (errors_in-append new t.ended),
  count_failures-append x (errors_in new) (errors_in t.ended),
)

any_returned : List Worker → Bool
any_returned [] = false
any_returned (returned fs ∷ ws) = true
any_returned (ready fs ∷ ws) = any_returned ws
any_returned (busy p fs ∷ ws) = any_returned ws

Moves-still :
    {ws ws' : List Worker} {q q' : List Text} {new : List Entry}
    → Moves ws q ws' q' new
    → q ≡ []
    → q' ≡ []
Moves-still (here _ _ ws _ _ _ (takes p q fs)) h = absurd (ground (arith, h))
Moves-still (here _ _ ws _ _ _ (empties fs)) h = h
Moves-still (here _ _ ws _ _ _ (succeeds p q fs)) h = h
Moves-still (here _ _ ws _ _ _ (fails p e q fs)) h = h
Moves-still (there w ws ws' q q' new m) h = Moves-still m h

-- A worker returns only when the queue is empty, and it stays empty.
Moves-empty :
    {ws ws' : List Worker} {q q' : List Text} {new : List Entry}
    → Moves ws q ws' q' new
    → (any_returned ws ≡ true → q ≡ [])
    → any_returned ws' ≡ true
    → q' ≡ []
unfolding any_returned
Moves-empty (here _ _ ws _ _ _ (takes p q fs)) h r = absurd (ground (arith, h r))
Moves-empty (here _ _ ws _ _ _ (empties fs)) h r = refl
Moves-empty (here _ _ ws _ _ _ (succeeds p q fs)) h r = h r
Moves-empty (here _ _ ws _ _ _ (fails p e q fs)) h r = h r
Moves-empty (there (ready fs) ws ws' q q' new m) h r = Moves-empty m h r
Moves-empty (there (busy p fs) ws ws' q q' new m) h r = Moves-empty m h r
Moves-empty (there (returned fs) ws ws' q q' new m) h r = Moves-still m (h refl)

Run-empty :
    {s t : Pool} {k : ℕ}
    → Run s k t
    → (any_returned s.workers ≡ true → s.queue ≡ [])
    → any_returned t.workers ≡ true
    → t.queue ≡ []
Run-empty (done s) h r = h r
Run-empty (step s k t ws q new run m) h r = Moves-empty m (Run-empty run h) r

Moves-length :
    {ws ws' : List Worker} {q q' : List Text} {new : List Entry}
    → Moves ws q ws' q' new
    → length ws' ≡ length ws
Moves-length (here w w' ws q q' new m) = refl
Moves-length (there w ws ws' q q' new m) = omega (arith, Moves-length m)

Run-length : {s t : Pool} {k : ℕ} → Run s k t → length t.workers ≡ length s.workers
Run-length (done s) = refl
Run-length (step s k t ws q new r m) = Moves-length m ∙ Run-length r

-- What a pool of n new workers is like, and one whose workers have all returned.
new_workers_lem :
    (x : Text) (n : ℕ)
    → (length (new_workers n) ≡ n)
      × (in_work x (new_workers n) ≡ 0)
      × (gathered (new_workers n) ≡ [])
      × (any_returned (new_workers n) ≡ false)
unfolding new_workers in_work busy_with gathered any_returned
new_workers_lem x zero = (refl, refl, refl, refl)
new_workers_lem x (suc n) =
    let (l, w, g, r) = new_workers_lem x n in (omega arith, omega arith, g, r)

all_returned_lem :
    (x : Text) (ws : List Worker)
    → all_returned ws ≡ true
    → (in_work x ws ≡ 0) × (1 ≤ length ws → any_returned ws ≡ true)
unfolding all_returned in_work busy_with any_returned
all_returned_lem x [] h = (refl, λ l. absurd (omega arith))
all_returned_lem x (returned fs ∷ ws) h = (omega (arith, (all_returned_lem x ws h).0), λ l. refl)
all_returned_lem x (ready fs ∷ ws) h = absurd (ground arith)
all_returned_lem x (busy p fs ∷ ws) h = absurd (ground arith)

-- If there is a worker, then whatever the schedule, when every worker has returned the queue is
-- empty, each path was synced as often as it was listed, and the failures that are gathered are,
-- path by path, as many as the syncs of that path that raised.
pub Run-Once :
    (paths : List Text) (max_concurrency k : ℕ) (t : Pool) (x : Text)
    → 1 ≤ worker_count paths max_concurrency
    → Run (start_pool paths max_concurrency) k t
    → all_returned t.workers ≡ true
    → (t.queue ≡ [])
      × (count_ended x t.ended ≡ count x paths)
      × (count_failures x (gathered t.workers) ≡ count_failures x (errors_in t.ended))
unfolding start_pool
Run-Once paths n k t x some_worker r h =
    let (l, w, g, none_returned) = new_workers_lem x (worker_count paths n) in
    let (idle, some_returned) = all_returned_lem x t.workers h in
    let empty : t.queue ≡ [] =
      Run-empty r (λ e. absurd (ground arith)) (some_returned (omega (arith, Run-length r))) in
    let counted = Run-count x r in
    let failed = Run-failures x r in
    let left : count x t.queue ≡ 0 = ap (count x) empty in
    let started : count_failures x (gathered (new_workers (worker_count paths n))) ≡ 0 =
      ap (count_failures x) g in
    (empty, omega arith, omega arith)
