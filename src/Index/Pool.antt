-- ===== src/Index/Pool.antt =====
-- The workers of `sync_project` in any interleaving. A step is what one worker does between two
-- points where another may run: it takes a path or finds the queue empty, or the sync of its file
-- ends. What that sync does to the storage is in `sync_file`; here it may end either way.
pub mod Once
pub mod Ends
use agent_coderag.Prelude.{
  ℕ, zero, suc, ◌+◌, ◌*◌, Option, none, some, Bool, true, false, List, [], ◌∷◌, ◌++◌, Text, length,
  ltb, if◌then◌else◌,
}
use agent_coderag.Core.{Error}

-- A worker is about to take a path, syncs one, or has returned; with the failures it listed.
pub data Worker : Type 0 where
  ready : List (Text × Error) → Worker
  busy : Text → List (Text × Error) → Worker
  returned : List (Text × Error) → Worker

-- A file whose sync ended, and with which error if it raised.
abbrev pub Entry : Type 0
Entry = Text × Option Error

-- One worker at one queue, with what it leaves of both, and the files that ended.
pub data Move : Worker → List Text → Worker → List Text → List Entry → Type 0 where
  takes :
      (p : Text) (q : List Text) (fs : List (Text × Error))
      → Move (ready fs) (p ∷ q) (busy p fs) q []
  empties : (fs : List (Text × Error)) → Move (ready fs) [] (returned fs) [] []
  succeeds :
      (p : Text) (q : List Text) (fs : List (Text × Error))
      → Move (busy p fs) q (ready fs) q ((p, none) ∷ [])
  fails :
      (p : Text) (e : Error) (q : List Text) (fs : List (Text × Error))
      → Move (busy p fs) q (ready (fs ++ ((p, e) ∷ []))) q ((p, some e) ∷ [])

-- One of the workers makes a move.
pub data Moves : List Worker → List Text → List Worker → List Text → List Entry → Type 0 where
  here :
      (w w' : Worker) (ws : List Worker) (q q' : List Text) (new : List Entry)
      → Move w q w' q' new
      → Moves (w ∷ ws) q (w' ∷ ws) q' new
  there :
      (w : Worker) (ws ws' : List Worker) (q q' : List Text) (new : List Entry)
      → Moves ws q ws' q' new
      → Moves (w ∷ ws) q (w ∷ ws') q' new

pub record Pool : Type 0 where
  pub workers : List Worker
  pub queue : List Text
  pub ended : List Entry

-- `min(len(paths), max_concurrency)`
unfoldable pub worker_count : List Text → ℕ → ℕ
worker_count paths max_concurrency =
    if ltb max_concurrency (length paths) then max_concurrency else length paths

-- `[asyncio.create_task(worker()) for _ in range(worker_count)]`
unfoldable pub new_workers : ℕ → List Worker
new_workers zero = []
new_workers (suc n) = ready [] ∷ new_workers n

unfoldable pub start_pool : List Text → ℕ → Pool
start_pool paths max_concurrency = record {
  workers = new_workers (worker_count paths max_concurrency);
  queue = paths;
  ended = [];
}

-- A run of k steps.
pub data Run : Pool → ℕ → Pool → Type 0 where
  done : (s : Pool) → Run s 0 s
  step :
      (s : Pool) (k : ℕ) (t : Pool) (ws : List Worker) (q : List Text) (new : List Entry)
      → Run s k t
      → Moves t.workers t.queue ws q new
      → Run s (suc k) (record { workers = ws; queue = q; ended = new ++ t.ended })

-- What `asyncio.gather` gives, flattened, when every worker has returned.
unfoldable pub gathered : List Worker → List (Text × Error)
gathered [] = []
gathered (returned fs ∷ ws) = fs ++ gathered ws
gathered (ready fs ∷ ws) = fs ++ gathered ws
gathered (busy p fs ∷ ws) = fs ++ gathered ws

unfoldable pub all_returned : List Worker → Bool
all_returned [] = true
all_returned (returned fs ∷ ws) = all_returned ws
all_returned (ready fs ∷ ws) = false
all_returned (busy p fs ∷ ws) = false
