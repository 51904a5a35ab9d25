-- ===== src/Sync/Run/Report.antt =====
-- What a sync reports.
use agent_coderag.Prelude.{
  ◌≡◌, refl, arith, Bool, true, not, ◌&&◌, Option, none, some, List, [], ◌∷◌, ◌++◌, Text, text,
  text_eq, inl, inr, Bool-cases, if◌then◌else◌, length, contains, All, All-map_of, All-append,
  is_empty,
}
use mathlib.Core.Path.{subst}
use agent_coderag.Core.{
  Error, storage_error, Ensures, Ensures->>=, Ensures->>=_of, Ensures->>, Ensures-pure, Ensures-if,
  ok, raised, Outcome-cases, pure, gets, when, fail_if,
}
use agent_coderag.Storage.Db.{Db}
use agent_coderag.Storage.State.{Storage}
use agent_coderag.Storage.Units.{paths_migration_done}
use agent_coderag.Paths.Pure.{of_text, as_posix}
use agent_coderag.Index.Units.{IndexStack, reembed_all_units}
use agent_coderag.Index.Project.{sync_path, worker, run_worker, sync_project_one_worker}
use agent_coderag.Sync.Files.{SyncResult, result_from_failures, should_index}
use agent_coderag.Sync.Build.{sync_dependencies}
use agent_coderag.Sync.Build.State.{Machine, World, on_storage}
use agent_coderag.Sync.Run.{
  SyncOptions, Project, run_project_sync, sync_paths, sync_validated_path, except_discovery,
  migrate_if_needed, print_notice, sync_from, run_sync, walk_of, validated_path, ignored_by, rooted,
  nothing_asked,
}

-- The failure is that of one of these files.
abbrev pub IsOf : List Text → Text × Error → Type 0
IsOf paths f = contains paths f.0 ≡ true

module _ {F : Type 0} (stack : IndexStack) (force : Bool) where
  -- A worker lists only failures of paths in its queue.
  worker-IsOf :
      (all paths : List Text) (failures : List (Text × Error)) (s : Storage F)
      → All (λ p. contains all p ≡ true) paths
      → All (IsOf all) failures
      → All (IsOf all) (worker stack force paths failures s).0
  unfolding worker
  worker-IsOf all [] failures s h hf = hf
  worker-IsOf all (p ∷ paths) failures s (hp, h) hf =
      elim (Outcome-cases (sync_path stack force p s).0) [
        | inl (t, e) ↦ rw (worker, e) (worker-IsOf all paths failures _ h hf)
        | inr (x, e) ↦
            rw (worker, e)
              (worker-IsOf all paths (failures ++ ((p, x) ∷ [])) _ h
                (All-append (IsOf all) failures _ hf (hp, tt)))
      ]

All-contains_self : (paths : List Text) → All (λ p. contains paths p ≡ true) paths
All-contains_self [] = tt
All-contains_self (p ∷ paths) =
    (ground arith, All-map_of paths (λ q h. ground arith) (All-contains_self paths))

module _ {F : Type 0} (stack : IndexStack) (force : Bool) where
  Ensures-run_worker :
      (paths : List Text)
      → Ensures {S = Storage F} (All (IsOf paths)) (run_worker stack force paths)
  unfolding run_worker
  Ensures-run_worker paths = record {
    result = λ s failures h.
        subst (All (IsOf paths))
          (let q : (worker stack force paths [] s).0 ≡ failures = ground arith in q)
          (worker-IsOf stack force paths paths [] s (All-contains_self paths) tt);
  }

  Ensures-sync_project_one_worker :
      (paths : List Text) (index_all : Bool)
      → Ensures {S = Storage F}
          (All (IsOf paths))
          (sync_project_one_worker stack paths force index_all)
  unfolding sync_project_one_worker
  Ensures-sync_project_one_worker paths index_all =
      Ensures->>= (gets (λ s. s.embedding_model_dirty)) (λ dirty.
        Ensures->> (fail_if (dirty && not index_all) (storage_error none)) (
          Ensures->> (when dirty reembed_all_units)
            (Ensures-if (is_empty paths) (Ensures-pure [] tt) (Ensures-run_worker paths))))

-- The result of a sync of these files: their number, and errors of some of them; the status is
-- `success` exactly if there are none.
pub record IsReport (paths : List Text) (r : SyncResult) : Type 0 where
  pub number : r.indexed_files ≡ length paths
  pub named : All (IsOf paths) r.errors
  pub status : r.status ≡ (if is_empty r.errors then text "success" else text "error")

result_from_failures-IsReport :
    (paths : List Text) (failures : List (Text × Error))
    → All (IsOf paths) failures
    → IsReport paths (result_from_failures (length paths) failures)
unfolding result_from_failures
result_from_failures-IsReport paths failures h = record {
  number = refl;
  named = h;
  status = ground arith;
}

-- The files that a sync of a validated path chooses: the file itself, or those of the walk below
-- it, as far as they are indexed.
abbrev pub chosen_at : Machine → Project → SyncOptions → Text → List Text
chosen_at machine project o p =
    if project.is_file (of_text p)
    then (if should_index machine.system (ignored_by project o.root) (of_text p) (some o.root)
        then as_posix (of_text p) ∷ []
        else [])
    else walk_of machine project (of_text p) o

-- The files of a sync of a path, or of the whole project.
abbrev pub chosen_from : Machine → Project → SyncOptions → Option Text → List Text
chosen_from machine project o none = walk_of machine project o.root o
chosen_from machine project o (some p) = chosen_at machine project o p

abbrev pub chosen : Machine → Project → SyncOptions → List Text
chosen machine project o = if nothing_asked o then [] else elim (validated_path machine.system o) [
  | raised e ↦ []
  | ok p ↦ chosen_from machine project o p
]

module _ {F : Type 0} (machine : Machine) (project : Project) (stack : IndexStack)
    (o : SyncOptions) where
  Ensures-run_project_sync :
      (paths : List Text)
      → Ensures {S = World F} (All (IsOf paths)) (run_project_sync machine project stack paths o)
  unfolding run_project_sync on_storage
  Ensures-run_project_sync paths = record {
    result = λ w failures h.
        (Ensures-sync_project_one_worker (rooted machine stack o.root) o.force paths
            o.index_all).result
          w.storage failures h;
  }

  Ensures-sync_paths :
      (paths : List Text)
      → Ensures {S = World F} (IsReport paths) (sync_paths machine project stack paths o)
  unfolding sync_paths
  Ensures-sync_paths paths =
      Ensures->>=_of (run_project_sync machine project stack paths o)
        (Ensures-run_project_sync paths)
        (λ failures h. Ensures-pure _ (result_from_failures-IsReport paths failures h))

  Ensures-no_files :
      (paths : List Text)
      → Ensures {S = World F} (IsReport paths) (pure (result_from_failures (length paths) []))
  Ensures-no_files paths = Ensures-pure _ (result_from_failures-IsReport paths [] tt)

  Ensures-sync_validated_path :
      (p : Text)
      → Ensures {S = World F}
          (IsReport (chosen_at machine project o p))
          (sync_validated_path machine project stack p o)
  unfolding sync_validated_path
  Ensures-sync_validated_path p = elim (Bool-cases (project.is_file (of_text p))) [
    | inr e ↦
        let paths = walk_of machine project (of_text p) o in
        rw (sync_validated_path, e)
          (Ensures-if (is_empty paths && not o.index_all) (Ensures-no_files paths)
            (Ensures-sync_paths paths))
    | inl e ↦
        let indexed =
          should_index machine.system (ignored_by project o.root) (of_text p) (some o.root) in
        elim (Bool-cases indexed) [
          | inl k ↦
              let paths = as_posix (of_text p) ∷ [] in
              rw (sync_validated_path, e, k)
                (Ensures->>=_of (run_project_sync machine project stack paths o)
                  (Ensures-run_project_sync paths)
                  (λ failures h. Ensures-pure _ (result_from_failures-IsReport paths failures h)))
          | inr k ↦ rw (sync_validated_path, e, k) (Ensures-no_files [])
        ]
  ]

  module _ (refuses : Db F → List Text → Option Error) where
    Ensures-sync_from_path :
        (p : Text)
        → Ensures
            (IsReport (chosen_at machine project o p))
            (sync_from machine project stack refuses (some p) o)
    unfolding sync_from
    Ensures-sync_from_path p =
        Ensures->> (except_discovery (sync_dependencies machine p o.allow_build_execution)) (
          Ensures->>= (on_storage paths_migration_done) (λ done.
            Ensures->>= (migrate_if_needed machine project stack refuses done o) (λ ran.
              Ensures->> (when (ran && not o.index_all) print_notice)
                (Ensures-sync_validated_path p))))

    Ensures-sync_from_root :
        Ensures
          (IsReport (walk_of machine project o.root o))
          (sync_from machine project stack refuses none o)
    unfolding sync_from
    Ensures-sync_from_root =
        Ensures->>
          (except_discovery (sync_dependencies machine (as_posix o.root) o.allow_build_execution))
          (Ensures->>= (on_storage paths_migration_done) (λ done.
            Ensures->>= (migrate_if_needed machine project stack refuses done o) (λ ran.
              Ensures->> (when (ran && not o.index_all) print_notice)
                (Ensures-sync_paths (walk_of machine project o.root o)))))

    Ensures-sync_from :
        (p : Option Text)
        → Ensures
            (IsReport (chosen_from machine project o p))
            (sync_from machine project stack refuses p o)
    Ensures-sync_from none = Ensures-sync_from_root
    Ensures-sync_from (some p) = Ensures-sync_from_path p

    -- A sync that returns reports the number of the files that it chose, and errors of some of
    -- them only; its status is `success` exactly if there are no errors.
    pub run_sync-IsReport :
        (w : World F) (r : SyncResult)
        → (run_sync machine project stack refuses o w).0 ≡ ok r
        → IsReport (chosen machine project o) r
    unfolding run_sync
    run_sync-IsReport w r h = elim (Bool-cases (nothing_asked o)) [
      | inl e ↦ rw e ((Ensures-no_files []).result w r (ground (arith, e)))
      | inr e ↦ elim (Outcome-cases (validated_path machine.system o)) [
        | inr (x, k) ↦ absurd (ground (arith, e, k))
        | inl (p, k) ↦ rw (e, k) ((Ensures-sync_from p).result w r (ground (arith, e, k)))
      ]
    ]
