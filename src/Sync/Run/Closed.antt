-- ===== src/Sync/Run/Closed.antt =====
-- A sync without `allow_build_execution`.
use agent_coderag.Prelude.{
  ◌≡◌, refl, arith, Bool, false, not, ◌&&◌, Option, none, some, List, Text, inl, inr,
}
use agent_coderag.Core.{
  Error, ok, Outcome-cases, Action, Keeps, Keeps->>=, Keeps->>, Keeps-when, Keeps-if, Keeps-pure,
  Keeps-lift,
}
use agent_coderag.Storage.Db.{Db}
use agent_coderag.Storage.State.{Storage}
use agent_coderag.Storage.Units.{paths_migration_done}
use agent_coderag.Index.Units.{IndexStack}
use agent_coderag.Sync.Files.{SyncResult}
use agent_coderag.Sync.Build.{sync_dependencies}
use agent_coderag.Sync.Build.State.{Machine, World, on_storage}
use agent_coderag.Sync.Run.{
  SyncOptions, Project, run_project_sync, sync_paths, sync_validated_path, except_discovery,
  except_migration, migrate_if_needed, print_notice, sync_from, run_sync, walk_of, validated_path,
}

module _ {F : Type 0} where
  -- No command was started, and no script was written or deleted.
  pub record IsUntouched (w w' : World F) : Type 0 where
    pub commands : w'.executed ≡ w.executed
    pub files : w'.scripts ≡ w.scripts

  sync_dependencies_refused :
      (machine : Machine) (p : Text) (w : World F)
      → sync_dependencies machine p false w ≡ (ok tt, w)
  unfolding sync_dependencies
  sync_dependencies_refused machine p w = ground arith

  module _ (w : World F) where
    abbrev Closed : World F → Type 0
    Closed = IsUntouched w

    Keeps-on_storage : {A : Type 0} (m : Action (Storage F) A) → Keeps Closed (on_storage m)
    unfolding on_storage
    Keeps-on_storage m = record { after = λ s i. record { commands = i.commands; files = i.files } }

    Keeps-except_discovery :
        {m : Action (World F) (Unit {0})} → Keeps Closed m → Keeps Closed (except_discovery m)
    unfolding except_discovery
    Keeps-except_discovery {m} h = record {
      after = λ s i. elim (Outcome-cases (m s).0) [
        | inl (b, e) ↦ rw (except_discovery, e) (h.after s i)
        | inr (x, e) ↦ rw (except_discovery, e) (h.after s i)
      ];
    }

    Keeps-except_migration :
        {m : Action (World F) Bool} → Keeps Closed m → Keeps Closed (except_migration m)
    unfolding except_migration
    Keeps-except_migration {m} h = record {
      after = λ s i. elim (Outcome-cases (m s).0) [
        | inl (b, e) ↦ rw (except_migration, e) (h.after s i)
        | inr (x, e) ↦ rw (except_migration, e) (h.after s i)
      ];
    }

    module _ (machine : Machine) (project : Project) (stack : IndexStack) where
      Keeps-sync_paths :
          (paths : List Text) (o : SyncOptions)
          → Keeps Closed (sync_paths machine project stack paths o)
      unfolding sync_paths run_project_sync
      Keeps-sync_paths paths o = Keeps->>= (Keeps-on_storage _) (λ f. Keeps-pure _)

      Keeps-sync_validated_path :
          (p : Text) (o : SyncOptions)
          → Keeps Closed (sync_validated_path machine project stack p o)
      unfolding sync_validated_path run_project_sync
      Keeps-sync_validated_path p o =
          Keeps-if _
            (Keeps-if _ (Keeps->>= (Keeps-on_storage _) (λ f. Keeps-pure _)) (Keeps-pure _))
            (Keeps-if _ (Keeps-pure _) (Keeps-sync_paths _ o))

      module _ (refuses : Db F → List Text → Option Error) where
        Keeps-migrate_if_needed :
            (done : Bool) (o : SyncOptions)
            → Keeps Closed (migrate_if_needed machine project stack refuses done o)
        unfolding migrate_if_needed
        Keeps-migrate_if_needed done o =
            Keeps-if done (Keeps-pure false) (Keeps-except_migration (Keeps-on_storage _))

        Keeps-sync_dependencies_refused :
            (p : Text) (b : Bool) → b ≡ false → Keeps Closed (sync_dependencies machine p b)
        Keeps-sync_dependencies_refused p b e = record {
          after = λ s i. rw (e, sync_dependencies_refused machine p s) i;
        }

        Keeps-sync_from :
            (p : Option Text) (o : SyncOptions)
            → o.allow_build_execution ≡ false
            → Keeps Closed (sync_from machine project stack refuses p o)
        unfolding sync_from print_notice
        Keeps-sync_from p o e =
            Keeps->> (Keeps-except_discovery (Keeps-sync_dependencies_refused _ _ e)) (
              Keeps->>= (Keeps-on_storage paths_migration_done) (λ done.
                Keeps->>= (Keeps-migrate_if_needed done o) (λ ran.
                  Keeps->>
                    (Keeps-when (ran && not o.index_all)
                      (record { after = λ s i. record { commands = i.commands; files = i.files } }))
                    (last p))))
          where
            last :
                (p : Option Text)
                → Keeps Closed (elim p as (λ _. Action (World F) SyncResult) [
                  | some q ↦ sync_validated_path machine project stack q o
                  | none ↦ sync_paths machine project stack (walk_of machine project o.root o) o
                ])
            last none = Keeps-sync_paths _ o
            last (some q) = Keeps-sync_validated_path q o

        -- A sync that is not allowed to execute builds starts no command, and writes and deletes no
        -- script, whatever the project holds, whether it returns or raises.
        pub run_sync-IsUntouched :
            (o : SyncOptions)
            → o.allow_build_execution ≡ false
            → IsUntouched w (run_sync machine project stack refuses o w).1
        unfolding run_sync
        run_sync-IsUntouched o e =
            (Keeps-if _ (Keeps-pure _) (
                Keeps->>= (Keeps-lift (validated_path machine.system o))
                  (λ p. Keeps-sync_from p o e))).after
              w (record { commands = refl; files = refl })
