-- ===== src/Setup/Present.antt =====
-- The files of the model are there.
use agent_coderag.Prelude.{
  ◌≡◌, sym, ◌∙◌, ap, arith, Bool, true, not, ◌&&◌, none, List, [], ◌∷◌, ◌++◌, Text, text, text_eq,
  ◌==◌, if◌then◌else◌, inl, inr, Bool-cases, All,
}
use mathlib.Core.Path.{subst}
use agent_coderag.Prelude.Dict.{lookup-insert}
use agent_coderag.Core.{Outcome, ok, Outcome-cases, Action, pure, ◌>>◌, >>=-ok}
use agent_coderag.Setup.{
  Download, Directory, SetupResult, report, drop_temporary, make_temporary, place, is_there,
  download_file, report_errors, setup_file, setup_files, run_setup, model_files,
}
use agent_coderag.Setup.Whole.{Download-cases, IsWhole, run_setup-IsWhole}

-- The call leaves every file there that was there, and the named one if it returns.
record Adds {A : Type 0} (name : Text) (m : Action Directory A) : Type 0 where
  kept : (d : Directory) (j : Text) → is_there j d ≡ true → is_there j (m d).1 ≡ true
  added : (d : Directory) (a : A) → (m d).0 ≡ ok a → is_there name (m d).1 ≡ true

module _ (get : Text → Download) where
  place-is_there :
      (name content j : Text) (d : Directory)
      → is_there j (place name content d) ≡ (if j == name then true else is_there j d)
  unfolding place drop_temporary make_temporary
  place-is_there name content j d = ground (arith, lookup-insert j name content d.files)

  Adds-download_file : (name : Text) → Adds name (download_file get name)
  unfolding download_file drop_temporary make_temporary
  Adds-download_file name = elim (Download-cases (get name)) [
    | inl (e, h) ↦ record {
      kept = λ d j there. rw (download_file, h) there;
      added = λ d a ended. absurd (ground (arith, h));
    }
    | inr (inl (e, h)) ↦ record {
      kept = λ d j there. rw (download_file, h) there;
      added = λ d a ended. absurd (ground (arith, h));
    }
    | inr (inr (inl (e, h))) ↦ record {
      kept = λ d j there. rw (download_file, h) there;
      added = λ d a ended. absurd (ground (arith, h));
    }
    | inr (inr (inr (c, h))) ↦ record {
      kept = λ d j there. rw (download_file, h) (ground (arith, place-is_there name c j d));
      added = λ d a ended. rw (download_file, h) (ground (arith, place-is_there name c name d));
    }
  ]

  Adds-report_errors :
      (name : Text) {m : Action Directory (Unit {0})}
      → Adds name m
      → Adds name (report_errors get name m)
  unfolding report_errors report
  Adds-report_errors name {m} h = record {
    kept = λ d j there. elim (Outcome-cases (m d).0) [
      | inl (t, e) ↦ rw (report_errors, e) (h.kept d j there)
      | inr (x, e) ↦ rw (report_errors, e) (h.kept d j there)
    ];
    added = λ d a ended. elim (Outcome-cases (m d).0) [
      | inl (t, e) ↦ rw (report_errors, e) (h.added d t e)
      | inr (x, e) ↦ absurd (ground (arith, e))
    ];
  }

  -- The download of a file that is missing, with its event.
  fetch : Text → Action Directory (Unit {0})
  fetch name =
      report (text "downloading") name none >> report_errors get name (download_file get name)

  Adds-fetch : (name : Text) → Adds name (fetch name)
  unfolding fetch report
  Adds-fetch name =
      let h = Adds-report_errors name (Adds-download_file name) in
      record { kept = λ d j there. h.kept _ j there; added = λ d a ended. h.added _ a ended }

  Adds-then :
      (name : Text) {A : Type 0} {m : Action Directory (Unit {0})} (a : A)
      → Adds name m
      → Adds name (m >> pure a)
  Adds-then name {m} a h = record {
    kept = λ d j there. elim (Outcome-cases (m d).0) [
      | inl (t, e) ↦ rw e (h.kept d j there)
      | inr (x, e) ↦ rw e (h.kept d j there)
    ];
    added = λ d b ended. elim (Outcome-cases (m d).0) [
      | inl (t, e) ↦ rw e (h.added d t e)
      | inr (x, e) ↦ absurd (ground (arith, e))
    ];
  }

  Adds-setup_file :
      (force : Bool) (name : Text) (r : SetupResult) → Adds name (setup_file get force name r)
  unfolding setup_file report fetch
  Adds-setup_file force name r =
      let after =
        Adds-then name (record r { downloaded = r.downloaded ++ (name ∷ []) }) (Adds-fetch name) in
      record {
        kept = λ d j there. elim (Bool-cases (is_there name d && not force)) [
          | inl e ↦ rw (setup_file, e) there
          | inr e ↦ rw (setup_file, e) (after.kept d j there)
        ];
        added = λ d a ended. elim (Bool-cases (is_there name d && not force)) [
          | inl e ↦ rw (setup_file, e) (ground (arith, e))
          | inr e ↦ rw (setup_file, e) (after.added d a (ground (arith, e)))
        ];
      }

  setup_files-there :
      (force : Bool) (names : List Text) (r : SetupResult) (d : Directory) (a : SetupResult)
      → (setup_files get force names r d).0 ≡ ok a
      → ((j : Text) → is_there j d ≡ true → is_there j (setup_files get force names r d).1 ≡ true)
        × All (λ name. is_there name (setup_files get force names r d).1 ≡ true) names
  unfolding setup_files
  setup_files-there force [] r d a h = (λ j there. there, tt)
  setup_files-there force (name ∷ names) r d a h =
      let (r', e, rest) =
        >>=-ok (setup_file get force name r) (setup_files get force names) d a h in
      let d' = (setup_file get force name r d).1 in
      let (kept, all) = setup_files-there force names r' d' a (sym (ap (λ x. x.0) rest) ∙ h) in
      let adds = Adds-setup_file force name r in
      subst
        (λ (x : Outcome SetupResult × Directory).
          ((j : Text) → is_there j d ≡ true → is_there j x.1 ≡ true)
          × All (λ name. is_there name x.1 ≡ true) (name ∷ names))
        (sym rest) (λ j there. kept j (adds.kept d j there), (kept name (adds.added d r' e), all))

  run_setup-there :
      (force : Bool) (d : Directory) (a : SetupResult)
      → (run_setup get force d).0 ≡ ok a
      → All (λ name. is_there name (run_setup get force d).1 ≡ true) model_files
  unfolding run_setup
  run_setup-there force d a h = (setup_files-there force model_files _ d a h).1

  -- Whatever the downloads do, and whether the call returns or raises, no temporary file is left
  -- that was not there before, and every file is the one that was there or a whole download; and if
  -- it returns, every file of the model is there.
  pub run_setup-IsWhole_there :
      (force : Bool) (d : Directory)
      → IsWhole get d (run_setup get force d).1
        × ((a : SetupResult)
            → (run_setup get force d).0 ≡ ok a
            → All (λ name. is_there name (run_setup get force d).1 ≡ true) model_files)
  run_setup-IsWhole_there force d = (run_setup-IsWhole get d force, run_setup-there force d)
