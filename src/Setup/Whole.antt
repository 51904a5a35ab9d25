-- ===== src/Setup/Whole.antt =====
-- The files of the model are whole.
use agent_coderag.Prelude.{
  ◌≡◌, refl, ◌∙◌, ap, arith, Bool, not, ◌&&◌, ◌⊎◌, Option, none, some, List, [], ◌∷◌, ◌++◌, Text,
  text, text_eq, ◌==◌, inl, inr, Bool-cases, keep, All, All-keep, All-contains, contains, true,
}
use agent_coderag.Prelude.Dict.{lookup, insert, lookup-insert}
use agent_coderag.Core.{
  Error, Outcome-cases, Action, Keeps, Keeps->>=, Keeps->>, Keeps-gets, Keeps-if, Keeps-pure,
}
use agent_coderag.Setup.{
  Download, refused, broken, unplaced, complete, Directory, SetupResult, report, drop_temporary,
  make_temporary, place, is_there, download_file, report_errors, setup_file, setup_files, run_setup,
  model_files,
}

-- Dropping a temporary file that was just made leaves some of those that were there.
All-drop_made :
    (P : Text → Type 0) (name : Text) (ts : List Text)
    → All P ts
    → All P (keep (λ t. not (t == name)) (name ∷ ts))
All-drop_made P name ts h =
    let gone : keep (λ t. not (t == name)) (name ∷ ts) ≡ keep (λ t. not (t == name)) ts =
      ground arith in
    rw gone (All-keep P (λ t. not (t == name)) ts h)

pub Download-cases :
    (x : Download)
    → ((e : Error) × (x ≡ refused e))
      ⊎ ((e : Error) × (x ≡ broken e))
      ⊎ ((e : Error) × (x ≡ unplaced e))
      ⊎ ((c : Text) × (x ≡ complete c))
Download-cases (refused e) = inl (e, refl)
Download-cases (broken e) = inr (inl (e, refl))
Download-cases (unplaced e) = inr (inr (inl (e, refl)))
Download-cases (complete c) = inr (inr (inr (c, refl)))

module _ (get : Text → Download) (before : Directory) where
  -- A file is the one that was there, or a whole download.
  abbrev pub IsOldOrWhole : Text → Option Text → Type 0
  IsOldOrWhole name o =
      (o ≡ lookup name before.files) ⊎ ((c : Text) × (get name ≡ complete c) × (o ≡ some c))

  -- Every temporary file was there before, and every file is the old one or a whole one.
  pub record IsWhole (d : Directory) : Type 0 where
    pub clean : All (λ t. contains before.temporary t ≡ true) d.temporary
    pub files : (name : Text) → IsOldOrWhole name (lookup name d.files)

  Keeps-report : (event name : Text) (x : Option Error) → Keeps IsWhole (report event name x)
  unfolding report
  Keeps-report event name x = record { after = λ d i. record { clean = i.clean; files = i.files } }

  place-IsOldOrWhole :
      (name content j : Text) (d : Directory)
      → get name ≡ complete content
      → IsWhole d
      → IsOldOrWhole j (lookup j (insert name content d.files))
  place-IsOldOrWhole name content j d h i = elim (Bool-cases (j == name)) [
    | inr e ↦
        let same : lookup j (insert name content d.files) ≡ lookup j d.files =
          ground (arith, lookup-insert j name content d.files) in
        rw same (i.files j)
    | inl e ↦
        let same : j ≡ name = ground arith in
        inr (content, ap get same ∙ h, ground (arith, lookup-insert j name content d.files))
  ]

  Keeps-download_file : (name : Text) → Keeps IsWhole (download_file get name)
  unfolding download_file drop_temporary make_temporary place
  Keeps-download_file name = record {
    after = λ d i. elim (Download-cases (get name)) [
      | inl (e, h) ↦
          rw (download_file, h)
            (record { clean = All-keep _ _ d.temporary i.clean; files = i.files })
      | inr (inl (e, h)) ↦
          rw (download_file, h)
            (record { clean = All-drop_made _ name d.temporary i.clean; files = i.files })
      | inr (inr (inl (e, h))) ↦
          rw (download_file, h)
            (record { clean = All-drop_made _ name d.temporary i.clean; files = i.files })
      | inr (inr (inr (c, h))) ↦
          rw (download_file, h)
            (record {
              clean = All-drop_made _ name d.temporary i.clean;
              files = λ j. place-IsOldOrWhole name c j d h i;
            })
    ];
  }

  Keeps-report_errors :
      (name : Text) {m : Action Directory (Unit {0})}
      → Keeps IsWhole m
      → Keeps IsWhole (report_errors get name m)
  unfolding report_errors
  Keeps-report_errors name {m} h = record {
    after = λ d i. elim (Outcome-cases (m d).0) [
      | inl (t, e) ↦ rw (report_errors, e) (h.after d i)
      | inr (x, e) ↦
          rw (report_errors, e)
            ((Keeps-report (text "error") name (some x)).after (m d).1 (h.after d i))
    ];
  }

  Keeps-setup_file :
      (force : Bool) (name : Text) (r : SetupResult) → Keeps IsWhole (setup_file get force name r)
  unfolding setup_file
  Keeps-setup_file force name r = Keeps->>= (Keeps-gets {f = is_there name}) (λ there.
      Keeps-if (there && not force)
        (Keeps->> (Keeps-report (text "skipped") name none)
          (Keeps-pure (record r { skipped = r.skipped ++ (name ∷ []) })))
        (Keeps->>
          (Keeps->> (Keeps-report (text "downloading") name none)
            (Keeps-report_errors name (Keeps-download_file name)))
          (Keeps-pure (record r { downloaded = r.downloaded ++ (name ∷ []) }))))

  Keeps-setup_files :
      (force : Bool) (names : List Text) (r : SetupResult)
      → Keeps IsWhole (setup_files get force names r)
  unfolding setup_files
  Keeps-setup_files force [] r = Keeps-pure r
  Keeps-setup_files force (name ∷ names) r =
      Keeps->>= (Keeps-setup_file force name r) (λ r'. Keeps-setup_files force names r')

  pub run_setup-IsWhole : (force : Bool) → IsWhole (run_setup get force before).1
  unfolding run_setup
  run_setup-IsWhole force =
      (Keeps-setup_files force model_files _).after before
        (record { clean = All-contains before.temporary; files = λ name. inl refl })
