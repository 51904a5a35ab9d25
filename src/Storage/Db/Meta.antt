-- ===== src/Storage/Db/Meta.antt =====
-- What a write to `index_meta` changes, and what making the table of the vectors gives.
use agent_coderag.Prelude.{◌≡◌, refl, Option, none, some, Text, ◌==◌, text_eq, arith, if◌then◌else◌}
use agent_coderag.Prelude.Dict.{Dict, insert, lookup-insert}
use agent_coderag.Core.{ok}
use agent_coderag.Storage.Db.{Db, meta_get, meta_set}

module _ {F : Type 0} where
  set_cases :
      (k v : Text) (db d : Db F) (im : Option (Dict Text Text))
      → db.index_meta ≡ im
      → meta_set k v db ≡ ok d
      → (m : Dict Text Text) × (db.index_meta ≡ some m)
        × (d ≡ record db { index_meta = some (insert k v m) })
  unfolding meta_set
  set_cases k v db d none e h = absurd (ground arith)
  set_cases k v db d (some m) e h = (m, e, ground arith)

  pub meta_get-meta_set :
      (k v j : Text) (db d : Db F)
      → meta_set k v db ≡ ok d
      → meta_get j d ≡ (if j == k then some v else meta_get j db)
  unfolding meta_get
  meta_get-meta_set k v j db d h =
      let (m, e, f) = set_cases k v db d db.index_meta refl h in
      rw f (ground (arith, lookup-insert j k v m))

  pub meta_set_tables :
      (k v : Text) (db d : Db F)
      → meta_set k v db ≡ ok d
      → (d.units ≡ db.units) × (d.embeddings ≡ db.embeddings) × (d.relations ≡ db.relations)
  meta_set_tables k v db d h =
      let (m, e, f) = set_cases k v db d db.index_meta refl h in rw f (refl, refl, refl)
