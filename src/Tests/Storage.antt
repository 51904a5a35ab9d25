-- ===== src/Tests/Storage.antt =====
-- The storage.
use agent_coderag.Prelude.{
  map, ℕ, ◌≡◌, ◌↔◌, Has, refl, ◌⊎◌, ◌==◌, text_eq, nat_eq, true, false, not, none, some, [], ◌∷◌,
  Text, text, arith, All, contains, keep, if◌then◌else◌,
}
use agent_coderag.Core.{KnowledgeUnit, calls, for_each, Error, ok, raised, Relation}
use agent_coderag.Storage.Units.{
  with_relations, upsert_unit, upsert_relation, bind_for, put_row, put_vector_of, get_unit,
  relations_out, is_stale, row_ids, delete_stale_units,
}
use agent_coderag.Storage.Units.Searched.{with_relations-out}
use agent_coderag.Prelude.Decimal.{decimal}
use agent_coderag.Prelude.Dict.{insert, lookup}
use agent_coderag.Intelligence.Embedder.{dimension, aembed, first_width, bind_dimension}
use agent_coderag.Storage.State.{Storage, read_only, is_read_only, embedder, write}
use agent_coderag.Storage.Db.{
  to_row, find_row, find_vector, has_vectors, schema_vec_width, meta_get, meta_set, put_vector,
  fits,
}
use agent_coderag.Storage.Bind.{
  parse_positive_dim, ensure_embeddings_bound, bind_embeddings, bind_embedder_dimension,
  probe_or_bind_dimension, probe, bind_to, create_table_and_sync_meta, width_differs, write_width,
  create_vectors, is_set,
}
use agent_coderag.Storage.Bind.ReadOnly.{ensure_embeddings_bound_read_only}
use agent_coderag.Storage.Bind.Agreement.{AgreesOn, ensure_embeddings_bound-AgreesOn}
use agent_coderag.Storage.Bind.Reopened.{
  Rebound, parse_positive_dim-decimal, bind_embedder_dimension-Rebound,
}
use agent_coderag.Storage.Units.Stale.{IsFresh, delete_stale_units-Kept}
use agent_coderag.Storage.Units.Stored.{get_unit-upsert_unit}
use agent_coderag.Storage.Rewrite.{commit_rewritten_path}
use agent_coderag.Storage.Rewrite.Renames.{IsMovedDb, commit_rewritten_path-Moves}
use agent_coderag.Tests.Data.{embedder_of_two, unit_at, storage_on, fresh_db, full_db}

ensure_embeddings_bound_example :
    let after = (ensure_embeddings_bound (storage_on fresh_db false)).1 in
    (after.embeddings_bound ≡ true) × (after.pending_wipe ≡ false) × ((n : ℕ) × AgreesOn n after)
unfolding ensure_embeddings_bound bind_embeddings is_read_only embedder bind_embedder_dimension
    has_vectors probe_or_bind_dimension dimension probe aembed first_width bind_to bind_dimension
    create_table_and_sync_meta width_differs schema_vec_width write_width write create_vectors
    meta_get meta_set is_set insert lookup
ensure_embeddings_bound_example =
    ensure_embeddings_bound-AgreesOn (storage_on fresh_db false) refl refl

parse_positive_dim_example : parse_positive_dim (decimal 384) ≡ ok 384
parse_positive_dim_example = parse_positive_dim-decimal 384 (omega arith)

Rebound_example : Rebound embedder_of_two (storage_on full_db false) 2 none
unfolding schema_vec_width meta_get lookup text_eq
Rebound_example =
    bind_embedder_dimension-Rebound embedder_of_two (storage_on full_db false) 2 (omega arith) refl
      refl refl refl

delete_stale_units_example :
    let path = text "a" in
    let parsed = text "a:f" ∷ [] in
    let s = storage_on full_db true in
    let after = (delete_stale_units path parsed s).1.db in
    let stale = row_ids (keep (is_stale path parsed) s.db.units) in
    ((delete_stale_units path parsed s).0 ≡ ok tt)
    × (after.units ≡ keep (λ r. not (is_stale path parsed r)) s.db.units)
    × All (IsFresh path parsed) after.units
    × ((j : Text) → find_vector j after ≡ (if contains stale j then none else find_vector j s.db))
    × All (λ (r : Relation). contains stale r.from_id ≡ false) after.relations
unfolding has_vectors
delete_stale_units_example =
    delete_stale_units-Kept (text "a") (text "a:f" ∷ []) (storage_on full_db true) refl refl

-- A unit that calls another one.
abbrev linked : KnowledgeUnit
linked = record (unit_at (text "a:f") (text "a") (text "new")) {
  relations = record { from_id = text "a:f"; to_id = text "b:f"; type = calls } ∷ [];
}

upsert_unit_example :
    let u = linked in
    let after = (upsert_unit u (some (3 ∷ 4 ∷ [])) (storage_on full_db true)).1 in
    ((get_unit u.id after).0 ≡ ok (some (record u { relations = relations_out u.id after.db })))
    × ((id : Text) (r : Relation)
        → Has r (relations_out id after.db)
          ↔ ((r.from_id ≡ id) × (Has r u.relations ⊎ Has r full_db.relations)))
    × (find_row (text "b:f") after.db.units
        ≡ (if text "b:f" == u.id then some (to_row u) else find_row (text "b:f") full_db.units))
unfolding upsert_unit bind_for ensure_embeddings_bound put_row write put_vector_of put_vector fits
    nat_eq for_each upsert_relation
upsert_unit_example =
    get_unit-upsert_unit linked (some (3 ∷ 4 ∷ [])) (storage_on full_db true) (text "b:f") refl refl

commit_rewritten_path_example :
    let old = text "a" in
    let new = text "c" in
    let r = commit_rewritten_path (λ db subject. none) old new (storage_on full_db true) in
    ((x : Error) × (r ≡ (raised x, storage_on full_db true)))
    ⊎ ((r.0 ≡ ok tt) × IsMovedDb old new full_db r.1.db)
commit_rewritten_path_example =
    commit_rewritten_path-Moves (λ db subject. none) (text "a") (text "c") (storage_on full_db true)

with_relations_example :
    let unit = unit_at (text "a:g") (text "a") (text "h") in
    with_relations full_db (unit ∷ [])
    ≡ map (λ (u : KnowledgeUnit). record u { relations = relations_out u.id full_db }) (unit ∷ [])
with_relations_example =
    with_relations-out full_db (unit_at (text "a:g") (text "a") (text "h") ∷ [])

ensure_embeddings_bound_read_only_example :
    let s : Storage ℕ = record (storage_on full_db false) { mode = read_only } in
    (ensure_embeddings_bound s).1.db ≡ full_db
unfolding is_read_only
ensure_embeddings_bound_read_only_example =
    ensure_embeddings_bound_read_only (record (storage_on full_db false) { mode = read_only }) refl
