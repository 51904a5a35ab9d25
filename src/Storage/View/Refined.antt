-- ===== src/Storage/View/Refined.antt =====
-- The methods of the index make the changes that it promises, in any sequence.
use agent_coderag.Prelude.{
  ◌≡◌, refl, sym, ◌∙◌, ap, arith, true, Option, none, some, List, [], ◌∷◌, Text, text_eq, ◌==◌,
  if◌then◌else◌, inl, inr, Option-cases, Bool-cases,
}
use mathlib.Core.Path.{subst}
use agent_coderag.Prelude.Dict.{lookup-insert}
use agent_coderag.Core.{ok, >>-ok, for_each, Relation, KnowledgeUnit}
use agent_coderag.Storage.Db.{
  Db, to_row, find_row, upsert_row, find_vector, has_vectors, put_vector, fits,
}
use agent_coderag.Storage.State.{Storage, write, write-ok}
use agent_coderag.Storage.Units.{
  is_stale, put_row, put_vector_of, bind_for, upsert_relation, upsert_unit, delete_stale_units,
  delete_rows_where,
}
use agent_coderag.Storage.Units.Stored.{find_row-upsert_row, bind_for_bound}
use agent_coderag.Storage.Units.Stale.{find_vector-delete_rows_where, delete_stale_units_bound}
use agent_coderag.Storage.Sound.Tables.{find_row-keep, contains-keep-hit}
use agent_coderag.Storage.Sound.Methods.{OnSound, Keeps-upsert_unit, Keeps-delete_stale_units}
use agent_coderag.Storage.View.{
  Contents, contents, set_vector, put_unit, forget, Change, put, drop_stale, perform, promised,
  promised_all,
}

module _ {F : Type 0} where
  -- The index is sound and its embeddings are bound.
  pub record IsReady (s : Storage F) : Type 0 where
    pub sound : OnSound s
    pub bound : s.embeddings_bound ≡ true
    pub table : has_vectors s.db ≡ true

  Contents-ext :
      (a b : Contents F)
      → ((j : Text) → a.unit j ≡ b.unit j)
      → ((j : Text) → a.vector j ≡ b.vector j)
      → a ≡ b
  Contents-ext a b u v = λ i. record { unit = λ j. u j i; vector = λ j. v j i }

  find_vector-same :
      (j : Text) (db d : Db F) → d.embeddings ≡ db.embeddings → find_vector j d ≡ find_vector j db
  unfolding find_vector
  find_vector-same j db d e = ground arith

  has_vectors-same : (db d : Db F) → d.embeddings ≡ db.embeddings → has_vectors d ≡ has_vectors db
  unfolding has_vectors
  has_vectors-same db d e = ground arith

  -- The relations of a unit change nothing that the contents show.
  record Alike (s s' : Storage F) : Type 0 where
    units : s'.db.units ≡ s.db.units
    embeddings : s'.db.embeddings ≡ s.db.embeddings
    flag : s'.embeddings_bound ≡ s.embeddings_bound

  upsert_relations-Alike :
      (rels : List Relation) (s : Storage F) → Alike s (for_each rels upsert_relation s).1
  unfolding for_each upsert_relation write
  upsert_relations-Alike [] s = record { units = refl; embeddings = refl; flag = refl }
  upsert_relations-Alike (r ∷ rels) s =
      let rest = upsert_relations-Alike rels (upsert_relation r s).1 in
      record { units = rest.units; embeddings = rest.embeddings; flag = rest.flag }

  put_vector-shown :
      (id : Text) (v : List F) (db d : Db F)
      → put_vector id v db ≡ ok d
      → (d.units ≡ db.units)
        × (has_vectors d ≡ true)
        × ((j : Text) → find_vector j d ≡ (if j == id then some v else find_vector j db))
  unfolding put_vector find_vector has_vectors
  put_vector-shown id v db d h = elim (Option-cases db.embeddings) [
    | inl e ↦ absurd (ground arith)
    | inr (t, e) ↦ elim (Bool-cases (fits t.width v)) [
      | inr k ↦ absurd (ground arith)
      | inl k ↦ (ground arith, ground arith, λ j. ground (arith, lookup-insert j id v t.rows))
    ]
  ]

  -- After the vector was put.
  put_vector_of-shown :
      (id : Text) (v : Option (List F)) (s : Storage F)
      → has_vectors s.db ≡ true
      → (put_vector_of id v s).0 ≡ ok tt
      → let after = (put_vector_of id v s).1 in
        (after.db.units ≡ s.db.units)
        × (has_vectors after.db ≡ true)
        × (after.embeddings_bound ≡ s.embeddings_bound)
        × ((j : Text) → find_vector j after.db ≡ set_vector id v (λ k. find_vector k s.db) j)
  unfolding put_vector_of set_vector
  put_vector_of-shown id none s t h = (refl, t, refl, λ j. refl)
  put_vector_of-shown id (some v) s t h =
      let (d, e, after) = write-ok (put_vector id v) s h in
      let (units, table, vectors) = put_vector-shown id v s.db d e in
      rw after (units, table, refl, vectors)

  -- The call returned in a state where the index is ready, and its contents are these.
  record Refines (s : Storage F) (c : Contents F) : Type 0 where
    ready : IsReady s
    shown : contents s.db ≡ c

  put-Refines :
      (u : KnowledgeUnit) (v : Option (List F)) (s : Storage F)
      → IsReady s
      → (upsert_unit u v s).0 ≡ ok tt
      → Refines (upsert_unit u v s).1 (put_unit u v (contents s.db))
  unfolding upsert_unit contents put_unit has_vectors find_vector to_row set_vector
  put-Refines u v s r h =
      let (b, e1) = >>-ok (bind_for v) _ s tt h in
      let same = bind_for_bound v s r.bound in
      let s2 = (put_row (to_row u) (bind_for v s).1).1 in
      let (p, e2) = >>-ok (put_row (to_row u)) _ (bind_for v s).1 tt (sym (ap (λ x. x.0) e1) ∙ h) in
      let is2 : s2 ≡ record s { db = record s.db { units = upsert_row (to_row u) s.db.units } } =
        unfold put_row write in
        ap
          (λ (t : Storage F). record t {
            db = record t.db { units = upsert_row (to_row u) t.db.units };
          })
          same in
      let table : has_vectors s2.db ≡ true =
        ap (λ (t : Storage F). has_vectors t.db) is2 ∙ r.table in
      let (q, e3) =
        >>-ok (put_vector_of u.id v) (for_each u.relations upsert_relation) s2 tt
          (sym (ap (λ x. x.0) (e1 ∙ e2)) ∙ h) in
      let s3 = (put_vector_of u.id v s2).1 in
      let (units, table3, flag, vectors) = put_vector_of-shown u.id v s2 table q in
      let rest = upsert_relations-Alike u.relations s3 in
      let s4 = (for_each u.relations upsert_relation s3).1 in
      let is : (upsert_unit u v s).1 ≡ s4 = ap (λ x. x.1) (e1 ∙ e2 ∙ e3) in
      let rows : s4.db.units ≡ upsert_row (to_row u) s.db.units =
        rest.units ∙ units ∙ ap (λ (t : Storage F). t.db.units) is2 in
      let kept : (j : Text) → find_vector j s4.db ≡ find_vector j s3.db =
        λ j. find_vector-same j s3.db s4.db rest.embeddings in
      subst (λ (t : Storage F). Refines t (put_unit u v (contents s.db))) (sym is)
        (record {
          ready = record {
            sound = subst OnSound is ((Keeps-upsert_unit u v).after s r.sound);
            bound = rest.flag ∙ flag ∙ ap (λ (t : Storage F). t.embeddings_bound) is2 ∙ r.bound;
            table = has_vectors-same s3.db s4.db rest.embeddings ∙ table3;
          };
          shown =
              Contents-ext _ _
                (λ j. ap (find_row j) rows ∙ find_row-upsert_row j (to_row u) s.db.units)
                (λ j.
                  kept j
                  ∙ vectors j
                  ∙ ap (λ (t : Storage F). set_vector u.id v (λ k. find_vector k t.db) j) is2);
        })

  drop_stale-Refines :
      (path : Text) (ids : List Text) (s : Storage F)
      → IsReady s
      → Refines (delete_stale_units path ids s).1 (forget (is_stale path ids) (contents s.db))
  unfolding contents forget delete_rows_where has_vectors
  drop_stale-Refines path ids s r =
      let p = is_stale path ids in
      let is = ap (λ x. x.1) (delete_stale_units_bound path ids s r.bound r.table) in
      let hits = λ (j : Text). contains-keep-hit p j s.db.units r.sound.keyed in
      subst (λ (t : Storage F). Refines t (forget p (contents s.db))) (sym is)
        (record {
          ready = record {
            sound = subst OnSound is ((Keeps-delete_stale_units path ids).after s r.sound);
            bound = r.bound;
            table = let t = r.table in ground arith;
          };
          shown =
              Contents-ext _ _
                (λ j. ground (arith, find_row-keep p j s.db.units r.sound.keyed, hits j))
                (λ j. ground (arith, find_vector-delete_rows_where p j s.db, hits j));
        })

  perform-Refines :
      (x : Change F) (s : Storage F)
      → IsReady s
      → (perform x s).0 ≡ ok tt
      → Refines (perform x s).1 (promised x (contents s.db))
  unfolding perform promised
  perform-Refines (put u v) s r h = put-Refines u v s r h
  perform-Refines (drop_stale path ids) s r h = drop_stale-Refines path ids s r

  -- From a state of the storage whose index is sound and bound, a sequence of writes and deletions
  -- that returns leaves the contents that it promises: one function of the ids after another, with
  -- no view of the order of the rows; and the index is sound and bound again.
  pub performed-promised :
      (xs : List (Change F)) (s : Storage F)
      → IsReady s
      → (for_each xs perform s).0 ≡ ok tt
      → let after = (for_each xs perform s).1 in
        IsReady after × (contents after.db ≡ promised_all xs (contents s.db))
  unfolding for_each promised_all
  performed-promised [] s r h = (r, refl)
  performed-promised (x ∷ xs) s r h =
      let (done, e) = >>-ok (perform x) (for_each xs perform) s tt h in
      let first = perform-Refines x s r done in
      let (ready, rest) =
        performed-promised xs (perform x s).1 first.ready (sym (ap (λ y. y.0) e) ∙ h) in
      rw e (ready, rest ∙ ap (promised_all xs) first.shown)
