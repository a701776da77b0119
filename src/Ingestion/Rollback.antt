-- ===== src/Ingestion/Rollback.antt =====
-- An upload that fails: what the compensations undo, and what they do not reach.
use mathlib.Core.Path.{subst}
use enterprise_multi_tenant.Base.{
  any, inl, inr, length, append-nil, ℕ, ◌≡◌, ◌≢◌, refl, ap, sym, ◌∙◌, Bool, true, false, not, List,
  [], ◌∷◌, ◌++◌, Option, none, some, filter, arith,
}
use enterprise_multi_tenant.Base.Rows.{filter-append}
use enterprise_multi_tenant.Base.Members.{append-In_right, In, delete_none, delete_every}
use enterprise_multi_tenant.Text.{Text, text_eq, is_empty, text_eq_iff, text_eq_refl}
use enterprise_multi_tenant.Documents.{
  Document, Table, Pool, Result, ok, err, Error, check_quota, replace_document, record_document,
}
use enterprise_multi_tenant.VectorStore.{Point, Filter}
use enterprise_multi_tenant.VectorStore.Access.{of_document}
use enterprise_multi_tenant.Ingestion.{
  Attempt, returned, failed, Failure, runtime_error, Pipeline, Replies, Reply, applied, lost,
  refused, Upload, Stores, Prepared, Summary, prepare, points_of, document_of, answered_row,
  row_written, called, deleted, remove_obsolete, after_obsolete, after_row, after_upsert, commit,
  process_document_ingestion,
}
use enterprise_multi_tenant.Ingestion.Replaced.{without}
use enterprise_multi_tenant.Ingestion.Commit.{prepare_ok, IsQdrant, deleted_points}
use enterprise_multi_tenant.Ingestion.Success.{point-Describes, some_point}
use enterprise_multi_tenant.Ingestion.Synced.{Synced, Describes}

-- A record that is not written leaves the table.
record_err :
    (d : Document) (a b : Option ℕ) (pool pool' : Pool) (e : Error)
    → record_document d a b pool ≡ (err e, pool')
    → pool' ≡ pool
unfolding record_document
record_err d a b none pool' e h = ap (λ y. y.1) (sym h)
record_err d a b (some rows) pool' e h =
    checked (check_quota d.tenant_id d.filename d.size_bytes a b rows) (replace_document d rows) h
  where
    checked :
        (c : Result (Unit {0})) (x : Result Table)
        → elim c as (λ _. Result (Unit {0}) × Pool) [
          | err e' ↦ (err e', some rows)
          | ok _ ↦ elim x as (λ _. Result (Unit {0}) × Pool) [
            | ok rows' ↦ (ok tt, some rows')
            | err e' ↦ (err e', some rows)
          ]
        ]
          ≡ (err e, pool')
        → pool' ≡ some rows
    checked (err e') x k = ap (λ y. y.1) (sym k)
    checked (ok _) (ok rows') k = absurd (cc k)
    checked (ok _) (err e') k = ap (λ y. y.1) (sym k)

answered_row_err :
    (x : Result (Unit {0}) × Pool) (e : Failure) (pool : Pool)
    → answered_row x ≡ (failed e, pool)
    → (e' : Error) × (x ≡ (err e', pool))
answered_row_err (ok _, after) e pool h = absurd (cc h)
answered_row_err (err e', after) e pool h = (e', ap (λ y. (err e', y.1)) h)

-- A row that is not written leaves the pool, where no answer to a commit is lost.
row_written_err :
    (reply : Reply) (p : Pipeline) (d : Document) (pool pool' : Pool) (e : Failure)
    → reply ≢ lost
    → row_written reply p d pool ≡ (failed e, pool')
    → pool' ≡ pool
row_written_err refused p d pool pool' e known h = ap (λ y. y.1) (sym h)
row_written_err lost p d pool pool' e known h = absurd (known refl)
row_written_err applied p d pool pool' e known h =
    let (e', is_err) = answered_row_err _ e pool' h in record_err d _ _ pool pool' e' is_err

-- The cleanup of the points that were just added takes them all and nothing else.
cleanup_exact :
    (u : Upload) (q : Prepared) (points : List Point)
    → ((x : Point) → In x points → x.doc_id ≢ u.doc_id)
    → without u.tenant_id (some u.doc_id) (points ++ points_of u q) ≡ points
cleanup_exact u q points new =
    filter-append (λ p. not (of_document u.tenant_id u.doc_id p)) points (points_of u q)
    ∙ ap (λ x. x ++ filter (λ p. not (of_document u.tenant_id u.doc_id p)) (points_of u q))
        (delete_none (of_document u.tenant_id u.doc_id) points old)
    ∙ ap (λ x. points ++ x) (delete_every (of_document u.tenant_id u.doc_id) (points_of u q) made)
    ∙ append-nil points
  where
    old : (x : Point) → In x points → of_document u.tenant_id u.doc_id x ≡ false
    old x i =
        let differs : x.doc_id ≢ u.doc_id = new x i in ground (arith, text_eq_iff x.doc_id u.doc_id)

    made : (x : Point) → In x (points_of u q) → of_document u.tenant_id u.doc_id x ≡ true
    made x i =
        let d : Describes (document_of u q) x = point-Describes u q x i in
        rw (d.tenant, d.document, text_eq_refl u.tenant_id) (text_eq_refl u.doc_id)

module _ (upsert : List Point → List Point → List Point) (delete : Filter → List Point → List Point)
    (qdrant : IsQdrant upsert delete) where
  -- A cleanup of an earlier version that answers lets the run succeed.
  obsolete_answers :
      (tenant : Text) (previous : Option Text) (points : List Point)
      → (remove_obsolete upsert delete applied tenant previous points).0 ≡ true
  obsolete_answers tenant none points = refl
  obsolete_answers tenant (some []) points = refl
  obsolete_answers tenant (some (c ∷ id)) points = refl

  after_obsolete_fails :
      (r : Replies) (u : Upload) (q : Prepared) (s after : Stores) (e : Failure)
      (o : Bool × List Point)
      → after_obsolete upsert delete r u q s o ≡ (failed e, after)
      → o.0 ≡ false
  after_obsolete_fails r u q s after e (true, points) h = absurd (cc h)
  after_obsolete_fails r u q s after e (false, points) h = refl

  after_row_fails :
      (r : Replies) (u : Upload) (q : Prepared) (s after : Stores) (e : Failure)
      (o : Attempt (Unit {0}) × Pool)
      → r.cleanup ≡ applied
      → r.obsolete ≡ applied
      → after_row upsert delete r u q s o ≡ (failed e, after)
      → (e' : Failure) × (o ≡ (failed e', o.1))
        × (after ≡ record s {
          pool = o.1;
          points = (deleted upsert delete applied u.tenant_id u.doc_id s.points).1;
        })
  after_row_fails r u q s after e (returned a, pool) cleanup obsolete h = absurd (
      ground (
        arith,
        after_obsolete_fails r u q (record s { pool = pool }) after e _ h,
        obsolete,
        obsolete_answers u.tenant_id q.previous s.points,
      ))
  after_row_fails r u q s after e (failed e', pool) cleanup obsolete h = (
    e',
    refl,
    ap (λ y. y.1) (sym h)
        ∙ ap
            (λ c. record s {
              pool = pool;
              points = (deleted upsert delete c u.tenant_id u.doc_id s.points).1;
            })
            cleanup,
  )

  commit_fails :
      (p : Pipeline) (r : Replies) (u : Upload) (q : Prepared) (s after : Stores) (e : Failure)
      → is_empty u.doc_id ≡ false
      → ((x : Point) → In x s.points → x.doc_id ≢ u.doc_id)
      → r.upsert ≢ lost
      → r.record_row ≢ lost
      → r.cleanup ≡ applied
      → r.obsolete ≡ applied
      → commit upsert delete p r u q s ≡ (failed e, after)
      → after ≡ s
  unfolding commit
  commit_fails p r u q s after e named new up row cleanup obsolete h = go r.upsert up h
    where
      go :
          (reply : Reply)
          → reply ≢ lost
          → after_upsert upsert delete p r u q s (called reply (upsert (points_of u q)) s.points)
            ≡ (failed e, after)
          → after ≡ s
      go lost known k = absurd (known refl)
      go refused known k = ap (λ y. y.1) (sym k)
      go applied known k =
          let o : Attempt (Unit {0}) × Pool = row_written r.record_row p (document_of u q) s.pool in
          let (e', row_is, is_after) =
            after_row_fails r u q (record s { points = upsert (points_of u q) s.points }) after e o
              cleanup obsolete k in
          let pool_same : o.1 ≡ s.pool =
            row_written_err r.record_row p (document_of u q) s.pool o.1 e' row row_is in
          let points_same : (deleted upsert delete applied u.tenant_id u.doc_id
                (upsert (points_of u q) s.points)).1
              ≡ s.points =
            deleted_points upsert delete qdrant u.tenant_id u.doc_id
              (upsert (points_of u q) s.points) named
            ∙ ap (without u.tenant_id (some u.doc_id)) (qdrant.upserts (points_of u q) s.points)
            ∙ cleanup_exact u q s.points new in
          is_after
          ∙ ap
              (λ x. record s {
                pool = x;
                points =
                    (deleted upsert delete applied u.tenant_id u.doc_id
                      (upsert (points_of u q) s.points)).1;
              })
              pool_same
          ∙ ap (λ x. record s { points = x }) points_same

  -- An upload that fails leaves all stores as they were, where each call that fails has had no
  -- effect, the two cleanups answer, Qdrant adds and removes what it is asked to, and the identifier
  -- that is drawn is given and new.
  pub process_document_ingestion_undone :
      (p : Pipeline) (r : Replies) (u : Upload) (s after : Stores) (e : Failure)
      → is_empty u.doc_id ≡ false
      → ((x : Point) → In x s.points → x.doc_id ≢ u.doc_id)
      → r.upsert ≢ lost
      → r.record_row ≢ lost
      → r.cleanup ≡ applied
      → r.obsolete ≡ applied
      → process_document_ingestion upsert delete p r u s ≡ (failed e, after)
      → after ≡ s
  unfolding process_document_ingestion
  process_document_ingestion_undone p r u s after e named new up row cleanup obsolete h =
      go (prepare p r u s) h
    where
      go :
          (o : Attempt Prepared)
          → elim o as (λ _. Attempt Summary × Stores) [
            | failed e' ↦ (failed e', s)
            | returned q ↦ commit upsert delete p r u q s
          ]
            ≡ (failed e, after)
          → after ≡ s
      go (failed e') k = ap (λ y. y.1) (sym k)
      go (returned q) k = commit_fails p r u q s after e named new up row cleanup obsolete k

  -- The stores after an upsert that took effect without an answer.
  lost_stores :
      (p : Pipeline) (r : Replies) (u : Upload) (s : Stores) (q : Prepared)
      → prepare p r u s ≡ returned q
      → r.upsert ≡ lost
      → process_document_ingestion upsert delete p r u s
        ≡ (failed runtime_error, record s { points = s.points ++ points_of u q })
  unfolding process_document_ingestion commit
  lost_stores p r u s q prepared up =
      ap
        (λ (o : Attempt Prepared). elim o as (λ _. Attempt Summary × Stores) [
          | failed e ↦ (failed e, s)
          | returned x ↦ commit upsert delete p r u x s
        ])
        prepared
      ∙ ap
          (λ reply.
            after_upsert upsert delete p r u q s (called reply (upsert (points_of u q)) s.points))
          up
      ∙ ap (λ x. (failed runtime_error, record s { points = x }))
          (qdrant.upserts (points_of u q) s.points)

  -- Where the stores are in step, both models give a vector for each chunk and the identifier that is
  -- drawn is new, an upload whose upsert takes effect without an answer fails and writes no record, but
  -- a point stays that has the tenant, the identifier, the filename and the roles of the upload and is
  -- of no document of the table, so that the stores are no longer in step.
  pub process_document_ingestion_lost :
      (p : Pipeline) (r : Replies) (u : Upload) (s : Stores) (q : Prepared) (rows : Table)
      → s.pool ≡ some rows
      → Synced rows s.points
      → ((chunks : List Text) (n : ℕ) → p.embed chunks ≡ returned n → n ≡ length chunks)
      → ((x : Point) → In x s.points → x.doc_id ≢ u.doc_id)
      → prepare p r u s ≡ returned q
      → r.upsert ≡ lost
      → let run = process_document_ingestion upsert delete p r u s in
        (run.0 ≡ failed runtime_error)
        × (run.1.pool ≡ some rows)
        × ((x : Point) × In x run.1.points
            × Describes (document_of u q) x
            × (any (λ d. text_eq d.id x.doc_id) rows ≡ false))
        × ¬ (Synced rows run.1.points)
  process_document_ingestion_lost p r u s q rows has_rows synced embeds new prepared up =
      let stores : process_document_ingestion upsert delete p r u s
          ≡ (failed runtime_error, record s { points = s.points ++ points_of u q }) =
        lost_stores p r u s q prepared up in
      let (some_chunk, embedded, _) = prepare_ok p r u s q prepared in
      let (x, made) = some_point u q some_chunk (embeds q.chunks q.pairs embedded) in
      (
        ap (λ y. y.0) stores,
        ap (λ y. y.1.pool) stores ∙ has_rows,
        (
          x,
          subst (λ y. In x y.1.points) (sym stores)
              (append-In_right x s.points (points_of u q) made),
          point-Describes u q x made,
          recorded_nowhere x ((point-Describes u q x made).document) rows
              (λ d i. synced.indexed d i),
        ),
        λ after.
            let still : Synced rows (s.points ++ points_of u q) =
              subst (λ y. Synced rows y.1.points) stores after in
            let (d, d_in, describes) =
              still.owned x (append-In_right x s.points (points_of u q) made) in
            let (old, old_in, old_describes) = synced.indexed d d_in in
            new old old_in (
              old_describes.document
              ∙ sym describes.document
              ∙ (point-Describes u q x made).document),
      )
    where
      -- No row has the identifier of a point that was just made.
      recorded_nowhere :
          (x : Point)
          → x.doc_id ≡ u.doc_id
          → (ds : Table) → ((d : Document) → In d ds → (y : Point) × In y s.points × Describes d y)
          → any (λ d. text_eq d.id x.doc_id) ds ≡ false
      recorded_nowhere x made [] indexed = refl
      recorded_nowhere x made (d ∷ ds) indexed =
          let (y, y_in, describes) = indexed d (inl refl) in
          let differs : y.doc_id ≢ u.doc_id = new y y_in in
          let same : y.doc_id ≡ d.id = describes.document in
          let rest : any (λ e. text_eq e.id x.doc_id) ds ≡ false =
            recorded_nowhere x made ds (λ e i. indexed e (inr i)) in
          ground (arith, text_eq_iff d.id x.doc_id)
