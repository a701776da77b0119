-- ===== src/Ingestion/Commit.antt =====
-- A run that reports success leaves the two stores in step.
use enterprise_multi_tenant.Base.{
  ◌≡◌, ◌≢◌, refl, ap, sym, ◌∙◌, Bool, true, false, not, List, [], ◌∷◌, ◌++◌, Option, none, some,
  filter, arith, inl, inr,
}
use enterprise_multi_tenant.Text.{Text, is_empty}
use enterprise_multi_tenant.Documents.{
  Document, Table, Pool, Result, ok, err, get_tenant_document_id, record_document, new_row,
}
use enterprise_multi_tenant.Documents.Tenancy.{record_document-cases}
use enterprise_multi_tenant.Documents.Quota.{rest_of, record_ok}
use enterprise_multi_tenant.VectorStore.{Point, Filter, matches, delete_documents_from_qdrant}
use enterprise_multi_tenant.VectorStore.Access.{delete_points_exact}
use enterprise_multi_tenant.Ingestion.{
  Attempt, returned, failed, Failure, Pipeline, Replies, Reply, applied, lost, refused, Upload,
  Stores, Prepared, Summary, prepare, is_nil, points_of, document_of, answered_row, unanswered_row,
  row_written, called, remove_obsolete, after_obsolete, after_row, after_upsert, commit, raise_if,
  ◌>>=◌,
}
use enterprise_multi_tenant.Ingestion.Replaced.{without}

>>=-returned :
    {A B : Type 0} (m : Attempt A) (f : A → Attempt B) (b : B)
    → (m >>= f) ≡ returned b
    → (a : A) × (m ≡ returned a) × (f a ≡ returned b)
>>=-returned (returned a) f b h = (a, refl, h)
>>=-returned (failed e) f b h = cc

raise_if-returned : (b : Bool) (e : Failure) (u : Unit {0}) → raise_if b e ≡ returned u → b ≡ false
raise_if-returned true e u h = cc
raise_if-returned false e u h = refl

-- What holds of the values that are known before the first write.
pub prepare_ok :
    (p : Pipeline) (r : Replies) (u : Upload) (s : Stores) (q : Prepared)
    → prepare p r u s ≡ returned q
    → (is_nil q.chunks ≡ false)
      × (p.embed q.chunks ≡ returned q.pairs)
      × (get_tenant_document_id u.tenant_id u.filename s.pool ≡ q.previous)
unfolding prepare
prepare_ok p r u s q h = ground arith

-- What Qdrant documents of its two operations: points with new identifiers are added, and the points
-- that a filter matches are removed.
pub record IsQdrant (upsert : List Point → List Point → List Point)
    (delete : Filter → List Point → List Point) : Type 0 where
  pub upserts : (made points : List Point) → upsert made points ≡ points ++ made
  pub deletes :
      (f : Filter) (points : List Point) → delete f points ≡ filter (λ p. not (matches f p)) points

abbrev pub is_given : Option Text → Bool
is_given none = true
is_given (some id) = not (is_empty id)

module _ (upsert : List Point → List Point → List Point) (delete : Filter → List Point → List Point)
    (qdrant : IsQdrant upsert delete) where
  pub deleted_points :
      (tenant id : Text) (points : List Point)
      → is_empty id ≡ false
      → delete_documents_from_qdrant delete tenant none (some id) points
        ≡ without tenant (some id) points
  deleted_points tenant id points named =
      delete_points_exact delete tenant id none points qdrant.deletes named

  filter_all : (points : List Point) → filter (λ p. true) points ≡ points
  filter_all [] = refl
  filter_all (p ∷ ps) = ap (λ rest. p ∷ rest) (filter_all ps)

  -- What the cleanup of an earlier version leaves where it answers that it did.
  obsolete_ok :
      (reply : Reply) (tenant : Text) (previous : Option Text) (points : List Point)
      → is_given previous ≡ true
      → (remove_obsolete upsert delete reply tenant previous points).0 ≡ true
      → (remove_obsolete upsert delete reply tenant previous points).1
        ≡ without tenant previous points
  obsolete_ok reply tenant none points named h = sym (filter_all points)
  obsolete_ok reply tenant (some []) points named h = absurd (cc named)
  obsolete_ok applied tenant (some (c ∷ id)) points named h =
      deleted_points tenant (c ∷ id) points refl
  obsolete_ok lost tenant (some (c ∷ id)) points named h = absurd (cc h)
  obsolete_ok refused tenant (some (c ∷ id)) points named h = absurd (cc h)

  after_obsolete_ok :
      (r : Replies) (u : Upload) (q : Prepared) (s after : Stores) (m : Summary)
      (o : Bool × List Point)
      → after_obsolete upsert delete r u q s o ≡ (returned m, after)
      → (o.0 ≡ true) × (after.pool ≡ s.pool) × (after.points ≡ o.1) × (m.doc_id ≡ u.doc_id)
  after_obsolete_ok r u q s after m (true, points) h = ground arith
  after_obsolete_ok r u q s after m (false, points) h = ground arith

  answered_row_ok :
      (x : Result (Unit {0}) × Pool) (a : Unit {0}) (pool : Pool)
      → answered_row x ≡ (returned a, pool)
      → x ≡ (ok tt, pool)
  answered_row_ok (ok _, after) a pool h = ap (λ y. (ok tt, y.1)) h
  answered_row_ok (err e, after) a pool h = absurd (cc h)

  unanswered_row_fails :
      (x : Result (Unit {0}) × Pool) (a : Unit {0}) (pool : Pool)
      → unanswered_row x ≢ (returned a, pool)
  unanswered_row_fails (ok _, after) a pool h = cc h
  unanswered_row_fails (err e, after) a pool h = cc h

  row_written_ok :
      (reply : Reply) (p : Pipeline) (d : Document) (rows : Table) (a : Unit {0}) (pool : Pool)
      → row_written reply p d (some rows) ≡ (returned a, pool)
      → record_document d (some p.max_documents) (some p.max_storage_bytes) (some rows)
        ≡ (ok tt, pool)
  row_written_ok applied p d rows a pool h = answered_row_ok _ a pool h
  row_written_ok lost p d rows a pool h = absurd (unanswered_row_fails _ a pool h)
  row_written_ok refused p d rows a pool h = absurd (cc h)

  -- The table after a record that was written.
  recorded_rows :
      (p : Pipeline) (d : Document) (rows : Table) (pool : Pool)
      → record_document d (some p.max_documents) (some p.max_storage_bytes) (some rows)
        ≡ (ok tt, pool)
      → pool ≡ some (rest_of d rows ++ new_row d ∷ [])
  recorded_rows p d rows pool h =
      elim (record_document-cases d (some p.max_documents) (some p.max_storage_bytes) rows) [
        | inl same ↦ some_pool (sym (ap (λ y. y.1) h) ∙ same)
        | inr (written, _) ↦ sym (ap (λ y. y.1) h) ∙ written
      ]
    where
      some_pool :
          {rows' : Table} → pool ≡ some rows' → pool ≡ some (rest_of d rows ++ new_row d ∷ [])
      some_pool {rows'} e =
          e
          ∙ ap some
              (record_ok d (some p.max_documents) (some p.max_storage_bytes) rows rows'
                (h ∙ ap (λ y. (ok tt, y)) e)).1

  after_row_ok :
      (r : Replies) (u : Upload) (q : Prepared) (s after : Stores) (m : Summary)
      (o : Attempt (Unit {0}) × Pool)
      → after_row upsert delete r u q s o ≡ (returned m, after)
      → (a : Unit {0}) × (o ≡ (returned a, o.1))
        × (after_obsolete upsert delete r u q
              (record s { pool = o.1 })
              (remove_obsolete upsert delete r.obsolete u.tenant_id q.previous s.points)
            ≡ (returned m, after))
  after_row_ok r u q s after m (returned a, pool) h = (a, refl, h)
  after_row_ok r u q s after m (failed e, pool) h = absurd (cc h)

  -- A commit that reports success has done each of its steps.
  pub commit_ok :
      (p : Pipeline) (r : Replies) (u : Upload) (q : Prepared) (s after : Stores) (m : Summary)
      (rows : Table)
      → s.pool ≡ some rows
      → is_given q.previous ≡ true
      → commit upsert delete p r u q s ≡ (returned m, after)
      → (after.pool ≡ some (rest_of (document_of u q) rows ++ document_of u q ∷ []))
        × (after.points ≡ without u.tenant_id q.previous (s.points ++ points_of u q))
        × (m.doc_id ≡ u.doc_id)
  unfolding commit
  commit_ok p r u q s after m rows pool_is named h = go r.upsert h
    where
      go :
          (reply : Reply)
          → after_upsert upsert delete p r u q s (called reply (upsert (points_of u q)) s.points)
            ≡ (returned m, after)
          → (after.pool ≡ some (rest_of (document_of u q) rows ++ document_of u q ∷ []))
            × (after.points ≡ without u.tenant_id q.previous (s.points ++ points_of u q))
            × (m.doc_id ≡ u.doc_id)
      go lost k = absurd (cc k)
      go refused k = absurd (cc k)
      go applied k =
          let o : Attempt (Unit {0}) × Pool = row_written r.record_row p (document_of u q) s.pool in
          let (a, row_is, rest) =
            after_row_ok r u q (record s { points = upsert (points_of u q) s.points }) after m o
              k in
          let (did, pool_same, points_are, doc) =
            after_obsolete_ok r u q
              (record s { pool = o.1; points = upsert (points_of u q) s.points }) after m
              (remove_obsolete upsert delete r.obsolete u.tenant_id q.previous
                (upsert (points_of u q) s.points))
              rest in
          (
            pool_same
                ∙ recorded_rows p (document_of u q) rows o.1 (
                    row_written_ok r.record_row p (document_of u q) rows a o.1
                      (ap (row_written r.record_row p (document_of u q)) (sym pool_is) ∙ row_is)),
            points_are
                ∙ obsolete_ok r.obsolete u.tenant_id q.previous (upsert (points_of u q) s.points)
                    named did
                ∙ ap (without u.tenant_id q.previous) (qdrant.upserts (points_of u q) s.points),
            doc,
          )
