-- ===== src/Ingestion/Success.antt =====
-- An upload that is answered with success: the two stores are in step after it, and the file's
-- record is the new one.
use mathlib.Core.Path.{subst}
use enterprise_multi_tenant.Base.{
  ℕ, ◌≡◌, ◌≢◌, refl, ap, sym, ◌∙◌, true, false, List, [], ◌∷◌, ◌++◌, Option, none, some, map, take,
  length, inl,
}
use enterprise_multi_tenant.Base.Members.{In, In-map, append-In_right}
use enterprise_multi_tenant.Text.{Text, is_empty}
use enterprise_multi_tenant.Documents.{Document, Table, get_tenant_document_id}
use enterprise_multi_tenant.Documents.Quota.{rest_of}
use enterprise_multi_tenant.VectorStore.{Point, Filter}
use enterprise_multi_tenant.Ingestion.{
  Attempt, returned, failed, Pipeline, Replies, Upload, Stores, Prepared, Summary, prepare, is_nil,
  points_of, document_of, commit, process_document_ingestion,
}
use enterprise_multi_tenant.Ingestion.Synced.{Synced, Describes, previous_row, row_of_previous}
use enterprise_multi_tenant.Ingestion.Replaced.{Fresh, replaced-Synced}
use enterprise_multi_tenant.Ingestion.Commit.{prepare_ok, IsQdrant, is_given, commit_ok}

-- The identifier that is read for a file is one that a row has.
previous_is_given :
    (rows : Table) (points : List Point) (s : Synced rows points) (tenant file : Text)
    → is_given (get_tenant_document_id tenant file (some rows)) ≡ true
previous_is_given rows points s tenant file =
    go (get_tenant_document_id tenant file (some rows)) refl
  where
    go : (o : Option Text) → get_tenant_document_id tenant file (some rows) ≡ o → is_given o ≡ true
    go none e = refl
    go (some i) e =
        let (d, d_in, _, _, same) = row_of_previous rows points s tenant file i e in
        rw (sym same, s.named d d_in) refl

pub some_point :
    (u : Upload) (q : Prepared)
    → is_nil q.chunks ≡ false
    → q.pairs ≡ length q.chunks
    → (p : Point) × In p (points_of u q)
unfolding points_of
some_point u q h e = go q.chunks q.pairs h e
  where
    at : Text → Point
    at chunk = record {
      tenant_id = u.tenant_id;
      doc_id = u.doc_id;
      filename = u.filename;
      body = chunk;
      allowed_roles = q.roles;
    }

    go :
        (chunks : List Text) (n : ℕ)
        → is_nil chunks ≡ false
        → n ≡ length chunks
        → (p : Point) × In p (map at (take n chunks))
    go [] n k e = absurd (cc k)
    go (c ∷ cs) n k e = (at c, rw e (inl refl))

pub point-Describes :
    (u : Upload) (q : Prepared) (p : Point) → In p (points_of u q) → Describes (document_of u q) p
unfolding points_of
point-Describes u q p h =
    let (c, _, e) = In-map _ p (take q.pairs q.chunks) h in
    subst (λ x. Describes (document_of u q) x) (sym e)
      (record { tenant = refl; document = refl; file = refl; roles = refl })

module _ (upsert : List Point → List Point → List Point) (delete : Filter → List Point → List Point)
    (qdrant : IsQdrant upsert delete) where
  committed :
      (p : Pipeline) (r : Replies) (u : Upload) (s after : Stores) (m : Summary)
      → process_document_ingestion upsert delete p r u s ≡ (returned m, after)
      → (q : Prepared) × (prepare p r u s ≡ returned q)
        × (commit upsert delete p r u q s ≡ (returned m, after))
  unfolding process_document_ingestion
  committed p r u s after m h = go (prepare p r u s) refl h
    where
      go :
          (o : Attempt Prepared)
          → prepare p r u s ≡ o
          → elim o as (λ _. Attempt Summary × Stores) [
            | failed e ↦ (failed e, s)
            | returned q ↦ commit upsert delete p r u q s
          ]
            ≡ (returned m, after)
          → (q : Prepared) × (prepare p r u s ≡ returned q)
            × (commit upsert delete p r u q s ≡ (returned m, after))
      go (failed e) k j = absurd (cc j)
      go (returned q) k j = (q, k, j)

  -- The table and the stores after a success.
  pub succeeded :
      (p : Pipeline) (r : Replies) (u : Upload) (s after : Stores) (m : Summary) (rows : Table)
      → s.pool ≡ some rows
      → Synced rows s.points
      → ((chunks : List Text) (n : ℕ) → p.embed chunks ≡ returned n → n ≡ length chunks)
      → is_empty u.doc_id ≡ false
      → ((x : Point) → In x s.points → x.doc_id ≢ u.doc_id)
      → process_document_ingestion upsert delete p r u s ≡ (returned m, after)
      → (q : Prepared) × (after.pool
          ≡ some (rest_of (document_of u q) rows ++ document_of u q ∷ []))
        × Synced (rest_of (document_of u q) rows ++ document_of u q ∷ []) after.points
        × (m.doc_id ≡ u.doc_id)
  succeeded p r u s after m rows pool_is synced embeds named new h =
      let (q, prepared, done) = committed p r u s after m h in
      let (some_chunk, embedded, previous) = prepare_ok p r u s q prepared in
      let read : get_tenant_document_id u.tenant_id u.filename (some rows) ≡ q.previous =
        ap (get_tenant_document_id u.tenant_id u.filename) (sym pool_is) ∙ previous in
      let given : is_given q.previous ≡ true =
        ap is_given (sym read) ∙ previous_is_given rows s.points synced u.tenant_id u.filename in
      let (pool_after, points_after, doc) =
        commit_ok upsert delete qdrant p r u q s after m rows pool_is given done in
      let n : Document = document_of u q in
      let made_fresh : Fresh s.points n (points_of u q) = record {
        active = refl;
        named = named;
        new_id = new;
        owned = λ x i. point-Describes u q x i;
        made_one = some_point u q some_chunk (embeds q.chunks q.pairs embedded);
      } in
      (
        q,
        pool_after,
        subst (λ x. Synced (rest_of n rows ++ n ∷ []) x) (sym points_after)
            (replaced-Synced rows s.points (points_of u q) n synced made_fresh q.previous read),
        doc,
      )

  -- Where the two stores are in step, Qdrant adds and removes what it is asked to, both models give
  -- a vector for each chunk and the identifier that is drawn is given and new, an upload that is
  -- answered with success leaves the stores in step, with the new identifier as the file's.
  pub process_document_ingestion-Synced :
      (p : Pipeline) (r : Replies) (u : Upload) (s after : Stores) (m : Summary) (rows : Table)
      → s.pool ≡ some rows
      → Synced rows s.points
      → ((chunks : List Text) (n : ℕ) → p.embed chunks ≡ returned n → n ≡ length chunks)
      → is_empty u.doc_id ≡ false
      → ((x : Point) → In x s.points → x.doc_id ≢ u.doc_id)
      → process_document_ingestion upsert delete p r u s ≡ (returned m, after)
      → (rows' : Table) × (after.pool ≡ some rows')
        × Synced rows' after.points
        × (get_tenant_document_id u.tenant_id u.filename (some rows') ≡ some u.doc_id)
        × (m.doc_id ≡ u.doc_id)
  process_document_ingestion-Synced p r u s after m rows pool_is synced embeds named new h =
      let (q, pool_after, in_step, doc) =
        succeeded p r u s after m rows pool_is synced embeds named new h in
      let n : Document = document_of u q in
      (
        rest_of n rows ++ n ∷ [],
        pool_after,
        in_step,
        previous_row (rest_of n rows ++ n ∷ []) after.points in_step n
            (append-In_right n (rest_of n rows) (n ∷ []) (inl refl)),
        doc,
      )
