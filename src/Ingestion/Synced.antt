-- ===== src/Ingestion/Synced.antt =====
-- The two stores in step: every point belongs to a recorded document, with its filename and its
-- roles, and every recorded document has a point.
use mathlib.Core.Path.{subst}
use mathlib.Core.Option.{some-injective, none-ne-some}
use enterprise_multi_tenant.Base.{
  ◌≡◌, refl, ap, Bool, false, ◌&&◌, List, [], ◌∷◌, Option, none, some, filter, leb, arith, inl, inr,
  Bool-cases,
}
use enterprise_multi_tenant.Base.Members.{In, In-filter, filter-In}
use enterprise_multi_tenant.Text.{Text, text, text_eq_iff, text_eq_refl, join, is_empty}
use enterprise_multi_tenant.Documents.{
  Document, Table, is_active, is_file, newer, newest, get_tenant_document_id,
}
use enterprise_multi_tenant.VectorStore.{Point}

-- The point was made from the document: it is searched under the roles that the document is listed
-- under.
pub record Describes (d : Document) (p : Point) : Type 0 where
  pub tenant : p.tenant_id ≡ d.tenant_id
  pub document : p.doc_id ≡ d.id
  pub file : p.filename ≡ d.filename
  pub roles : d.allowed_roles ≡ join (text ",") p.allowed_roles

pub record Synced (rows : Table) (points : List Point) : Type 0 where
  pub active : (d : Document) → In d rows → d.deleted_at ≡ none
  pub named : (d : Document) → In d rows → is_empty d.id ≡ false
  pub one_id : (d e : Document) → In d rows → In e rows → d.id ≡ e.id → d ≡ e
  pub one_file :
      (d e : Document)
      → In d rows
      → In e rows
      → d.tenant_id ≡ e.tenant_id
      → d.filename ≡ e.filename
      → d ≡ e
  pub owned : (p : Point) → In p points → (d : Document) × In d rows × Describes d p
  pub indexed : (d : Document) → In d rows → (p : Point) × In p points × Describes d p

pub nothing-Synced : Synced [] []
nothing-Synced = record {
  active = λ d h. absurd h;
  named = λ d h. absurd h;
  one_id = λ d e h k _. absurd h;
  one_file = λ d e h k _ _. absurd h;
  owned = λ p h. absurd h;
  indexed = λ d h. absurd h;
}

newer-In :
    (e : Document) (o : Option Document) (es : List Document)
    → ((f : Document) → o ≡ some f → In f es)
    → In (newer e o) (e ∷ es)
newer-In e none es h = inl refl
newer-In e (some f) es h = elim (Bool-cases (leb f.created_at e.created_at)) [
  | inl e_newer ↦ inl (rw e_newer refl)
  | inr f_newer ↦ inr (subst (λ x. In x es) (rw f_newer refl) (h f refl))
]

newest-In : (ds : List Document) (d : Document) → newest ds ≡ some d → In d ds
newest-In [] d h = absurd (none-ne-some _ h)
newest-In (e ∷ es) d h =
    subst (λ x. In x (e ∷ es)) (some-injective _ _ h)
      (newer-In e (newest es) es (λ f k. newest-In es f k))

newest_of :
    (ds : List Document) (d : Document) → In d ds → (e : Document) × (newest ds ≡ some e) × In e ds
newest_of [] d h = absurd h
newest_of (e ∷ es) d h = (newer e (newest es), refl, newest-In (e ∷ es) _ refl)

module _ (rows : Table) (points : List Point) (s : Synced rows points) where
  -- The row of a file is the one whose identifier is read for it.
  pub previous_row :
      (d : Document)
      → In d rows
      → get_tenant_document_id d.tenant_id d.filename (some rows) ≡ some d.id
  unfolding get_tenant_document_id
  previous_row d i =
      let at_file : (Document → Bool) =
        λ e. is_active d.tenant_id e && is_file d.tenant_id d.filename e in
      let active : d.deleted_at ≡ none = s.active d i in
      let (e, newest_is, found) = newest_of (filter at_file rows) d (
        filter-In at_file d rows i
          (ground (arith, text_eq_refl d.tenant_id, text_eq_refl d.filename))) in
      let (e_in, is_at) = In-filter at_file e rows found in
      let same : e ≡ d =
        s.one_file e d e_in i ((text_eq_iff e.tenant_id d.tenant_id).0 (ground arith))
          ((text_eq_iff e.filename d.filename).0 (ground arith)) in
      rw (get_tenant_document_id, newest_is) (ap (λ x. some x.id) same)

  -- What is read for a file is the identifier of its row.
  pub row_of_previous :
      (tenant file i : Text)
      → get_tenant_document_id tenant file (some rows) ≡ some i
      → (d : Document) × In d rows × (d.tenant_id ≡ tenant) × (d.filename ≡ file) × (d.id ≡ i)
  unfolding get_tenant_document_id
  row_of_previous tenant file i h = go (newest (filter at_file rows)) refl h
    where
      at_file : Document → Bool
      at_file e = is_active tenant e && is_file tenant file e

      go :
          (o : Option Document)
          → newest (filter at_file rows) ≡ o
          → elim o as (λ _. Option Text) [ none ↦ none | some d ↦ some d.id ] ≡ some i
          → (d : Document) × In d rows × (d.tenant_id ≡ tenant) × (d.filename ≡ file) × (d.id ≡ i)
      go none e k = absurd (none-ne-some _ k)
      go (some d) e k =
          let (d_in, is_at) = In-filter at_file d rows (newest-In (filter at_file rows) d e) in
          (
            d,
            d_in,
            (text_eq_iff d.tenant_id tenant).0 (ground arith),
            (text_eq_iff d.filename file).0 (ground arith),
            some-injective _ _ k,
          )
