-- ===== src/Ingestion/Replaced.antt =====
-- A new version of a file in both stores: the old row and its points go, the new ones come.
use mathlib.Core.Path.{subst}
use enterprise_multi_tenant.Base.{
  ◌≡◌, ◌≢◌, ◌⊎◌, refl, ap, sym, ◌∙◌, Bool, true, false, not, List, [], ◌∷◌, ◌++◌, Option, none,
  some, filter, arith, inl, inr, Bool-cases,
}
use enterprise_multi_tenant.Base.Members.{
  In, In-append, append-In_left, append-In_right, In-filter, filter-In,
}
use enterprise_multi_tenant.Text.{Text, text_eq_iff, text_eq_refl, is_empty}
use enterprise_multi_tenant.Documents.{Document, Table, get_tenant_document_id}
use enterprise_multi_tenant.Documents.Quota.{of_file, rest_of}
use enterprise_multi_tenant.VectorStore.{Point}
use enterprise_multi_tenant.VectorStore.Access.{of_document}
use enterprise_multi_tenant.Ingestion.Synced.{Synced, Describes, previous_row, row_of_previous}

-- A point of the previous version, if there is one.
abbrev pub goes : Text → Option Text → Point → Bool
goes tenant none p = false
goes tenant (some id) p = of_document tenant id p

-- The points that the cleanup of the previous version leaves.
abbrev pub without : Text → Option Text → List Point → List Point
without tenant previous points = filter (λ p. not (goes tenant previous p)) points

-- A document that is new to both stores, with its points.
pub record Fresh (points : List Point) (n : Document) (made : List Point) : Type 0 where
  pub active : n.deleted_at ≡ none
  pub named : is_empty n.id ≡ false
  pub new_id : (p : Point) → In p points → p.doc_id ≢ n.id
  pub owned : (p : Point) → In p made → Describes n p
  pub made_one : (p : Point) × In p made

module _ (rows : Table) (points made : List Point) (n : Document) (s : Synced rows points)
    (f : Fresh points n made) where
  abbrev rows' : Table
  rows' = rest_of n rows ++ n ∷ []

  row_cases : (d : Document) → In d rows' → (In d rows × (of_file n d ≡ false)) ⊎ (d ≡ n)
  row_cases d h = elim (In-append d (rest_of n rows) (n ∷ []) h) [
    | inl old ↦
        let (i, kept) = In-filter (λ e. not (of_file n e)) d rows old in inl (i, ground arith)
    | inr (inl e) ↦ inr e
    | inr (inr none_left) ↦ absurd none_left
  ]

  row_id_fresh : (d : Document) → In d rows → d.id ≢ n.id
  row_id_fresh d i e =
      let (p, p_in, described) = s.indexed d i in f.new_id p p_in (described.document ∙ e)

  not_file :
      (d : Document) → of_file n d ≡ false → d.tenant_id ≡ n.tenant_id → d.filename ≢ n.filename
  not_file d h t e =
      ground (arith, text_eq_iff d.tenant_id n.tenant_id, text_eq_iff d.filename n.filename)

  one_id' : (d e : Document) → In d rows' → In e rows' → d.id ≡ e.id → d ≡ e
  one_id' d e hd he same = elim (row_cases d hd) [
    | inl (d_in, _) ↦ elim (row_cases e he) [
      | inl (e_in, _) ↦ s.one_id d e d_in e_in same
      | inr new ↦ absurd (row_id_fresh d d_in (same ∙ ap (λ x. x.id) new))
    ]
    | inr new ↦ elim (row_cases e he) [
      | inl (e_in, _) ↦ absurd (row_id_fresh e e_in (sym same ∙ ap (λ x. x.id) new))
      | inr also ↦ new ∙ sym also
    ]
  ]

  one_file' :
      (d e : Document)
      → In d rows'
      → In e rows'
      → d.tenant_id ≡ e.tenant_id
      → d.filename ≡ e.filename
      → d ≡ e
  one_file' d e hd he t g = elim (row_cases d hd) [
    | inl (d_in, d_not) ↦ elim (row_cases e he) [
      | inl (e_in, _) ↦ s.one_file d e d_in e_in t g
      | inr new ↦
          absurd (not_file d d_not (t ∙ ap (λ x. x.tenant_id) new) (g ∙ ap (λ x. x.filename) new))
    ]
    | inr new ↦ elim (row_cases e he) [
      | inl (e_in, e_not) ↦
          absurd (
            not_file e e_not (sym t ∙ ap (λ x. x.tenant_id) new) (sym g ∙ ap (λ x. x.filename) new))
      | inr also ↦ new ∙ sym also
    ]
  ]

  module _ (previous : Option Text)
      (read : get_tenant_document_id n.tenant_id n.filename (some rows) ≡ previous) where
    -- A point that goes is one of the old row's, and the old row is the file's.
    goes-of_file :
        (d : Document) (p : Point)
        → In d rows
        → Describes d p
        → goes n.tenant_id previous p ≡ true
        → of_file n d ≡ true
    goes-of_file d p i describes h = go previous read h
      where
        go :
            (o : Option Text)
            → get_tenant_document_id n.tenant_id n.filename (some rows) ≡ o
            → goes n.tenant_id o p ≡ true
            → of_file n d ≡ true
        go none _ k = absurd (ground arith)
        go (some id) found k =
            let (e, e_in, t, g, same) =
              row_of_previous rows points s n.tenant_id n.filename id found in
            let p_id : p.doc_id ≡ id = (text_eq_iff p.doc_id id).0 (ground arith) in
            let d_is : d ≡ e = s.one_id d e i e_in (sym describes.document ∙ p_id ∙ sym same) in
            rw (d_is, t, g, text_eq_refl n.tenant_id) (text_eq_refl n.filename)

    -- The points of the file's old row go.
    old_goes :
        (d : Document) (p : Point)
        → In d rows
        → Describes d p
        → of_file n d ≡ true
        → goes n.tenant_id previous p ≡ true
    old_goes d p i describes h =
        let t : d.tenant_id ≡ n.tenant_id =
          (text_eq_iff d.tenant_id n.tenant_id).0 (ground arith) in
        let g : d.filename ≡ n.filename = (text_eq_iff d.filename n.filename).0 (ground arith) in
        let found : previous ≡ some d.id =
          sym read
          ∙ subst (λ x. get_tenant_document_id x n.filename (some rows) ≡ some d.id) t
              (subst (λ x. get_tenant_document_id d.tenant_id x (some rows) ≡ some d.id) g
                (previous_row rows points s d i)) in
        rw (found, describes.tenant, describes.document, t, text_eq_refl n.tenant_id)
          (text_eq_refl d.id)

    -- The new points stay.
    new_stays : (p : Point) → In p made → goes n.tenant_id previous p ≡ false
    new_stays p h = go previous read
      where
        go :
            (o : Option Text)
            → get_tenant_document_id n.tenant_id n.filename (some rows) ≡ o
            → goes n.tenant_id o p ≡ false
        go none _ = refl
        go (some id) found =
            let (e, e_in, t, g, same) =
              row_of_previous rows points s n.tenant_id n.filename id found in
            let not_same : p.doc_id ≢ id =
              λ k. row_id_fresh e e_in (same ∙ sym k ∙ (f.owned p h).document) in
            ground (arith, text_eq_iff p.doc_id id)

    owned' :
        (p : Point)
        → In p (without n.tenant_id previous (points ++ made))
        → (d : Document) × In d rows' × Describes d p
    owned' p h =
        let (p_in, stays) =
          In-filter (λ q. not (goes n.tenant_id previous q)) p (points ++ made) h in
        elim (In-append p points made p_in) [
          | inl old ↦
              let (d, d_in, describes) = s.owned p old in
              elim (Bool-cases (of_file n d)) [
                | inl of_it ↦ absurd (ground (arith, old_goes d p d_in describes of_it))
                | inr not_of_it ↦ (
                  d,
                  append-In_left d (rest_of n rows) (n ∷ [])
                      (filter-In (λ e. not (of_file n e)) d rows d_in (rw not_of_it refl)),
                  describes,
                )
              ]
          | inr new ↦ (n, append-In_right n (rest_of n rows) (n ∷ []) (inl refl), f.owned p new)
        ]

    indexed' :
        (d : Document)
        → In d rows'
        → (p : Point) × In p (without n.tenant_id previous (points ++ made)) × Describes d p
    indexed' d h = elim (row_cases d h) [
      | inl (d_in, d_not) ↦
          let (p, p_in, describes) = s.indexed d d_in in
          elim (Bool-cases (goes n.tenant_id previous p)) [
            | inl gone ↦ absurd (ground (arith, goes-of_file d p d_in describes gone))
            | inr stays ↦ (
              p,
              filter-In (λ q. not (goes n.tenant_id previous q)) p (points ++ made)
                  (append-In_left p points made p_in) (rw stays refl),
              describes,
            )
          ]
      | inr new ↦
          let (p, p_in) = f.made_one in
          (
            p,
            filter-In (λ q. not (goes n.tenant_id previous q)) p (points ++ made)
                (append-In_right p points made p_in) (rw (new_stays p p_in) refl),
            subst (λ x. Describes x p) (sym new) (f.owned p p_in),
          )
    ]

    -- The stores are in step again after the record, the new points and the cleanup.
    pub replaced-Synced : Synced rows' (without n.tenant_id previous (points ++ made))
    replaced-Synced = record {
      active = λ d h. elim (row_cases d h) [
        | inl (i, _) ↦ s.active d i
        | inr e ↦ ap (λ x. x.deleted_at) e ∙ f.active
      ];
      named = λ d h. elim (row_cases d h) [
        | inl (i, _) ↦ s.named d i
        | inr e ↦ ap (λ x. is_empty x.id) e ∙ f.named
      ];
      one_id = one_id';
      one_file = one_file';
      owned = owned';
      indexed = indexed';
    }
