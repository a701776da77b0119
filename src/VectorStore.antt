-- ===== src/VectorStore.antt =====
-- app/db/qdrant.py: the filters under which the collection is searched and deleted from. Qdrant is
-- an argument: how it ranks the points for a request, and what a deletion leaves. `matches` is its
-- documented reading of a filter.
pub mod Access
use enterprise_multi_tenant.Base.{
  ℕ, ◌*◌, Bool, true, false, ◌&&◌, List, [], ◌∷◌, ◌++◌, Option, none, some, any, all, if◌then◌else◌,
}
use enterprise_multi_tenant.Text.{Text, text, text_eq, is_one_of}

-- A point, by the payload that the ingestion gives it.
pub record Point : Type 0 where
  pub tenant_id : Text
  pub doc_id : Text
  pub filename : Text
  pub body : Text
  pub allowed_roles : List Text

-- The payload keys that conditions are made on.
pub data Key : Type 0 where
  tenant_id doc_id filename allowed_roles : Key

pub data Match : Type 0 where
  match_value : Text → Match
  match_any : List Text → Match

pub record FieldCondition : Type 0 where
  pub key : Key
  pub match : Match

-- `models.Filter(must=...)`
abbrev pub Filter : Type 0
Filter = List FieldCondition

-- The values of a payload key: those of a list, or the one.
abbrev pub values_of : Key → Point → List Text
values_of tenant_id p = p.tenant_id ∷ []
values_of doc_id p = p.doc_id ∷ []
values_of filename p = p.filename ∷ []
values_of allowed_roles p = p.allowed_roles

abbrev pub match_test : Match → Text → Bool
match_test (match_value v) w = text_eq w v
match_test (match_any vs) w = is_one_of w vs

-- A condition holds if one of the key's values matches; a filter if all its conditions hold.
unfoldable pub matches : Filter → Point → Bool
matches f p = all (λ c. any (match_test c.match) (values_of c.key p)) f

-- The request of a search: by the dense vector alone, or fused from two prefetches.
pub data Request (Dense Sparse : Type 0) : Type 0 where
  dense : Dense → Filter → ℕ → Request Dense Sparse
  hybrid : Dense → Filter → ℕ → Sparse → Filter → ℕ → ℕ → Request Dense Sparse

abbrev pub role_match : Text → Match
role_match user_role =
    if text_eq user_role (text "admin")
    then match_any (text "admin" ∷ text "analyst" ∷ text "viewer" ∷ [])
    else match_any (user_role ∷ [])

-- `rbac_filter`
abbrev pub rbac_filter : Text → Text → Filter
rbac_filter tenant user_role =
    record { key = tenant_id; match = match_value tenant }
    ∷ record { key = allowed_roles; match = role_match user_role }
    ∷ []

module _ {Dense Sparse : Type 0}
    (query_points : Request Dense Sparse → List Point → List Point) where
  -- `search_tenant_knowledge`, with both sparse lists or without one of them.
  unfoldable pub search_tenant_knowledge :
      Dense → Text → Text → Option Sparse → ℕ → List Point → List Point
  search_tenant_knowledge vector tenant user_role (some sparse) limit collection =
      let f = rbac_filter tenant user_role in
      query_points (hybrid vector f (limit * 2) sparse f (limit * 2) limit) collection
  search_tenant_knowledge vector tenant user_role none limit collection =
      query_points (dense vector (rbac_filter tenant user_role) limit) collection

-- A text that Python takes for true.
abbrev given : Option Text → Option Text
given none = none
given (some []) = none
given (some (c ∷ s)) = some (c ∷ s)

-- `must_conditions`
unfoldable pub must_conditions : Text → Option Text → Option Text → Filter
must_conditions tenant file document =
    record { key = tenant_id; match = match_value tenant } ∷ elim (given document) [
      | some d ↦ record { key = doc_id; match = match_value d } ∷ []
      | none ↦ elim (given file) [
        | some f ↦ record { key = filename; match = match_value f } ∷ []
        | none ↦ []
      ]
    ]

-- The filter of a whole tenant.
abbrev pub all_of : Text → Filter
all_of tenant = record { key = tenant_id; match = match_value tenant } ∷ []

module _ (delete : Filter → List Point → List Point) where
  unfoldable pub delete_documents_from_qdrant :
      Text → Option Text → Option Text → List Point → List Point
  delete_documents_from_qdrant tenant file document = delete (must_conditions tenant file document)

  unfoldable pub delete_all_tenant_documents_from_qdrant : Text → List Point → List Point
  delete_all_tenant_documents_from_qdrant tenant = delete (all_of tenant)
