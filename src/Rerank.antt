-- ===== src/Rerank.antt =====
-- app/core/rerank.py: how the answer of the reranking service is read. The service is an argument:
-- what it replies to a request for the documents and the number wanted, at either of two addresses.
pub mod Candidates
use enterprise_multi_tenant.Base.{
  ℕ, zero, suc, ◌==◌, ◌||◌, Bool, true, false, List, [], ◌∷◌, Option, none, some, length, take,
  drop, min, ltb, if◌then◌else◌,
}
use enterprise_multi_tenant.Text.{Text, strip, is_empty}

-- `item.get("index")`: a value that Python can neither compare nor index with is malformed.
pub data Index : Type 0 where
  absent : Index
  negative : ℕ → Index
  at : ℕ → Index
  malformed : Index

pub data Reply : Type 0 where
  failed : Reply
  status : ℕ → Reply
  success : List Index → Reply

pub data Address : Type 0 where
  v2 v1 : Address

pub record Settings : Type 0 where
  pub api_key : Text
  pub cohere_top_n : ℕ

-- `documents[idx]`
abbrev pub document_at : List Text → ℕ → Option Text
document_at [] i = none
document_at (d ∷ ds) zero = some d
document_at (d ∷ ds) (suc i) = document_at ds i

-- `reranked_docs.append(documents[idx])`, for an index in range, before what the loop adds later.
abbrev pub appended : Option Text → Option (List Text) → Option (List Text)
appended none rest = rest
appended (some d) none = none
appended (some d) (some rest) = some (d ∷ rest)

-- `reranked_docs` after the loop; none where it raises.
unfoldable pub reranked_docs : List Text → List Index → Option (List Text)
reranked_docs documents [] = some []
reranked_docs documents (absent ∷ is) = reranked_docs documents is
reranked_docs documents (negative n ∷ is) = reranked_docs documents is
reranked_docs documents (at i ∷ is) =
    appended (document_at documents i) (reranked_docs documents is)
reranked_docs documents (malformed ∷ is) = none

-- The reply that is read: the second address is asked after a 400 or a 404.
abbrev pub final_reply : (Address → ℕ → Reply) → ℕ → Reply
final_reply post n = elim (post v2 n) [
  | failed ↦ failed
  | success is ↦ success is
  | status code ↦ if (code == 400) || (code == 404) then post v1 n else status code
]

-- `documents[:target_top_n]` where nothing was reranked.
abbrev pub or_default : ℕ → List Text → Option (List Text) → List Text
or_default n documents none = take n documents
or_default n documents (some []) = take n documents
or_default n documents (some (d ∷ ds)) = d ∷ ds

abbrev pub read_reply : List Text → ℕ → Reply → List Text
read_reply documents n failed = take n documents
read_reply documents n (status code) = take n documents
read_reply documents n (success is) = or_default n documents (reranked_docs documents is)

abbrev pub wanted : Settings → Option ℕ → List Text → ℕ
wanted c none documents = min c.cohere_top_n (length documents)
wanted c (some n) documents = min n (length documents)

-- `rerank_documents_with_cohere`
unfoldable pub rerank_documents_with_cohere :
    Settings → (Address → ℕ → Reply) → List Text → Option ℕ → List Text
rerank_documents_with_cohere c post [] top_n = []
rerank_documents_with_cohere c post (d ∷ ds) top_n =
    let n = wanted c top_n (d ∷ ds) in
    if is_empty (strip c.api_key)
    then take n (d ∷ ds)
    else read_reply (d ∷ ds) n (final_reply post n)
