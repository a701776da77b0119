-- ===== src/Tests/Rerank.antt =====
-- The reranker's answers, read.
use enterprise_multi_tenant.Base.{ℕ, ◌≤◌, ◌≡◌, refl, List, [], ◌∷◌, none, some, length, All, arith}
use enterprise_multi_tenant.Text.{Text, text, is_space, lstrip, rstrip}
use enterprise_multi_tenant.Rerank.{
  Reply, Address, Settings, absent, at, status, success, v1, v2, rerank_documents_with_cohere,
  reranked_docs,
}
use enterprise_multi_tenant.Rerank.Candidates.{IsCandidate, rerank-IsCandidate}

abbrev settings : Settings
settings = record { api_key = text "key"; cohere_top_n = 2 }

abbrev documents : List Text
documents = text "a" ∷ text "b" ∷ text "c" ∷ []

-- The first address does not know the model; the second answers with an index out of range.
abbrev post : Address → ℕ → Reply
post v2 n = status 404
post v1 n = success (at 2 ∷ at 7 ∷ absent ∷ at 0 ∷ [])

rerank-IsCandidate_example :
    All (IsCandidate documents) (rerank_documents_with_cohere settings post documents none)
    × (1 ≤ length (rerank_documents_with_cohere settings post documents none))
rerank-IsCandidate_example =
    rerank-IsCandidate settings post documents none (omega arith) (omega arith)

-- A service that repeats an index makes the result longer than what was wanted.
repeated :
    rerank_documents_with_cohere settings
      (λ address n. success (at 1 ∷ at 1 ∷ at 1 ∷ []))
      documents
      (some 2)
    ≡ text "b" ∷ text "b" ∷ text "b" ∷ []
unfolding rerank_documents_with_cohere reranked_docs is_space lstrip rstrip
repeated = refl
