-- ===== src/Rerank/Candidates.antt =====
-- Whatever the service replies, the result is made of the candidates.
use enterprise_multi_tenant.Base.{
  ℕ, zero, suc, ◌≤◌, ◌≡◌, refl, true, List, [], ◌∷◌, Option, none, some, arith, length, length-take,
  take, any, All, Bool-cases, inl, inr,
}
use enterprise_multi_tenant.Text.{Text, text_eq, text_eq_refl, is_empty, strip}
use enterprise_multi_tenant.Rerank.{
  Index, Reply, Address, Settings, absent, negative, at, malformed, failed, status, success,
  document_at, appended, or_default, reranked_docs, final_reply, read_reply, wanted,
  rerank_documents_with_cohere,
}

abbrev pub IsCandidate : List Text → Text → Type 0
IsCandidate documents d = any (text_eq d) documents ≡ true

IsCandidate-tail :
    (c : Text) (documents ds : List Text)
    → All (IsCandidate documents) ds
    → All (IsCandidate (c ∷ documents)) ds
IsCandidate-tail c documents [] h = tt
IsCandidate-tail c documents (d ∷ ds) (h, rest) =
    (ground arith, IsCandidate-tail c documents ds rest)

take-candidates : (n : ℕ) (documents : List Text) → All (IsCandidate documents) (take n documents)
take-candidates zero documents = tt
take-candidates (suc n) [] = tt
take-candidates (suc n) (d ∷ ds) =
    (rw (text_eq_refl d) refl, IsCandidate-tail d ds (take n ds) (take-candidates n ds))

document_at-IsCandidate :
    (documents : List Text) (i : ℕ) (d : Text)
    → document_at documents i ≡ some d
    → IsCandidate documents d
document_at-IsCandidate [] i d h = ground arith
document_at-IsCandidate (c ∷ documents) zero d h = ground (arith, text_eq_refl c)
document_at-IsCandidate (c ∷ documents) (suc i) d h =
    ground (arith, document_at-IsCandidate documents i d h)

abbrev AreCandidates : List Text → Option (List Text) → Type 0
AreCandidates documents none = Unit
AreCandidates documents (some ds) = All (IsCandidate documents) ds

appended-candidates :
    (documents : List Text) (o : Option Text) (rest : Option (List Text))
    → ((d : Text) → o ≡ some d → IsCandidate documents d)
    → AreCandidates documents rest
    → AreCandidates documents (appended o rest)
appended-candidates documents none rest h r = r
appended-candidates documents (some d) none h r = tt
appended-candidates documents (some d) (some ds) h r = (h d refl, r)

reranked-candidates :
    (documents : List Text) (is : List Index) → AreCandidates documents (reranked_docs documents is)
unfolding reranked_docs
reranked-candidates documents [] = tt
reranked-candidates documents (absent ∷ is) = reranked-candidates documents is
reranked-candidates documents (negative n ∷ is) = reranked-candidates documents is
reranked-candidates documents (at i ∷ is) =
    appended-candidates documents (document_at documents i) (reranked_docs documents is)
      (document_at-IsCandidate documents i) (reranked-candidates documents is)
reranked-candidates documents (malformed ∷ is) = tt

default-candidates :
    (n : ℕ) (documents : List Text) (o : Option (List Text))
    → 1 ≤ n
    → 1 ≤ length documents
    → AreCandidates documents o
    → All (IsCandidate documents) (or_default n documents o)
      × (1 ≤ length (or_default n documents o))
default-candidates n documents none pos some_document h =
    (take-candidates n documents, omega (arith, length-take n documents))
default-candidates n documents (some []) pos some_document h =
    (take-candidates n documents, omega (arith, length-take n documents))
default-candidates n documents (some (d ∷ ds)) pos some_document h = (h, omega arith)

read_reply-candidates :
    (n : ℕ) (documents : List Text) (r : Reply)
    → 1 ≤ n
    → 1 ≤ length documents
    → All (IsCandidate documents) (read_reply documents n r)
      × (1 ≤ length (read_reply documents n r))
read_reply-candidates n documents failed pos some_document =
    default-candidates n documents none pos some_document tt
read_reply-candidates n documents (status code) pos some_document =
    default-candidates n documents none pos some_document tt
read_reply-candidates n documents (success is) pos some_document =
    default-candidates n documents (reranked_docs documents is) pos some_document
      (reranked-candidates documents is)

-- Whatever the service replies, failures and malformed answers included, each text of the result is
-- one of the candidates, and of one candidate or more the result keeps at least one.
pub rerank-IsCandidate :
    (c : Settings) (post : Address → ℕ → Reply) (documents : List Text) (top_n : Option ℕ)
    → 1 ≤ length documents
    → 1 ≤ wanted c top_n documents
    → All (IsCandidate documents) (rerank_documents_with_cohere c post documents top_n)
      × (1 ≤ length (rerank_documents_with_cohere c post documents top_n))
unfolding rerank_documents_with_cohere
rerank-IsCandidate c post [] top_n some_document pos = absurd (omega (arith, some_document))
rerank-IsCandidate c post (d ∷ ds) top_n some_document pos =
    elim (Bool-cases (is_empty (strip c.api_key))) [
      | inl no_key ↦
          rw no_key
            (default-candidates (wanted c top_n (d ∷ ds)) (d ∷ ds) none pos some_document tt)
      | inr a_key ↦ rw a_key (
          read_reply-candidates (wanted c top_n (d ∷ ds)) (d ∷ ds)
            (final_reply post (wanted c top_n (d ∷ ds))) pos some_document)
    ]
