-- ===== src/Agent.antt =====
-- app/agents/graph.py: the corrective retrieval graph. The documents of PostgreSQL, the search of
-- Qdrant, the language model, the reranker and the redaction are arguments, each of which may
-- raise (none). A span that is recorded around a node does not change the node's result, so the
-- tracing calls are left out; so is the text of the prompts, of which the model gets the parts.
pub mod Nodes
pub mod Graph
pub mod Isolation
pub mod Tenancy
use enterprise_multi_tenant.Base.{
  ℕ, ◌+◌, Bool, true, false, not, ◌&&◌, ◌||◌, List, [], ◌∷◌, ◌++◌, Option, none, some, length, any,
  leb, if◌then◌else◌,
}
use mathlib.Core.List.{reverse}
use enterprise_multi_tenant.Text.{
  Text, text, text_eq, is_empty, is_one_of, lower, strip, split, starts_with,
}

-- An entry of `messages`: a dict with its role and content, or a message object with its type.
pub data Message : Type 0 where
  dict : Option Text → Text → Message
  object : Text → Text → Message

pub record AgentState : Type 0 where
  pub messages : List Message
  pub tenant_id : Text
  pub user_role : Text
  pub context : Text
  pub query : Option Text
  pub rewrite_count : ℕ
  pub is_relevant : Bool
  pub available_documents : Option (List Text)

-- The settings that the graph reads; `use_rerank` is
-- `settings.USE_COHERE_RERANK or bool(settings.COHERE_API_KEY.strip())`.
pub record Settings : Type 0 where
  pub use_rerank : Bool
  pub redact_document_pii : Bool
  pub use_llm_grader : Bool
  pub enable_query_rewrite : Bool
  pub strict_rag_mode : Bool

-- A point that the search returned: its payload's text, if it has one, and file name; and whether
-- its score is at least 0.85.
pub record Hit : Type 0 where
  pub text : Option Text
  pub filename : Text
  pub high_score : Bool

-- What `generate_node` tells the model beside the recent messages.
pub record SystemPrompt : Type 0 where
  pub greeting : Bool
  pub strict : Bool
  pub documents : List Text
  pub context : Text

pub record Services : Type 0 where
  pub list_documents : Text → Text → Option (List Text)
  pub search : Text → Text → Text → ℕ → Option (List Hit)
  pub rerank : Text → List Text → Option (List Text)
  pub redact : Text → Text
  pub grade : Text → Text → Option Text
  pub rewrite : Text → List Text → Option Text
  pub generate : SystemPrompt → List Message → Option Text

abbrev message_query : Message → Option Text
message_query (dict none content) = none
message_query (dict (some role) content) = if text_eq role (text "user") then some content else none
message_query (object kind content) = some content

abbrev first_query : List Message → Text
first_query [] = []
first_query (m ∷ ms) = elim (message_query m) [ none ↦ first_query ms | some q ↦ q ]

abbrev or_empty : Option Text → Text
or_empty none = []
or_empty (some s) = s

-- `_extract_query`: the query of the state, else the content of the last message that has one. An
-- object's content is taken whatever its type.
unfoldable pub extract_query : AgentState → Text
extract_query s =
    if is_empty (or_empty s.query) then first_query (reverse s.messages) else or_empty s.query

abbrev pub short_greetings : List Text
short_greetings =
    text "hi"
    ∷ text "hello"
    ∷ text "hey"
    ∷ text "help"
    ∷ text "who are you"
    ∷ text "good morning"
    ∷ text "good evening"
    ∷ text "thanks"
    ∷ text "thank you"
    ∷ []

abbrev pub greetings : List Text
greetings = text "how are you" ∷ short_greetings

-- `q in greetings_set or (len(q.split()) <= 2 and q.startswith(("hi", "hello", "hey")))`
unfoldable pub is_greeting : Text → Bool
unfolding text_eq starts_with split
is_greeting q =
    is_one_of q greetings
    || (leb (length (split q)) 2
        && any (starts_with q) (text "hi" ∷ text "hello" ∷ text "hey" ∷ []))

pub data Node : Type 0 where
  retrieve grade_documents rewrite_query generate finished : Node
