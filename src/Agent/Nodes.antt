-- ===== src/Agent/Nodes.antt =====
-- The nodes of the graph and the routing decision. A node is given as the state that its returned
-- dict leaves: a key that it does not return keeps its value, and messages are appended.
use enterprise_multi_tenant.Base.{
  ℕ, ◌+◌, Bool, true, false, not, ◌&&◌, ◌||◌, List, [], ◌∷◌, ◌++◌, Option, none, some, length, take,
  drop, any, filter, leb, ltb, ◌-◌, if◌then◌else◌,
}
use enterprise_multi_tenant.Text.{
  Text, text, is_empty, is_one_of, lower, strip, split, contains, join,
}
use enterprise_multi_tenant.Agent.{
  AgentState, Settings, Services, Hit, Message, SystemPrompt, object, extract_query, is_greeting,
  short_greetings,
}

abbrev newline : Text
newline = 10 ∷ []

-- `f"--- Document Source: {fname} ---\n{text}"`
abbrev chunk_of : Text → Text → Text
chunk_of filename body =
    text "--- Document Source: " ++ (filename ++ (text " ---" ++ (newline ++ body)))

-- The chunks of the points whose payload has a text.
unfoldable pub context_chunks : List Hit → List Text
context_chunks [] = []
context_chunks (h ∷ hs) =
    let rest = context_chunks hs in
    elim h.text [ none ↦ rest | some body ↦ chunk_of h.filename body ∷ rest ]

-- `top_score >= 0.85`; with no point the score is 0.
abbrev top_is_high : List Hit → Bool
top_is_high [] = false
top_is_high (h ∷ hs) = h.high_score

abbrev search_limit : Settings → ℕ
search_limit c = if c.use_rerank then 8 else 5

-- Reranking is asked for unless the first score is high or there is nothing to rank.
unfoldable pub reranked : Settings → Services → Text → List Hit → Option (List Text)
unfolding context_chunks
reranked c v query hits =
    let chunks = context_chunks hits in
    if (c.use_rerank && not (top_is_high hits)) && not (is_empty_list chunks)
    then v.rerank query chunks
    else some chunks
  where
    is_empty_list : List Text → Bool
    is_empty_list [] = true
    is_empty_list (x ∷ xs) = false

-- The state after a full retrieval.
abbrev retrieved :
    Settings
    → Services
    → AgentState
    → Text
    → Option (List Text)
    → Option (List Text)
    → Option AgentState
retrieved c v s query (some documents) (some chunks) =
    let joined = join (newline ++ newline) chunks in
    some (record s {
      context = if c.redact_document_pii then v.redact joined else joined;
      query = some query;
      available_documents = some documents;
    })
retrieved c v s query _ _ = none

abbrev or_reranked : Settings → Services → Text → Option (List Hit) → Option (List Text)
or_reranked c v query none = none
or_reranked c v query (some hits) = reranked c v query hits

unfoldable pub retrieve_node : Settings → Services → AgentState → Option AgentState
unfolding reranked
retrieve_node c v s =
    let user_query = strip (extract_query s) in
    if is_empty user_query
    then some (record s { context = []; is_relevant = false; available_documents = some [] })
    else if is_greeting (lower (strip user_query))
    then some (record s {
      context = [];
      query = some user_query;
      rewrite_count = 0;
      is_relevant = true;
      available_documents = some [];
    })
    else retrieved c v s user_query (v.list_documents s.tenant_id s.user_role)
        (or_reranked c v user_query (v.search user_query s.tenant_id s.user_role (search_limit c)))

-- A verdict of the model is relevant if it holds "yes"; if the model fails, the context's length
-- decides, which has been found to be enough.
abbrev verdict : Option Text → Bool
verdict none = true
verdict (some answer) = contains (text "yes") (lower (strip answer))

-- `any(token in context.lower() for token in query_tokens) if query_tokens else True`
abbrev overlaps : List Text → Text → Bool
overlaps [] context = true
overlaps (t ∷ ts) context = any (λ token. contains token (lower context)) (t ∷ ts)

unfoldable pub grade_documents_node : Settings → Services → AgentState → AgentState
grade_documents_node c v s =
    let context = strip s.context in
    if ltb (length context) 30
    then record s { is_relevant = false }
    else if c.use_llm_grader
    then record s { is_relevant = verdict (v.grade (extract_query s) (take 2000 context)) }
    else record s {
      is_relevant =
          overlaps (filter (λ w. ltb 3 (length w)) (split (lower (extract_query s)))) context;
    }

abbrev or_none : Option (List Text) → List Text
or_none none = []
or_none (some ds) = ds

unfoldable pub rewrite_query_node : Services → AgentState → Option AgentState
rewrite_query_node v s = elim (v.rewrite (extract_query s) (or_none s.available_documents)) [
  | none ↦ none
  | some answer ↦
      some (record s { query = some (strip answer); rewrite_count = s.rewrite_count + 1 })
]

abbrev pub no_documents : Option (List Text) → Bool
no_documents none = true
no_documents (some []) = true
no_documents (some (d ∷ ds)) = false

abbrev text_of : Option Text → Text
text_of none = []
text_of (some q) = q

-- Whether to generate (true) or to rewrite the query (false).
unfoldable pub decide_to_generate : Settings → AgentState → Bool
decide_to_generate c s =
    let query = lower (strip (text_of s.query)) in
    not c.enable_query_rewrite
    || (s.is_relevant
        || leb 1 s.rewrite_count
        || no_documents s.available_documents
        || is_one_of query short_greetings
        || leb (length (split query)) 2)

-- `state["messages"][-4:] if len(state["messages"]) > 4 else state["messages"]`
abbrev recent : List Message → List Message
recent ms = if ltb 4 (length ms) then drop (length ms - 4) ms else ms

-- `{"messages": [response]}`
abbrev pub answered : AgentState → Option Text → Option AgentState
answered s none = none
answered s (some answer) =
    some (record s { messages = s.messages ++ object (text "ai") answer ∷ [] })

unfoldable pub generate_node : Settings → Services → AgentState → Option AgentState
generate_node c v s =
    let prompt : SystemPrompt = record {
      greeting = is_greeting (lower (strip (extract_query s)));
      strict = c.strict_rag_mode;
      documents = or_none s.available_documents;
      context = if ltb 3000 (length s.context) then take 3000 s.context else s.context;
    } in
    answered s (v.generate prompt (recent s.messages))
