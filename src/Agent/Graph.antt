-- ===== src/Agent/Graph.antt =====
-- `build_agent_graph`: the edges, a run of the graph, and what holds of every run.
use enterprise_multi_tenant.Base.{
  ℕ, zero, suc, ◌-◌, ◌≤◌, ◌≡◌, sym, ◌⊎◌, refl, ap, ◌∙◌, true, List, [], ◌∷◌, ◌++◌, Option, none,
  some, arith, leb, if◌then◌else◌, inl, inr, Option-cases, Bool-cases,
}
use mathlib.Core.Path.{subst}
use mathlib.Core.Option.{some-injective, none-ne-some}
use enterprise_multi_tenant.Text.{Text, text}
use enterprise_multi_tenant.Agent.{
  AgentState, Settings, Services, Message, object, Node, retrieve, grade_documents, rewrite_query,
  generate, finished,
}
use enterprise_multi_tenant.Agent.Nodes.{
  retrieve_node, grade_documents_node, rewrite_query_node, generate_node, answered,
  decide_to_generate, no_documents,
}

-- A node and the edge that is taken from it; none where the node raises.
unfoldable pub step : Settings → Services → Node → AgentState → Option (Node × AgentState)
step c v retrieve s = elim (retrieve_node c v s) [
  | none ↦ none
  | some s' ↦ some (grade_documents, s')
]
step c v grade_documents s =
    let s' = grade_documents_node c v s in
    some (if decide_to_generate c s' then generate else rewrite_query, s')
step c v rewrite_query s = elim (rewrite_query_node v s) [
  | none ↦ none
  | some s' ↦ some (retrieve, s')
]
step c v generate s = elim (generate_node c v s) [ none ↦ none | some s' ↦ some (finished, s') ]
step c v finished s = some (finished, s)

-- How a run ends: at END with the nodes that ran, in order, by an exception, or not yet.
pub data Run : Type 0 where
  done : List Node → AgentState → Run
  raised : List Node → Run
  running : List Node → Run

abbrev pub add_node : Node → Run → Run
add_node n (done ns s) = done (n ∷ ns) s
add_node n (raised ns) = raised (n ∷ ns)
add_node n (running ns) = running (n ∷ ns)

unfoldable pub run_from : ℕ → Settings → Services → Node → AgentState → Run
run_from fuel c v finished s = done [] s
run_from zero c v retrieve s = running []
run_from zero c v grade_documents s = running []
run_from zero c v rewrite_query s = running []
run_from zero c v generate s = running []
run_from (suc fuel) c v n s = elim (step c v n s) [
  | none ↦ raised (n ∷ [])
  | some (n', s') ↦ add_node n (run_from fuel c v n' s')
]

-- The compiled graph, from its entry point.
unfoldable pub run : ℕ → Settings → Services → AgentState → Run
unfolding run_from
run fuel c v s = run_from fuel c v retrieve s

-- After a rewrite the decision is to generate, whatever was retrieved for the new query: the count
-- is at least one, unless the new query passed for a greeting, and then there are no documents.
abbrev WillGenerate : AgentState → Type 0
WillGenerate s = (leb 1 s.rewrite_count ≡ true) ⊎ (no_documents s.available_documents ≡ true)

retrieve-WillGenerate :
    (c : Settings) (v : Services) (s s' : AgentState)
    → leb 1 s.rewrite_count ≡ true
    → retrieve_node c v s ≡ some s'
    → WillGenerate s'
unfolding retrieve_node
retrieve-WillGenerate c v s s' h e = ground arith

decide-WillGenerate :
    (c : Settings) (v : Services) (s : AgentState)
    → WillGenerate s
    → decide_to_generate c (grade_documents_node c v s) ≡ true
unfolding decide_to_generate grade_documents_node
decide-WillGenerate c v s h = ground arith

abbrev pub one_pass : List Node
one_pass = retrieve ∷ grade_documents ∷ generate ∷ []

abbrev pub two_passes : List Node
two_passes = retrieve ∷ grade_documents ∷ rewrite_query ∷ one_pass

-- A run ended at END after these nodes with one answer behind these messages, or by an exception.
pub data Ended (ms : List Message) (ns : List Node) : Run → Type 0 where
  at_end :
      (s : AgentState) (answer : Text)
      → s.messages ≡ ms ++ object (text "ai") answer ∷ []
      → Ended ms ns (done ns s)
  by_exception : (raisers : List Node) → Ended ms ns (raised raisers)

add_node-Ended :
    {ms : List Message} {ns : List Node} (n : Node) (r : Run)
    → Ended ms ns r
    → Ended ms (n ∷ ns) (add_node n r)
add_node-Ended n _ (at_end s a e) = at_end s a e
add_node-Ended n _ (by_exception raisers) = by_exception (n ∷ raisers)

retrieve_node-messages :
    (c : Settings) (v : Services) (s s' : AgentState)
    → retrieve_node c v s ≡ some s'
    → s'.messages ≡ s.messages
unfolding retrieve_node
retrieve_node-messages c v s s' e = ground arith

grade_documents_node-messages :
    (c : Settings) (v : Services) (s : AgentState)
    → (grade_documents_node c v s).messages ≡ s.messages
unfolding grade_documents_node
grade_documents_node-messages c v s = ground arith

rewrite_query_node-messages :
    (v : Services) (s s' : AgentState) → rewrite_query_node v s ≡ some s' → s'.messages ≡ s.messages
unfolding rewrite_query_node
rewrite_query_node-messages v s s' e = ground arith

answered-messages :
    (s s' : AgentState) (o : Option Text)
    → answered s o ≡ some s'
    → (answer : Text) × (s'.messages ≡ s.messages ++ object (text "ai") answer ∷ [])
answered-messages s s' none e = absurd (none-ne-some _ e)
answered-messages s s' (some a) e = (a, ap AgentState.messages (sym (some-injective _ _ e)))

generate_node-messages :
    (c : Settings) (v : Services) (s s' : AgentState)
    → generate_node c v s ≡ some s'
    → (answer : Text) × (s'.messages ≡ s.messages ++ object (text "ai") answer ∷ [])
unfolding generate_node
generate_node-messages c v s s' e = answered-messages s s' _ e

generate-Ended :
    (n : ℕ) (c : Settings) (v : Services) (ms : List Message) (s : AgentState)
    → s.messages ≡ ms
    → Ended ms (generate ∷ []) (run_from (suc n) c v generate s)
unfolding run_from step
generate-Ended n c v ms s g = elim (Option-cases (generate_node c v s)) [
  | inl e ↦ rw (run_from, step, e) (by_exception (generate ∷ []))
  | inr (s', e) ↦
      rw (run_from, step, e)
        (let (a, m) = generate_node-messages c v s s' e in
          at_end s' a (m ∙ ap (λ ms'. ms' ++ object (text "ai") a ∷ []) g))
]

-- From a state whose query has been rewritten the graph generates without another rewrite.
second_pass :
    (n : ℕ) (c : Settings) (v : Services) (ms : List Message) (s : AgentState)
    → s.messages ≡ ms
    → leb 1 s.rewrite_count ≡ true
    → Ended ms one_pass (run_from (suc (suc (suc n))) c v retrieve s)
unfolding run_from step
second_pass n c v ms s g h = elim (Option-cases (retrieve_node c v s)) [
  | inl e ↦ rw (run_from, step, e) (by_exception (retrieve ∷ []))
  | inr (s', e) ↦
      rw (run_from, step, e, decide-WillGenerate c v s' (retrieve-WillGenerate c v s s' h e))
        (add_node-Ended retrieve _ (
          add_node-Ended grade_documents _ (
            generate-Ended n c v ms (grade_documents_node c v s')
              (grade_documents_node-messages c v s' ∙ retrieve_node-messages c v s s' e ∙ g))))
]

rewrite-count :
    (v : Services) (s s' : AgentState)
    → rewrite_query_node v s ≡ some s'
    → leb 1 s'.rewrite_count ≡ true
unfolding rewrite_query_node
rewrite-count v s s' e = ground arith

rewritten-Ended :
    (n : ℕ) (c : Settings) (v : Services) (ms : List Message) (s : AgentState)
    → s.messages ≡ ms
    → Ended ms (rewrite_query ∷ one_pass) (run_from (suc (suc (suc (suc n)))) c v rewrite_query s)
unfolding run_from step
rewritten-Ended n c v ms s g = elim (Option-cases (rewrite_query_node v s)) [
  | inl e ↦ rw (run_from, step, e) (by_exception (rewrite_query ∷ []))
  | inr (s', e) ↦
      rw (run_from, step, e)
        (add_node-Ended rewrite_query _ (
          second_pass n c v ms s' (rewrite_query_node-messages v s s' e ∙ g)
            (rewrite-count v s s' e)))
]

first_pass :
    (n : ℕ) (c : Settings) (v : Services) (ms : List Message) (s : AgentState)
    → s.messages ≡ ms
    → let r = run_from (suc (suc (suc (suc (suc (suc n)))))) c v retrieve s in
      Ended ms one_pass r ⊎ Ended ms two_passes r
unfolding run_from step
first_pass n c v ms s g = elim (Option-cases (retrieve_node c v s)) [
  | inl e ↦ rw (run_from, step, e) (inl (by_exception (retrieve ∷ [])))
  | inr (s', e) ↦ elim (Bool-cases (decide_to_generate c (grade_documents_node c v s'))) [
    | inl d ↦
        rw (run_from, step, e, d)
          (inl (
            add_node-Ended retrieve _ (
              add_node-Ended grade_documents _ (
                generate-Ended (suc (suc (suc n))) c v ms (grade_documents_node c v s')
                  (grade_documents_node-messages c v s' ∙ retrieve_node-messages c v s s' e ∙ g)))))
    | inr d ↦
        rw (run_from, step, e, d)
          (inr (
            add_node-Ended retrieve _ (
              add_node-Ended grade_documents _ (
                rewritten-Ended n c v ms (grade_documents_node c v s')
                  (grade_documents_node-messages c v s' ∙ retrieve_node-messages c v s s' e ∙ g)))))
  ]
]

-- From any state, with any settings and services, a run that is given six nodes or more is over:
-- it has reached END through one pass, or through two with one rewrite between them, and has added
-- one message, the model's answer, to the messages; or a node raised an exception.
pub run_terminates :
    (fuel : ℕ) (c : Settings) (v : Services) (s : AgentState)
    → 6 ≤ fuel
    → Ended s.messages one_pass (run fuel c v s) ⊎ Ended s.messages two_passes (run fuel c v s)
unfolding run
run_terminates fuel c v s h =
    subst
      (λ k.
        Ended s.messages one_pass (run_from k c v retrieve s)
        ⊎ Ended s.messages two_passes (run_from k c v retrieve s))
      six (first_pass (fuel - 6) c v s.messages s refl)
  where
    six : suc (suc (suc (suc (suc (suc (fuel - 6)))))) ≡ fuel
    six = omega (arith, h)
