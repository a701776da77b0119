-- ===== src/Agent/Isolation.antt =====
-- Which stored data a run of the graph reads.
use enterprise_multi_tenant.Base.{
  ℕ, zero, suc, ◌≡◌, refl, ap, List, Option, some, arith, inl, inr, Option-cases,
}
use enterprise_multi_tenant.Text.{Text}
use enterprise_multi_tenant.Agent.{
  AgentState, Settings, Services, Hit, Node, retrieve, grade_documents, rewrite_query, generate,
  finished,
}
use enterprise_multi_tenant.Agent.Nodes.{
  retrieve_node, grade_documents_node, rewrite_query_node, generate_node,
}
use enterprise_multi_tenant.Agent.Graph.{step, run_from, run, add_node}

-- The state is one of the tenant's and the role's.
abbrev IsFor : Text → Text → AgentState → Type 0
IsFor t r s = (s.tenant_id ≡ t) × (s.user_role ≡ r)

retrieve_node-IsFor :
    (c : Settings) (v : Services) (t r : Text) (s s' : AgentState)
    → IsFor t r s
    → retrieve_node c v s ≡ some s'
    → IsFor t r s'
unfolding retrieve_node
retrieve_node-IsFor c v t r s s' h e = ground arith

rewrite_query_node-IsFor :
    (v : Services) (t r : Text) (s s' : AgentState)
    → IsFor t r s
    → rewrite_query_node v s ≡ some s'
    → IsFor t r s'
unfolding rewrite_query_node
rewrite_query_node-IsFor v t r s s' h e = ground arith

generate_node-IsFor :
    (c : Settings) (v : Services) (t r : Text) (s s' : AgentState)
    → IsFor t r s
    → generate_node c v s ≡ some s'
    → IsFor t r s'
unfolding generate_node
generate_node-IsFor c v t r s s' h e = ground arith

grade_documents_node-IsFor :
    (c : Settings) (v : Services) (t r : Text) (s : AgentState)
    → IsFor t r s
    → IsFor t r (grade_documents_node c v s)
unfolding grade_documents_node
grade_documents_node-IsFor c v t r s h = ground arith

module _ (c : Settings) (v : Services) (t r : Text) (listed : Text → Text → Option (List Text))
    (found : Text → Text → Text → ℕ → Option (List Hit))
    (same_list : v.list_documents t r ≡ listed t r)
    (same_search : (q : Text) (n : ℕ) → v.search q t r n ≡ found q t r n) where
  -- The same services over another document table and another vector collection.
  abbrev pub other : Services
  other = record v { list_documents = listed; search = found }

  retrieve_node-other :
      (s : AgentState) → IsFor t r s → retrieve_node c v s ≡ retrieve_node c other s
  unfolding retrieve_node
  retrieve_node-other s (ht, hr) = simp (ht, hr, same_list, same_search)

  grade_documents_node-other :
      (s : AgentState) → grade_documents_node c other s ≡ grade_documents_node c v s
  unfolding grade_documents_node
  grade_documents_node-other s = refl

  rewrite_query_node-other : (s : AgentState) → rewrite_query_node other s ≡ rewrite_query_node v s
  unfolding rewrite_query_node
  rewrite_query_node-other s = refl

  generate_node-other : (s : AgentState) → generate_node c other s ≡ generate_node c v s
  unfolding generate_node
  generate_node-other s = refl

  run_from-other :
      (fuel : ℕ) (n : Node) (s : AgentState)
      → IsFor t r s
      → run_from fuel c v n s ≡ run_from fuel c other n s
  unfolding run_from step
  run_from-other zero retrieve s h = refl
  run_from-other zero grade_documents s h = refl
  run_from-other zero rewrite_query s h = refl
  run_from-other zero generate s h = refl
  run_from-other zero finished s h = refl
  run_from-other (suc fuel) finished s h = refl
  run_from-other (suc fuel) retrieve s h = elim (Option-cases (retrieve_node c v s)) [
    | inl e ↦ rw (run_from, step, ← retrieve_node-other s h, e) refl
    | inr (s', e) ↦
        rw (run_from, step, ← retrieve_node-other s h, e)
          (ap (add_node retrieve)
            (run_from-other fuel grade_documents s' (retrieve_node-IsFor c v t r s s' h e)))
  ]
  run_from-other (suc fuel) grade_documents s h =
      rw (run_from, step, grade_documents_node-other s)
        (ap (add_node grade_documents) (
          run_from-other fuel _ (grade_documents_node c v s)
            (grade_documents_node-IsFor c v t r s h)))
  run_from-other (suc fuel) rewrite_query s h = elim (Option-cases (rewrite_query_node v s)) [
    | inl e ↦ rw (run_from, step, rewrite_query_node-other s, e) refl
    | inr (s', e) ↦
        rw (run_from, step, rewrite_query_node-other s, e)
          (ap (add_node rewrite_query)
            (run_from-other fuel retrieve s' (rewrite_query_node-IsFor v t r s s' h e)))
  ]
  run_from-other (suc fuel) generate s h = elim (Option-cases (generate_node c v s)) [
    | inl e ↦ rw (run_from, step, generate_node-other s, e) refl
    | inr (s', e) ↦
        rw (run_from, step, generate_node-other s, e)
          (ap (add_node generate)
            (run_from-other fuel finished s' (generate_node-IsFor c v t r s s' h e)))
  ]

  -- A run for a tenant and a role is the same over any other stored data that lists the same
  -- documents for that tenant and role and answers their searches with the same points.
  pub run_isolated :
      (fuel : ℕ) (s : AgentState)
      → s.tenant_id ≡ t
      → s.user_role ≡ r
      → run fuel c v s ≡ run fuel c other s
  unfolding run
  run_isolated fuel s ht hr = run_from-other fuel retrieve s (ht, hr)
