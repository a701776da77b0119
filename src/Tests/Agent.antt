-- ===== src/Tests/Agent.antt =====
-- The graph, run.
use enterprise_multi_tenant.Base.{
  Bool, ◌≡◌, ◌≢◌, ◌⊎◌, refl, true, false, List, [], ◌∷◌, Option, none, some, arith,
}
use enterprise_multi_tenant.Text.{Text, text, text_eq, starts_with, split}
use enterprise_multi_tenant.Agent.{AgentState, Settings, Services, Hit, object, is_greeting}
use enterprise_multi_tenant.Agent.Graph.{run, Ended, one_pass, two_passes, run_terminates}
use enterprise_multi_tenant.Agent.Tenancy.{available_documents, run_unmoved}
use enterprise_multi_tenant.Documents.{Document}
use enterprise_multi_tenant.Documents.Tenancy.{Write, record_doc, delete_all, write_all}
use enterprise_multi_tenant.Agent.Isolation.{run_isolated, other}

abbrev settings : Settings
settings = record {
  use_rerank = false;
  redact_document_pii = false;
  use_llm_grader = true;
  enable_query_rewrite = true;
  strict_rag_mode = true;
}

abbrev hit : Hit
hit = record {
  text = some (text "Leave is twenty-five days a year.");
  filename = text "leave.txt";
  high_score = true;
}

-- Both models refuse to call anything relevant, and only acme has a document.
abbrev services : Services
services = record {
  list_documents = λ tenant role. some (if_acme tenant);
  search = λ query tenant role limit. some (hit ∷ []);
  rerank = λ query chunks. some chunks;
  redact = λ t. t;
  grade = λ query context. some (text "no");
  rewrite = λ query documents. some (text "days of annual leave");
  generate = λ prompt messages. some (text "Twenty-five.");
}
  where
    if_acme : Text → List Text
    if_acme [] = []
    if_acme (c ∷ t) = text "leave.txt" ∷ []

abbrev asked : Text → AgentState
asked query = record {
  messages = object (text "human") query ∷ [];
  tenant_id = text "acme";
  user_role = text "viewer";
  context = [];
  query = none;
  rewrite_count = 0;
  is_relevant = false;
  available_documents = none;
}

run_terminates_example :
    Ended
      (object (text "human") (text "how much leave is there") ∷ [])
      one_pass
      (run 9 settings services (asked (text "how much leave is there")))
    ⊎ Ended
        (object (text "human") (text "how much leave is there") ∷ [])
        two_passes
        (run 9 settings services (asked (text "how much leave is there")))
run_terminates_example =
    run_terminates 9 settings services (asked (text "how much leave is there")) (omega arith)

-- A query of two words that starts with the letters of a greeting is taken for one.
hiring_policy_is_greeting : is_greeting (text "hiring policy") ≡ true
unfolding is_greeting text_eq starts_with split
hiring_policy_is_greeting = refl

-- The same data behind different tables: only acme's viewers find a document.
abbrev only_acme : Text → Text → Option (List Text)
only_acme tenant role = elim (text_eq tenant (text "acme")) [
  | true ↦ some (text "leave.txt" ∷ [])
  | false ↦ none
]

same_list :
    services.list_documents (text "acme") (text "viewer") ≡ only_acme (text "acme") (text "viewer")
unfolding text_eq
same_list = refl

run_isolated_example :
    run 6 settings services (asked (text "how much leave is there"))
    ≡ run 6 settings
        (other settings services
          (text "acme")
          (text "viewer")
          only_acme
          (λ query tenant role limit. some (hit ∷ []))
          same_list
          (λ query limit. refl))
        (asked (text "how much leave is there"))
run_isolated_example =
    run_isolated settings services (text "acme") (text "viewer") only_acme
      (λ query tenant role limit. some (hit ∷ [])) same_list (λ query limit. refl) 6
      (asked (text "how much leave is there")) refl refl

abbrev by_code : Text → Text → Bool
by_code s t = starts_with t s

-- Another tenant records a document and deletes all that it has.
abbrev writes : List Write
writes = record_doc beta_report none none ∷ delete_all (text "beta") ∷ []
  where
    beta_report : Document
    beta_report = record {
      id = text "d7";
      tenant_id = text "beta";
      filename = text "report.pdf";
      size_bytes = 10;
      chunks_count = 1;
      created_by = text "u";
      allowed_roles = text "viewer";
      created_at = 3;
      deleted_at = none;
    }

beta_not_acme : text "beta" ≢ text "acme"
beta_not_acme = ground arith

run_unmoved_example :
    run 6 settings
      (record services { list_documents = available_documents by_code (some []) })
      (asked (text "how much leave is there"))
    ≡ run 6 settings
        (record services {
          list_documents = available_documents by_code (write_all writes (some []));
        })
        (asked (text "how much leave is there"))
run_unmoved_example =
    run_unmoved by_code 6 settings services (asked (text "how much leave is there")) writes
      (some []) (beta_not_acme, (beta_not_acme, tt))
