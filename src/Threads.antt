-- ===== src/Threads.antt =====
-- app/database.py: the deletion of conversation histories from the three checkpoint tables of
-- LangGraph, of which only the thread of each row is read. A deletion runs in one transaction: a
-- statement that fails is logged, and the transaction is rolled back as a whole.
pub mod Clearing
use enterprise_multi_tenant.Base.{
  Bool, true, false, not, List, [], ◌∷◌, Option, none, some, filter, if◌then◌else◌,
}
use enterprise_multi_tenant.Text.{Text, text_eq}
use enterprise_multi_tenant.Documents.Listing.{like}

-- The threads of the rows of `checkpoint_writes`, `checkpoint_blobs` and `checkpoints`.
pub record Checkpoints : Type 0 where
  pub writes : List Text
  pub blobs : List Text
  pub checkpoints : List Text

-- The three `DELETE`s with one condition on the thread.
abbrev pub delete_where : (Text → Bool) → Checkpoints → Checkpoints
delete_where p c = record {
  writes = filter (λ t. not (p t)) c.writes;
  blobs = filter (λ t. not (p t)) c.blobs;
  checkpoints = filter (λ t. not (p t)) c.checkpoints;
}

-- `thread_id = %s`
unfoldable pub delete_thread_history : Bool → Text → Option Checkpoints → Option Checkpoints
delete_thread_history answers thread_id none = none
delete_thread_history answers thread_id (some c) =
    some (if answers then delete_where (λ t. text_eq t thread_id) c else c)

-- `thread_id LIKE %s`
unfoldable pub delete_all_tenant_user_history :
    Bool → Text → Option Checkpoints → Option Checkpoints
delete_all_tenant_user_history answers thread_prefix none = none
delete_all_tenant_user_history answers thread_prefix (some c) =
    some (if answers then delete_where (like thread_prefix) c else c)
