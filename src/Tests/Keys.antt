-- ===== src/Tests/Keys.antt =====
-- The keys, under a digest that repeats a sum of the code points.
use enterprise_multi_tenant.Base.{
  if◌then◌else◌, ◌&&◌, ℕ, zero, suc, ◌+◌, ◌≡◌, ◌↔◌, refl, true, List, [], ◌∷◌, ◌++◌, length, all,
  arith,
}
use enterprise_multi_tenant.Text.{text_eq, Text, text}
use enterprise_multi_tenant.Documents.Listing.{like}
use enterprise_multi_tenant.Chat.Keys.{
  JsonItem, string, number, ChatScope, build_backend_thread_id, build_backend_thread_scope,
}
use enterprise_multi_tenant.Threads.{Checkpoints, delete_where, delete_all_tenant_user_history}
use enterprise_multi_tenant.Threads.Clearing.{rows_of, no_rows, history_cleared_exact}
use enterprise_multi_tenant.Chat.Keys.Scope.{is_plain, cache_key_scope, thread_scope_exact}

abbrev sum_of_text : Text → ℕ
sum_of_text [] = 0
sum_of_text (c ∷ s) = c + (c + sum_of_text s)

abbrev repeated : ℕ → ℕ → Text
repeated zero c = []
repeated (suc n) c = c ∷ repeated n c

abbrev digest : Text → Text
digest s = repeated 64 (200 + sum_of_text s)

abbrev encoded : List JsonItem → Text
encoded [] = []
encoded (string s ∷ items) = text "s" ++ (s ++ encoded items)
encoded (number n ∷ items) = n ∷ encoded items

digest-size : (s : Text) → length (digest s) ≡ 64
digest-size s = refl

digest-plain : (s : Text) → all is_plain (digest s) ≡ true
digest-plain s = repeated-plain 64
  where
    repeated-plain : (n : ℕ) → all is_plain (repeated n (200 + sum_of_text s)) ≡ true
    repeated-plain zero = refl
    repeated-plain (suc n) = ground (arith, repeated-plain n)

abbrev request : ChatScope
request = record {
  tenant_id = text "acme";
  user_id = text "ann";
  role = text "viewer";
  thread_id = text "t1";
  query = text "leave";
  cache_version = 1;
}

cache_key_scope_example : request ≡ request
cache_key_scope_example =
    cache_key_scope encoded digest digest-size request request (λ e. refl) (λ e. refl) refl

thread_scope_exact_example :
    (like
        (build_backend_thread_scope encoded digest (text "acme") (text "ann"))
        (build_backend_thread_id encoded digest (text "acme") (text "bob") (text "t1"))
      ≡ true)
    ↔ ((text "acme" ≡ text "acme") × (text "ann" ≡ text "bob"))
thread_scope_exact_example =
    thread_scope_exact encoded digest digest-size (text "acme") (text "ann") (text "acme")
      (text "bob") (text "t1") digest-plain (λ e. absurd (ground arith))

abbrev thread_of : Text → Text
thread_of user_id = build_backend_thread_id encoded digest (text "acme") user_id (text "t1")

abbrev checkpoints : Checkpoints
checkpoints = record {
  writes = thread_of (text "ann") ∷ thread_of (text "bob") ∷ [];
  blobs = thread_of (text "bob") ∷ [];
  checkpoints = thread_of (text "ann") ∷ [];
}

abbrev cleared_checkpoints : Checkpoints
cleared_checkpoints =
    delete_where (like (build_backend_thread_scope encoded digest (text "acme") (text "ann")))
      checkpoints

history_cleared_exact_example : rows_of (thread_of (text "bob")) cleared_checkpoints ≡ (
    if text_eq (text "acme") (text "acme") && text_eq (text "ann") (text "bob")
    then no_rows
    else rows_of (thread_of (text "bob")) checkpoints)
unfolding delete_all_tenant_user_history
history_cleared_exact_example =
    history_cleared_exact encoded digest digest-size digest-plain (text "acme") (text "ann")
      (text "acme") (text "bob") (text "t1") checkpoints cleared_checkpoints
      (λ e. absurd (ground arith)) refl
