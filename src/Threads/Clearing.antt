-- ===== src/Threads/Clearing.antt =====
-- What the deletion of a user's histories removes.
use enterprise_multi_tenant.Base.{
  ◌&&◌, ◌≡◌, refl, ap, sym, ◌∙◌, Bool, true, false, not, List, [], ◌∷◌, some, filter, arith, inl,
  inr, Bool-cases, all, length, if◌then◌else◌,
}
use mathlib.Core.Option.{some-injective}
use enterprise_multi_tenant.Text.{Text, text_eq, text_eq_iff}
use enterprise_multi_tenant.Documents.Listing.{like}
use enterprise_multi_tenant.Chat.Keys.{
  JsonItem, build_backend_thread_id, build_backend_thread_scope, scope_digest_of,
}
use enterprise_multi_tenant.Chat.Keys.Scope.{is_plain, thread_scope_exact, user_items}
use enterprise_multi_tenant.Threads.{Checkpoints, delete_where, delete_all_tenant_user_history}

-- The rows of one thread in the three tables.
abbrev pub rows_of : Text → Checkpoints → Checkpoints
rows_of thread c = record {
  writes = filter (λ t. text_eq t thread) c.writes;
  blobs = filter (λ t. text_eq t thread) c.blobs;
  checkpoints = filter (λ t. text_eq t thread) c.checkpoints;
}

thread_left :
    (p : Text → Bool) (thread : Text) (ts : List Text)
    → filter (λ t. text_eq t thread) (filter (λ t. not (p t)) ts)
      ≡ (if p thread then [] else filter (λ t. text_eq t thread) ts)
thread_left p thread [] = ground arith
thread_left p thread (t ∷ ts) = elim (Bool-cases (text_eq t thread)) [
  | inl same ↦
      let e : t ≡ thread = (text_eq_iff t thread).0 same in
      ground (arith, thread_left p thread ts, ap p e)
  | inr differs ↦ ground (arith, thread_left p thread ts)
]

abbrev pub no_rows : Checkpoints
no_rows = record { writes = []; blobs = []; checkpoints = [] }

rows_of-delete_where :
    (p : Text → Bool) (thread : Text) (c : Checkpoints)
    → rows_of thread (delete_where p c) ≡ (if p thread then no_rows else rows_of thread c)
rows_of-delete_where p thread c = elim (Bool-cases (p thread)) [
  | inl h ↦
      rw
        (
          thread_left p thread c.writes,
          thread_left p thread c.blobs,
          thread_left p thread c.checkpoints,
          h,
        )
        refl
  | inr h ↦
      rw
        (
          thread_left p thread c.writes,
          thread_left p thread c.blobs,
          thread_left p thread c.checkpoints,
          h,
        )
        refl
]

-- A test that is equivalent to two equations.
same_user :
    (b : Bool) (t t' u u' : Text)
    → (b ≡ true → (t ≡ t') × (u ≡ u'))
    → ((t ≡ t') × (u ≡ u') → b ≡ true)
    → b ≡ (text_eq t t' && text_eq u u')
same_user true t t' u u' forth back =
    let (p, q) = forth refl in ground (arith, (text_eq_iff t t').1 p, (text_eq_iff u u').1 q)
same_user false t t' u u' forth back = elim (Bool-cases (text_eq t t' && text_eq u u')) [
  | inl both ↦
      absurd (cc (back ((text_eq_iff t t').0 (ground arith), (text_eq_iff u u').0 (ground arith))))
  | inr different ↦ sym different
]

module _ (dumps : List JsonItem → Text) (hexdigest : Text → Text)
    (size : (s : Text) → length (hexdigest s) ≡ 64)
    (plain : (s : Text) → all is_plain (hexdigest s) ≡ true) where
  -- Where PostgreSQL answers, clearing the history of a user removes every row of every thread of that
  -- user of that tenant and none of a thread of anybody else, unless the digests of the two users
  -- collide; a digest has 64 characters, none of which `LIKE` reads in a special way.
  pub history_cleared_exact :
      (tenant_id user_id other_tenant other_user thread_id : Text) (c after : Checkpoints)
      → (scope_digest_of dumps hexdigest tenant_id user_id
            ≡ scope_digest_of dumps hexdigest other_tenant other_user
          → user_items tenant_id user_id ≡ user_items other_tenant other_user)
      → delete_all_tenant_user_history true
          (build_backend_thread_scope dumps hexdigest tenant_id user_id)
          (some c)
        ≡ some after
      → let thread = build_backend_thread_id dumps hexdigest other_tenant other_user thread_id in
        rows_of thread after ≡ (
          if text_eq tenant_id other_tenant && text_eq user_id other_user
          then no_rows
          else rows_of thread c)
  unfolding delete_all_tenant_user_history
  history_cleared_exact tenant_id user_id other_tenant other_user thread_id c after apart h =
      let scope : Text = build_backend_thread_scope dumps hexdigest tenant_id user_id in
      let thread : Text =
        build_backend_thread_id dumps hexdigest other_tenant other_user thread_id in
      let (only_own, own) =
        thread_scope_exact dumps hexdigest size tenant_id user_id other_tenant other_user thread_id
          plain apart in
      let is_after : after ≡ delete_where (like scope) c = sym (some-injective _ _ h) in
      let rows : rows_of thread after ≡ (if like scope thread then no_rows else rows_of thread c) =
        ap (rows_of thread) is_after ∙ rows_of-delete_where (like scope) thread c in
      rows
      ∙ ap (λ b. if b then no_rows else rows_of thread c)
          (same_user (like scope thread) tenant_id other_tenant user_id other_user only_own own)
