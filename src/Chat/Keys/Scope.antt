-- ===== src/Chat/Keys/Scope.antt =====
-- Keys of different scopes differ, under a digest without collisions among the texts that occur.
use mathlib.Core.Path.{ap₂}
use enterprise_multi_tenant.Base.{
  ℕ, ◌≡◌, ◌↔◌, refl, ap, sym, ◌∙◌, Bool, true, not, ◌&&◌, ◌==◌, List, [], ◌∷◌, ◌++◌, length, all,
  drop, arith,
}
use enterprise_multi_tenant.Text.{Text, text, text_eq, text_eq_iff}
use enterprise_multi_tenant.Documents.Listing.{like}
use enterprise_multi_tenant.Chat.Keys.{
  JsonItem, string, number, ChatScope, build_chat_cache_key, build_backend_thread_id,
  build_backend_thread_scope, scope_digest_of,
}

append-injective : {a b c d : Text} → length a ≡ length c → a ++ b ≡ c ++ d → (a ≡ c) × (b ≡ d)
append-injective {a = []} {c = []} h e = (refl, e)
append-injective {a = []} {c = y ∷ c} h e = absurd (omega (arith, h))
append-injective {a = x ∷ a} {c = []} h e = absurd (omega (arith, h))
append-injective {a = x ∷ a} {c = y ∷ c} h e =
    let (l, r) = append-injective {a = a} {c = c} (omega (arith, h)) (ap (drop 1) e) in
    (ap₂ (λ i j. i ∷ j) (ground (arith, e)) l, r)

-- A code point that `LIKE` takes for itself.
abbrev pub is_plain : ℕ → Bool
is_plain c = not (c == b'%') && (not (c == b'_') && not (c == 92))

like-literal :
    (l m : Text) (e : ℕ) (p s : Text)
    → length l ≡ length m
    → all is_plain l ≡ true
    → like (l ++ e ∷ p) (m ++ s) ≡ (text_eq l m && like (e ∷ p) s)
unfolding like text_eq
like-literal [] [] e p s h plain = refl
like-literal [] (d ∷ m) e p s h plain = absurd (omega (arith, h))
like-literal (c ∷ l) [] e p s h plain = absurd (omega (arith, h))
like-literal (c ∷ []) (d ∷ []) e p s h plain = ground arith
like-literal (c ∷ []) (d ∷ d' ∷ m) e p s h plain = absurd (omega (arith, h))
like-literal (c ∷ c' ∷ l) (d ∷ m) e p s h plain =
    ground (arith, like-literal (c' ∷ l) m e p s (omega (arith, h)))

abbrev pub scope_items : ChatScope → List JsonItem
scope_items s =
    string s.tenant_id
    ∷ string s.user_id
    ∷ string s.role
    ∷ string s.thread_id
    ∷ number s.cache_version
    ∷ []

scope_items-injective :
    (s t : ChatScope) → scope_items s ≡ scope_items t → s.query ≡ t.query → s ≡ t
scope_items-injective s t e q = ground arith

abbrev pub user_items : Text → Text → List JsonItem
user_items tenant_id user_id = string tenant_id ∷ string user_id ∷ []

user_items-injective : (t u t' u' : Text) → user_items t u ≡ user_items t' u' → (t ≡ t') × (u ≡ u')
user_items-injective t u t' u' e = ground arith

any_suffix : (s : Text) → like (text ":%") (text ":" ++ s) ≡ true
unfolding like
any_suffix [] = refl
any_suffix (c ∷ s) = refl

-- A pattern of the prefix's form against a text with a scope of the same length.
like-scope :
    (l m s : Text)
    → length l ≡ length m
    → all is_plain l ≡ true
    → like (text "thread:" ++ (l ++ text ":%")) (text "thread:" ++ (m ++ (text ":" ++ s)))
      ≡ text_eq l m
like-scope l m s h plain =
    like-literal (text "thread:" ++ l) (text "thread:" ++ m) b':' (text "%") (text ":" ++ s)
      (omega (arith, h)) plain
    ∙ ap (λ b. text_eq (text "thread:" ++ l) (text "thread:" ++ m) && b) (any_suffix s)
    ∙ same_prefix
  where
    same_prefix : (text_eq (text "thread:" ++ l) (text "thread:" ++ m) && true) ≡ text_eq l m
    same_prefix =
        ground (arith, text_eq_iff (text "thread:" ++ l) (text "thread:" ++ m), text_eq_iff l m)

module _ (dumps : List JsonItem → Text) (hexdigest : Text → Text)
    (size : (s : Text) → length (hexdigest s) ≡ 64) where
  -- Two chat requests share a cached response only if they agree in tenant, user, role, thread,
  -- query and cache version, unless the digests of what they encode collide.
  pub cache_key_scope :
      (s t : ChatScope)
      → (hexdigest s.query ≡ hexdigest t.query → s.query ≡ t.query)
      → (hexdigest (dumps (scope_items s)) ≡ hexdigest (dumps (scope_items t))
          → scope_items s ≡ scope_items t)
      → build_chat_cache_key dumps hexdigest s ≡ build_chat_cache_key dumps hexdigest t
      → s ≡ t
  unfolding build_chat_cache_key
  cache_key_scope s t same_query same_scope e =
      let (scope, rest) =
        append-injective (size (dumps (scope_items s)) ∙ sym (size (dumps (scope_items t))))
          (ap (drop 6) e) in
      scope_items-injective s t (same_scope scope) (same_query (ap (drop 1) rest))

  -- The prefix by which the histories of a user are deleted matches the identifier of a thread
  -- exactly if the thread is that user's of that tenant, unless the digests of the two users
  -- collide; a digest holds no character that `LIKE` reads in a special way.
  pub thread_scope_exact :
      (tenant_id user_id other_tenant other_user thread_id : Text)
      → ((s : Text) → all is_plain (hexdigest s) ≡ true)
      → (scope_digest_of dumps hexdigest tenant_id user_id
            ≡ scope_digest_of dumps hexdigest other_tenant other_user
          → user_items tenant_id user_id ≡ user_items other_tenant other_user)
      → (like
            (build_backend_thread_scope dumps hexdigest tenant_id user_id)
            (build_backend_thread_id dumps hexdigest other_tenant other_user thread_id)
          ≡ true)
        ↔ ((tenant_id ≡ other_tenant) × (user_id ≡ other_user))
  unfolding build_backend_thread_scope build_backend_thread_id
  thread_scope_exact tenant_id user_id other_tenant other_user thread_id plain apart = (
    λ e.
        user_items-injective tenant_id user_id other_tenant other_user
          (apart ((text_eq_iff _ _).0 (sym matched ∙ e))),
    λ (t, u). matched ∙ (text_eq_iff _ _).1 (ap₂ (scope_digest_of dumps hexdigest) t u),
  )
    where
      matched :
          like
            (build_backend_thread_scope dumps hexdigest tenant_id user_id)
            (build_backend_thread_id dumps hexdigest other_tenant other_user thread_id)
          ≡ text_eq
              (scope_digest_of dumps hexdigest tenant_id user_id)
              (scope_digest_of dumps hexdigest other_tenant other_user)
      matched = like-scope _ _ _ (size _ ∙ sym (size _)) (plain _)
