-- ===== src/Chat/Think/Stream.antt =====
-- The whole answer as `chat_stream` sends it: tokens in, events out, whatever the token boundaries.
use enterprise_multi_tenant.Base.{
  ◌+◌, ◌≡◌, refl, ap, sym, ◌∙◌, Bool, true, false, not, List, [], ◌∷◌, ◌++◌, Option, none, some,
  map, filter, inl, inr, Bool-cases, length, drop, arith, flatten, flatten-append, take-append_left,
  drop_all, length-append, append-nil, append_assoc, if◌then◌else◌,
}
use mathlib.Core.Option
use mathlib.Core.Bool.{◌&&◌}
use mathlib.Core.Path.{subst}
use enterprise_multi_tenant.Text.{Text, find, is_empty}
use enterprise_multi_tenant.Chat.Think.{Filter, start, open_tag, close_tag, feed}
use enterprise_multi_tenant.Chat.Think.Visible.{
  visible, visible_short, hidden_short, visible-open, visible-close, shown,
}
use enterprise_multi_tenant.Chat.Think.Loop.{feed_moves, IsSettled, pending}

-- The contents sent so far, and `full_response`.
pub record Response : Type 0 where
  pub sent : List Text
  pub full_response : Text

abbrev pub no_response : Response
no_response = record { sent = []; full_response = [] }

-- `redact` stands for `SecurityGuardrails.redact_pii_fast`.
module _ (redact : Text → Text) where
  -- One visible fragment: it is redacted, kept and sent, unless nothing is left of it.
  unfoldable pub deliver : Text → Response → Response
  deliver fragment r =
      let token = redact fragment in
      if is_empty token
      then r
      else record { sent = r.sent ++ token ∷ []; full_response = r.full_response ++ token }

  -- `for fragment in visible_fragments`
  unfoldable pub deliver_all : List Text → Response → Response
  unfolding deliver
  deliver_all [] r = r
  deliver_all (fragment ∷ rest) r = deliver_all rest (deliver fragment r)

  -- `async for event`: the filter and the response after the tokens.
  unfoldable pub consume : List Text → Filter → Response → Option (Filter × Response)
  unfolding deliver_all feed
  consume [] f r = some (f, r)
  consume (token ∷ tokens) f r = elim (feed f token) [
    | none ↦ none
    | some (fragments, g) ↦ consume tokens g (deliver_all fragments r)
  ]

  -- What is left in the buffer when the model has finished, outside of a thought.
  unfoldable pub flush : Filter → Response → Response
  unfolding deliver
  flush f r = if not f.inside && not (is_empty f.buffer) then deliver f.buffer r else r

  unfoldable pub respond : List Text → Option Response
  unfolding consume flush
  respond tokens = Option.map (λ (f, r). flush f r) (consume tokens start no_response)

  deliver_all-append :
      (xs ys : List Text) (r : Response)
      → deliver_all (xs ++ ys) r ≡ deliver_all ys (deliver_all xs r)
  unfolding deliver_all
  deliver_all-append [] ys r = refl
  deliver_all-append (x ∷ xs) ys r = deliver_all-append xs ys (deliver x r)

  -- What is sent: the fragments after redaction, the empty ones left out.
  abbrev events : List Text → List Text
  events fragments = filter (λ s. not (is_empty s)) (map redact fragments)

  abbrev kept : Text → Response → Response
  kept token r = record { sent = r.sent ++ token ∷ []; full_response = r.full_response ++ token }

  deliver-gone : (s : Text) (r : Response) → is_empty (redact s) ≡ true → deliver s r ≡ r
  unfolding deliver
  deliver-gone s r h = rw h

  deliver-kept :
      (s : Text) (r : Response) → is_empty (redact s) ≡ false → deliver s r ≡ kept (redact s) r
  unfolding deliver
  deliver-kept s r h = rw h

  deliver_all-sent :
      (fragments : List Text) (r : Response)
      → (deliver_all fragments r).sent ≡ r.sent ++ events fragments
  unfolding deliver_all
  deliver_all-sent [] r = sym (append-nil r.sent)
  deliver_all-sent (s ∷ rest) r = elim (Bool-cases (is_empty (redact s))) [
    | inl gone ↦
        rw gone
          (ap (λ x. (deliver_all rest x).sent) (deliver-gone s r gone) ∙ deliver_all-sent rest r)
    | inr stays ↦ rw stays (
        ap (λ x. (deliver_all rest x).sent) (deliver-kept s r stays)
        ∙ deliver_all-sent rest (kept (redact s) r)
        ∙ append_assoc r.sent (redact s ∷ []) (events rest))
  ]

  abbrev Balanced : List Text → Response → Type 0
  Balanced rest x = (deliver_all rest x).full_response ≡ flatten (deliver_all rest x).sent

  deliver_all-full :
      (fragments : List Text) (r : Response)
      → r.full_response ≡ flatten r.sent
      → (deliver_all fragments r).full_response ≡ flatten (deliver_all fragments r).sent
  unfolding deliver_all
  deliver_all-full [] r h = h
  deliver_all-full (s ∷ rest) r h = elim (Bool-cases (is_empty (redact s))) [
    | inl gone ↦ subst (Balanced rest) (sym (deliver-gone s r gone)) (deliver_all-full rest r h)
    | inr stays ↦ subst (Balanced rest) (sym (deliver-kept s r stays)) (
        deliver_all-full rest (kept (redact s) r) (
          ap (λ x. x ++ redact s) h
          ∙ ap (λ x. flatten r.sent ++ x) (sym (append-nil (redact s)))
          ∙ sym (flatten-append r.sent (redact s ∷ []))))
  ]

  consume_moves :
      (tokens : List Text) (f : Filter) (r : Response)
      → IsSettled f
      → (g : Filter) × (fragments : List Text) × (consume tokens f r
          ≡ some (g, deliver_all fragments r))
        × (pending f (flatten tokens) ≡ flatten fragments ++ pending g [])
        × IsSettled g
  unfolding consume
  consume_moves [] f r h = (f, [], refl, refl, h)
  consume_moves (token ∷ tokens) f r h =
      let (fragments, g, fed, moved, settled) = feed_moves f token h in
      let (g', rest, consumed, moved', settled') =
        consume_moves tokens g (deliver_all fragments r) settled in
      (
        g',
        fragments ++ rest,
        rw (fed, consume)
            (consumed ∙ ap (λ x. some (g', x)) (sym (deliver_all-append fragments rest r))),
        moved (flatten tokens)
            ∙ ap (λ x. flatten fragments ++ x) moved'
            ∙ sym (append_assoc (flatten fragments) (flatten rest) (pending g' []))
            ∙ ap (λ x. x ++ pending g' []) (sym (flatten-append fragments rest)),
        settled',
      )

  -- The loop ends after any tokens.
  pub consume_ends :
      (tokens : List Text)
      → (f : Filter) × (r : Response) × (consume tokens start no_response ≡ some (f, r))
  consume_ends tokens =
      let (g, fragments, consumed, moved, settled) =
        consume_moves tokens start no_response (omega arith) in
      (g, deliver_all fragments no_response, consumed)

  -- The buffer that is left when the model has finished is delivered outside a thought only.
  flush_moves :
      (inside : Bool) (b : Text) (r : Response) (fragments : List Text)
      → let g : Filter = record { inside = inside; buffer = b } in
        IsSettled g
        → (all : List Text) × (flush g (deliver_all fragments r) ≡ deliver_all all r)
          × (flatten all ≡ flatten fragments ++ pending g [])
  unfolding flush deliver_all
  flush_moves true b r fragments h = (
    fragments,
    refl,
    sym (
        ap (λ x. flatten fragments ++ x) (rw (append-nil b) (hidden_short b h))
        ∙ append-nil (flatten fragments)),
  )
  flush_moves false [] r fragments h = (
    fragments,
    refl,
    sym (ap (λ x. flatten fragments ++ x) (visible_short [] h) ∙ append-nil (flatten fragments)),
  )
  flush_moves false (c ∷ s) r fragments h = (
    fragments ++ (c ∷ s) ∷ [],
    sym (deliver_all-append fragments ((c ∷ s) ∷ []) r),
    flatten-append fragments ((c ∷ s) ∷ [])
        ∙ ap (λ x. flatten fragments ++ x) (rw (append-nil s) (sym (visible_short (c ∷ s) h))),
  )

  -- For every way to cut the model's answer into tokens the loop ends, and the fragments that it
  -- delivers are, joined, the visible text of the whole answer. What is sent is each fragment
  -- after redaction, the empty ones left out, and `full_response` is all that was sent.
  pub respond_shows :
      (tokens : List Text)
      → (fragments : List Text) × (r : Response) × (respond tokens ≡ some r)
        × (flatten fragments ≡ shown (flatten tokens))
        × (r.sent ≡ filter (λ s. not (is_empty s)) (map redact fragments))
        × (r.full_response ≡ flatten r.sent)
  unfolding respond
  respond_shows tokens =
      let (g, fragments, consumed, moved, settled) =
        consume_moves tokens start no_response (omega arith) in
      let (all, flushed, whole) = flush_moves g.inside g.buffer no_response fragments settled in
      (
        all,
        deliver_all all no_response,
        ap (Option.map (λ (f, r). flush f r)) consumed ∙ ap some flushed,
        whole ∙ sym moved,
        deliver_all-sent all no_response,
        deliver_all-full all no_response refl,
      )

-- A thought between its tags is not seen, and what stands around it is. The hypotheses say that no
-- earlier tag begins before the opening tag, nor an earlier closing tag inside the thought.
pub thought_hidden :
    (before thought after : Text)
    → find (before ++ open_tag) open_tag ≡ some (length before)
    → find (thought ++ close_tag) close_tag ≡ some (length thought)
    → shown ((before ++ open_tag) ++ ((thought ++ close_tag) ++ after)) ≡ before ++ shown after
thought_hidden before thought after h k =
    visible-open (before ++ open_tag) ((thought ++ close_tag) ++ after) (length before) h
    ∙ ap (λ x. x ++ hidden) (take-append_left before open_tag)
    ∙ ap (λ x. before ++ visible true 0 (x ++ ((thought ++ close_tag) ++ after)))
        (drop_all (length before + 7) (before ++ open_tag)
          (omega (arith, length-append before open_tag)))
    ∙ ap (λ x. before ++ x) (visible-close (thought ++ close_tag) after (length thought) k)
    ∙ ap (λ x. before ++ shown (x ++ after))
        (drop_all (length thought + 8) (thought ++ close_tag)
          (omega (arith, length-append thought close_tag)))
  where
    hidden : Text
    hidden =
        visible true 0
          (drop (length before + 7) (before ++ open_tag) ++ ((thought ++ close_tag) ++ after))
