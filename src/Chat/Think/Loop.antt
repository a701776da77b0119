-- ===== src/Chat/Think/Loop.antt =====
-- The loop over the buffer ends, and moves text from the buffer to the fragments as it should.
use enterprise_multi_tenant.Base.{
  ℕ, zero, suc, ◌+◌, ◌-◌, ◌≤◌, ◌<◌, ◌≡◌, refl, ap, sym, ◌∙◌, Bool, true, false, List, [], ◌∷◌, ◌++◌,
  Option, none, some, inl, inr, length, take, drop, arith, ltb, Bool-cases, if◌then◌else◌, flatten,
  flatten-append, append-nil, append_assoc, length-drop,
}
use enterprise_multi_tenant.Text.{Text, find}
use enterprise_multi_tenant.Chat.Think.{
  Filter, Pass, break, continue, open_tag, close_tag, inside_pass, outside_pass, prepend, pass,
  drain, feed, but_last,
}
use enterprise_multi_tenant.Chat.Think.Visible.{
  visible, visible-open, visible-no_open, visible-close, visible-no_close, find-length,
}

-- The visible part of what is buffered and still to come.
abbrev pub pending : Filter → Text → Text
pending f t = visible f.inside 0 (f.buffer ++ t)

-- No whole tag is left in the buffer.
abbrev pub IsSettled : Filter → Type 0
IsSettled f = length f.buffer ≤ (if f.inside then 7 else 6)

-- What a pass promises: it moves text and loses none, and it ends settled or with less to do.
abbrev PassKeeps : Filter → Pass → Type 0
PassKeeps f (break fragments g) =
    ((t : Text) → pending f t ≡ flatten fragments ++ pending g t) × IsSettled g
PassKeeps f (continue fragments g) =
    ((t : Text) → pending f t ≡ flatten fragments ++ pending g t)
    × (length g.buffer < length f.buffer)

inside_pass-PassKeeps :
    (o : Option ℕ) (b : Text)
    → find b close_tag ≡ o
    → PassKeeps (record { inside = true; buffer = b }) (inside_pass o b)
inside_pass-PassKeeps none b e =
    (λ t. visible-no_close b t e, omega (arith, length-drop (length b - 7) b))
inside_pass-PassKeeps (some i) b e =
    (λ t. visible-close b t i e, omega (arith, length-drop (i + 8) b, find-length b close_tag i e))

outside_pass-PassKeeps :
    (o : Option ℕ) (b : Text)
    → find b open_tag ≡ o
    → PassKeeps (record { inside = false; buffer = b }) (outside_pass o b)
outside_pass-PassKeeps none b e = elim (Bool-cases (ltb 6 (length b))) [
  | inl long ↦ rw long (
    λ t.
        visible-no_open b t e
        ∙ ap (λ r. r ++ visible false 0 (drop (length b - 6) b ++ t))
            (sym (append-nil (but_last 6 b))),
    omega (arith, length-drop (length b - 6) b),
  )
  | inr short ↦ rw short (λ t. refl, ground arith)
]
outside_pass-PassKeeps (some zero) b e =
    (λ t. visible-open b t 0 e, omega (arith, length-drop 7 b, find-length b open_tag 0 e))
outside_pass-PassKeeps (some (suc i)) b e = (
  λ t.
      visible-open b t (suc i) e
      ∙ ap (λ r. r ++ visible true 0 (drop (suc i + 7) b ++ t)) (sym (append-nil (take (suc i) b))),
  omega (arith, length-drop (suc i + 7) b, find-length b open_tag (suc i) e),
)

pass-PassKeeps :
    (inside : Bool) (b : Text)
    → PassKeeps
        (record { inside = inside; buffer = b })
        (pass (record { inside = inside; buffer = b }))
unfolding pass
pass-PassKeeps true b = inside_pass-PassKeeps (find b close_tag) b refl
pass-PassKeeps false b = outside_pass-PassKeeps (find b open_tag) b refl

-- What a run of the loop promises.
abbrev pub Drained : Filter → Option (List Text × Filter) → Type 0
Drained f none = ⊥
Drained f (some (fragments, g)) =
    ((t : Text) → pending f t ≡ flatten fragments ++ pending g t) × IsSettled g

prepend-Drained :
    (f g : Filter) (fragments : List Text) (o : Option (List Text × Filter))
    → ((t : Text) → pending f t ≡ flatten fragments ++ pending g t)
    → Drained g o
    → Drained f (prepend fragments o)
prepend-Drained f g fragments none moved h = h
prepend-Drained f g fragments (some (rest, g')) moved h = (
  λ t.
      moved t
      ∙ ap (λ r. flatten fragments ++ r) (h.0 t)
      ∙ sym (append_assoc (flatten fragments) (flatten rest) (pending g' t))
      ∙ ap (λ r. r ++ pending g' t) (sym (flatten-append fragments rest)),
  h.1,
)

-- One round of fuel more than the buffer is long lets the loop end.
pub drain-Drained :
    (fuel : ℕ) (inside : Bool) (b : Text)
    → length b < fuel
    → Drained
        (record { inside = inside; buffer = b })
        (drain fuel (record { inside = inside; buffer = b }))
unfolding drain
drain-Drained zero inside b h = elim h [ ]
drain-Drained (suc fuel) inside [] h = (λ t. refl, ground arith)
drain-Drained (suc fuel) inside (c ∷ s) h =
    after (pass f) (pass-PassKeeps inside (c ∷ s))
      (λ g shorter. drain-Drained fuel g.inside g.buffer (omega arith))
  where
    f : Filter
    f = record { inside = inside; buffer = c ∷ s }

    after :
        (p : Pass)
        → PassKeeps f p
        → ((g : Filter) → length g.buffer < length f.buffer → Drained g (drain fuel g))
        → Drained f (elim p [
          | break fragments f' ↦ some (fragments, f')
          | continue fragments f' ↦ prepend fragments (drain fuel f')
        ])
    after (break fragments g) k again = k
    after (continue fragments g) k again =
        prepend-Drained f g fragments (drain fuel g) k.0 (again g k.1)

-- A token is taken in wholly: the fragments it releases are what has become certain.
pub feed_moves :
    (f : Filter) (token : Text)
    → IsSettled f
    → (fragments : List Text) × (g : Filter) × (feed f token ≡ some (fragments, g))
      × ((t : Text) → pending f (token ++ t) ≡ flatten fragments ++ pending g t)
      × IsSettled g
unfolding feed
feed_moves f [] h = ([], f, refl, λ t. refl, h)
feed_moves f (c ∷ s) h =
    of_drained (drain (suc (length b)) f') refl
      (drain-Drained (suc (length b)) f.inside b (omega arith))
  where
    b : Text
    b = f.buffer ++ c ∷ s

    f' : Filter
    f' = record { inside = f.inside; buffer = b }

    of_drained :
        (o : Option (List Text × Filter))
        → drain (suc (length b)) f' ≡ o
        → Drained f' o
        → (fragments : List Text) × (g : Filter) × (drain (suc (length b)) f' ≡ some (fragments, g))
          × ((t : Text) → pending f ((c ∷ s) ++ t) ≡ flatten fragments ++ pending g t)
          × IsSettled g
    of_drained none e d = absurd d
    of_drained (some (fragments, g)) e d = (
      fragments,
      g,
      e,
      λ t. ap (visible f.inside 0) (sym (append_assoc f.buffer (c ∷ s) t)) ∙ d.0 t,
      d.1,
    )
