-- ===== src/Tests/Think.antt =====
-- The token loop of `chat_stream`, run.
use enterprise_multi_tenant.Base.{◌≡◌, refl, List, [], ◌∷◌, some, map, filter, not, flatten}
use enterprise_multi_tenant.Text.{Text, text, find, is_empty, starts_with}
use enterprise_multi_tenant.Chat.Think.Visible.{shown}
use enterprise_multi_tenant.Chat.Think.Stream.{Response, respond, respond_shows}

-- The tags are cut by the token boundaries.
abbrev tokens : List Text
tokens = text "A<th" ∷ text "ink>secret</thi" ∷ [] ∷ text "nk>B<" ∷ text "b>" ∷ []

respond_cut_tags :
    respond (λ s. s) tokens
    ≡ some (record { sent = text "A" ∷ text "B<b>" ∷ []; full_response = text "AB<b>" })
unfolding respond find starts_with
respond_cut_tags = refl

respond_shows_example :
    (fragments : List Text) × (r : Response) × (respond (λ s. s) tokens ≡ some r)
    × (flatten fragments ≡ shown (flatten tokens))
    × (r.sent ≡ filter (λ s. not (is_empty s)) (map (λ s. s) fragments))
    × (r.full_response ≡ flatten r.sent)
respond_shows_example = respond_shows (λ s. s) tokens
