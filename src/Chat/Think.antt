-- ===== src/Chat/Think.antt =====
-- The token loop of `chat_stream` in app/api/routes.py, which hides the model's reasoning between
-- `<think>` and `</think>` although a tag may be cut by a token boundary anywhere.
pub mod Visible
pub mod Loop
pub mod Stream
use enterprise_multi_tenant.Base.{
  ℕ, zero, suc, ◌+◌, ◌-◌, Bool, true, false, List, [], ◌∷◌, ◌++◌, Option, none, some, length, take,
  drop, ltb, if◌then◌else◌,
}
use enterprise_multi_tenant.Text.{Text, text, find, is_empty}

abbrev pub open_tag : Text
open_tag = text "<think>"

abbrev pub close_tag : Text
close_tag = text "</think>"

-- `inside_think` and `think_buffer`.
pub record Filter : Type 0 where
  pub inside : Bool
  pub buffer : Text

abbrev pub start : Filter
start = record { inside = false; buffer = [] }

-- `s[-n:]`
abbrev pub last : ℕ → Text → Text
last n s = drop (length s - n) s

-- `s[:-n]`, for a positive `n`.
abbrev pub but_last : ℕ → Text → Text
but_last n s = take (length s - n) s

-- How a pass through the body of `while think_buffer` ends, with what it made visible.
pub data Pass : Type 0 where
  break : List Text → Filter → Pass
  continue : List Text → Filter → Pass

abbrev inside_pass : Option ℕ → Text → Pass
inside_pass none buffer = break [] (record { inside = true; buffer = last 7 buffer })
inside_pass (some i) buffer = continue [] (record { inside = false; buffer = drop (i + 8) buffer })

abbrev outside_pass : Option ℕ → Text → Pass
outside_pass none buffer =
    if ltb 6 (length buffer)
    then break (but_last 6 buffer ∷ []) (record { inside = false; buffer = last 6 buffer })
    else break [] (record { inside = false; buffer = buffer })
outside_pass (some zero) buffer = continue [] (record { inside = true; buffer = drop 7 buffer })
outside_pass (some (suc i)) buffer =
    continue (take (suc i) buffer ∷ []) (record { inside = true; buffer = drop (suc i + 7) buffer })

unfoldable pub pass : Filter → Pass
pass f =
    if f.inside
    then inside_pass (find f.buffer close_tag) f.buffer
    else outside_pass (find f.buffer open_tag) f.buffer

abbrev prepend : List Text → Option (List Text × Filter) → Option (List Text × Filter)
prepend fragments none = none
prepend fragments (some (rest, f)) = some (fragments ++ rest, f)

-- `while think_buffer`, with the visible fragments in order; none when the fuel runs out.
unfoldable pub drain : ℕ → Filter → Option (List Text × Filter)
unfolding pass
drain zero f = none
drain (suc fuel) f = if is_empty f.buffer then some ([], f) else elim (pass f) [
  | break fragments f' ↦ some (fragments, f')
  | continue fragments f' ↦ prepend fragments (drain fuel f')
]

-- One token of the model: an empty one is skipped. Each pass that goes on shortens the buffer, so
-- one round more than its length is enough.
unfoldable pub feed : Filter → Text → Option (List Text × Filter)
unfolding drain
feed f [] = some ([], f)
feed f (c ∷ s) =
    let buffer = f.buffer ++ c ∷ s in
    drain (suc (length buffer)) (record { inside = f.inside; buffer = buffer })
