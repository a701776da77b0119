-- ===== src/Text.antt =====
-- Python's `str` as the list of its code points, with the methods of `str` that the program calls.
-- `lower` and `upper` move the ASCII letters and leave every other code point as it is.
use Prim.Native.Char.{code}
use Prim.Native.String.{String}
use enterprise_multi_tenant.Base.{
  ℕ, suc, ◌+◌, ◌-◌, ◌≡◌, refl, ◌↔◌, Bool, true, false, ◌&&◌, ◌||◌, List, [], ◌∷◌, ◌++◌, map, any,
  Option, none, some, arith, leb, ◌==◌, if◌then◌else◌,
}

abbrev pub Text : Type 0
Text = List ℕ

-- The code points of a literal.
abbrev pub text : String → Text
text String.[] = []
text (String.◌∷◌ c s) = code c ∷ text s

-- `s == t`
unfoldable pub text_eq : Text → Text → Bool
text_eq [] [] = true
text_eq [] (d ∷ t) = false
text_eq (c ∷ s) [] = false
text_eq (c ∷ s) (d ∷ t) = c == d && text_eq s t

pub text_eq_iff : (s t : Text) → (text_eq s t ≡ true) ↔ (s ≡ t)
unfolding text_eq
text_eq_iff [] [] = ground arith
text_eq_iff [] (d ∷ t) = ground arith
text_eq_iff (c ∷ s) [] = ground arith
text_eq_iff (c ∷ s) (d ∷ t) = ground (arith, text_eq_iff s t)

pub text_eq_refl : (s : Text) → text_eq s s ≡ true
text_eq_refl s = (text_eq_iff s s).1 refl

-- `bool(s)`
abbrev pub is_empty : Text → Bool
is_empty [] = true
is_empty (c ∷ s) = false

-- `s in {t, ...}`
abbrev pub is_one_of : Text → List Text → Bool
is_one_of s = any (text_eq s)

-- `str.isspace` of one code point.
unfoldable pub is_space : ℕ → Bool
is_space c =
    (leb 9 c && leb c 13)
    || (leb 28 c && leb c 32)
    || c == 133
    || c == 160
    || c == 5760
    || (leb 8192 c && leb c 8202)
    || c == 8232
    || c == 8233
    || c == 8239
    || c == 8287
    || c == 12288

unfoldable pub lower_char : ℕ → ℕ
lower_char c = if leb b'A' c && leb c b'Z' then c + 32 else c

unfoldable pub upper_char : ℕ → ℕ
upper_char c = if leb b'a' c && leb c b'z' then c - 32 else c

abbrev pub lower : Text → Text
lower = map lower_char

abbrev pub upper : Text → Text
upper = map upper_char

-- `s.lstrip()`
unfoldable pub lstrip : Text → Text
unfolding is_space
lstrip [] = []
lstrip (c ∷ s) = let rest = lstrip s in if is_space c then rest else c ∷ s

-- `s.rstrip()`: a trailing run of spaces is dropped, from the right.
unfoldable pub rstrip : Text → Text
unfolding is_space
rstrip [] = []
rstrip (c ∷ s) = let rest = rstrip s in if is_space c && is_empty rest then [] else c ∷ rest

-- `s.strip()`
abbrev pub strip : Text → Text
strip s = rstrip (lstrip s)

-- `s.startswith(p)`
unfoldable pub starts_with : Text → Text → Bool
starts_with s [] = true
starts_with [] (d ∷ p) = false
starts_with (c ∷ s) (d ∷ p) = c == d && starts_with s p

-- `p in s`
unfoldable pub contains : Text → Text → Bool
contains p [] = is_empty p
contains p (c ∷ s) = starts_with (c ∷ s) p || contains p s

-- `s.find(p)`, none for -1.
unfoldable pub find : Text → Text → Option ℕ
find [] p = if is_empty p then some 0 else none
find (c ∷ s) p =
    let rest = find s p in
    if starts_with (c ∷ s) p then some 0 else elim rest [ none ↦ none | some i ↦ some (suc i) ]

abbrev cons_head : ℕ → List Text → List Text
cons_head c [] = (c ∷ []) ∷ []
cons_head c (w ∷ ws) = (c ∷ w) ∷ ws

-- `s.split(sep)` for a separator of one character.
unfoldable pub split_on : ℕ → Text → List Text
split_on sep [] = [] ∷ []
split_on sep (c ∷ s) = let rest = split_on sep s in if c == sep then [] ∷ rest else cons_head c rest

-- A word that has ended, kept if it has a character.
abbrev close_word : Text → List Text → List Text
close_word [] ws = ws
close_word (c ∷ w) ws = (c ∷ w) ∷ ws

-- The words of `s`, the first of which has begun with `w`.
split_from : Text → Text → List Text
unfolding is_space
split_from w [] = close_word w []
split_from w (c ∷ s) = elim (is_space c) [
  | true ↦ close_word w (split_from [] s)
  | false ↦ split_from (w ++ c ∷ []) s
]

-- `s.split()`: the pieces between runs of spaces, none of them empty.
unfoldable pub split : Text → List Text
unfolding split_from
split s = split_from [] s

-- `sep.join(ws)`
unfoldable pub join : Text → List Text → Text
join sep [] = []
join sep (w ∷ []) = w
join sep (w ∷ v ∷ ws) = w ++ (sep ++ join sep (v ∷ ws))
