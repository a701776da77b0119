-- ===== src/Chat/Think/Visible.antt =====
-- What a reader of the stream should see of a text: all that stands outside `<think>…</think>`,
-- read from left to right with no buffer.
use enterprise_multi_tenant.Base.{
  ℕ, zero, suc, ◌+◌, ◌-◌, ◌≤◌, ◌<◌, ◌≡◌, refl, ap, ◌∙◌, Bool, true, false, [], ◌∷◌, ◌++◌, none,
  some, inl, inr, length, take, drop, arith, Bool-cases, ltb, if◌then◌else◌,
}
use enterprise_multi_tenant.Text.{Text, starts_with, find}
use enterprise_multi_tenant.Chat.Think.{open_tag, close_tag}

-- `skip` characters of a tag are still to be passed over.
unfoldable pub visible : Bool → ℕ → Text → Text
visible inside skip [] = []
visible inside (suc skip) (c ∷ s) = visible inside skip s
visible false zero (c ∷ s) =
    let tag = visible true 6 s in
    let rest = visible false 0 s in if starts_with (c ∷ s) open_tag then tag else c ∷ rest
visible true zero (c ∷ s) =
    let tag = visible false 7 s in
    let rest = visible true 0 s in if starts_with (c ∷ s) close_tag then tag else rest

-- The visible part of a whole text.
abbrev pub shown : Text → Text
shown s = visible false 0 s

pub visible-skip : (m : Bool) (k : ℕ) (s : Text) → visible m k s ≡ visible m 0 (drop k s)
unfolding visible
visible-skip m zero s = refl
visible-skip m (suc k) [] = refl
visible-skip m (suc k) (c ∷ s) = visible-skip m k s

-- Whether a text starts with a shorter one does not depend on what follows it.
starts_with-append : (s t p : Text) → length p ≤ length s → starts_with (s ++ t) p ≡ starts_with s p
unfolding starts_with
starts_with-append s t [] h = ground arith
starts_with-append [] t (d ∷ p) h = elim h [ ]
starts_with-append (c ∷ s) t (d ∷ p) h = ground (arith, starts_with-append s t p (omega arith))

starts_with-length : (s p : Text) → starts_with s p ≡ true → length p ≤ length s
unfolding starts_with
starts_with-length s [] h = omega arith
starts_with-length [] (d ∷ p) h = cc
starts_with-length (c ∷ s) (d ∷ p) h = ground (arith, starts_with-length s p)

pub find-length : (s p : Text) (i : ℕ) → find s p ≡ some i → i + length p ≤ length s
unfolding find
find-length [] [] i h = ground arith
find-length [] (d ∷ p) i h = cc
find-length (c ∷ s) p zero h = ground (arith, starts_with-length (c ∷ s) p)
find-length (c ∷ s) p (suc i) h = ground (arith, find-length s p i)

drop-append : (k : ℕ) (s t : Text) → k ≤ length s → drop k (s ++ t) ≡ drop k s ++ t
drop-append zero s t h = refl
drop-append (suc k) [] t h = elim h [ ]
drop-append (suc k) (c ∷ s) t h = drop-append k s t (omega arith)

-- An opening tag at `i`: what stands before it is seen, and the reading goes on hidden behind it.
pub visible-open :
    (s t : Text) (i : ℕ)
    → find s open_tag ≡ some i
    → visible false 0 (s ++ t) ≡ take i s ++ visible true 0 (drop (i + 7) s ++ t)
unfolding visible find
visible-open [] t i h = cc
visible-open (c ∷ s) t zero h =
    let here : starts_with (c ∷ s) open_tag ≡ true = ground arith in
    let long = starts_with-length (c ∷ s) open_tag here in
    rw (starts_with-append (c ∷ s) t open_tag long, here)
      (visible-skip true 6 (s ++ t) ∙ ap (visible true 0) (drop-append 6 s t (omega (arith, long))))
visible-open (c ∷ s) t (suc i) h =
    let later : starts_with (c ∷ s) open_tag ≡ false = ground arith in
    let found : find s open_tag ≡ some i = ground arith in
    let long = find-length s open_tag i found in
    let tail : suc i + 7 ≡ suc (i + 7) = omega arith in
    rw (starts_with-append (c ∷ s) t open_tag (omega (arith, long)), later, tail)
      (ap (λ r. c ∷ r) (visible-open s t i found))

-- With no opening tag all but the last six characters are seen, whatever follows.
pub visible-no_open :
    (s t : Text)
    → find s open_tag ≡ none
    → visible false 0 (s ++ t)
      ≡ take (length s - 6) s ++ visible false 0 (drop (length s - 6) s ++ t)
unfolding visible find
visible-no_open [] t h = refl
visible-no_open (c ∷ s) t h = elim (Bool-cases (ltb 6 (length (c ∷ s)))) [
  | inl long ↦
      let ih = visible-no_open s t (ground arith) in
      let never : starts_with (c ∷ s) open_tag ≡ false = ground arith in
      let e : length (c ∷ s) - 6 ≡ suc (length s - 6) = ground arith in
      rw (e, starts_with-append (c ∷ s) t open_tag (ground arith), never) (ap (λ r. c ∷ r) ih)
  | inr short ↦ let e : length (c ∷ s) - 6 ≡ 0 = ground arith in rw e refl
]

-- A closing tag at `i`: nothing before it is seen, and the reading goes on in sight behind it.
pub visible-close :
    (s t : Text) (i : ℕ)
    → find s close_tag ≡ some i
    → visible true 0 (s ++ t) ≡ visible false 0 (drop (i + 8) s ++ t)
unfolding visible find
visible-close [] t i h = cc
visible-close (c ∷ s) t zero h =
    let here : starts_with (c ∷ s) close_tag ≡ true = ground arith in
    let long = starts_with-length (c ∷ s) close_tag here in
    rw (starts_with-append (c ∷ s) t close_tag long, here)
      (visible-skip false 7 (s ++ t)
        ∙ ap (visible false 0) (drop-append 7 s t (omega (arith, long))))
visible-close (c ∷ s) t (suc i) h =
    let later : starts_with (c ∷ s) close_tag ≡ false = ground arith in
    let found : find s close_tag ≡ some i = ground arith in
    let long = find-length s close_tag i found in
    let tail : suc i + 8 ≡ suc (i + 8) = omega arith in
    rw (starts_with-append (c ∷ s) t close_tag (omega (arith, long)), later, tail)
      (visible-close s t i found)

-- With no closing tag only the last seven characters matter to what follows.
pub visible-no_close :
    (s t : Text)
    → find s close_tag ≡ none
    → visible true 0 (s ++ t) ≡ visible true 0 (drop (length s - 7) s ++ t)
unfolding visible find
visible-no_close [] t h = refl
visible-no_close (c ∷ s) t h = elim (Bool-cases (ltb 7 (length (c ∷ s)))) [
  | inl long ↦
      let ih = visible-no_close s t (ground arith) in
      let never : starts_with (c ∷ s) close_tag ≡ false = ground arith in
      let e : length (c ∷ s) - 7 ≡ suc (length s - 7) = ground arith in
      rw (e, starts_with-append (c ∷ s) t close_tag (ground arith), never) ih
  | inr short ↦ let e : length (c ∷ s) - 7 ≡ 0 = ground arith in rw e refl
]

not-starts_with_short : (s p : Text) → length s < length p → starts_with s p ≡ false
not-starts_with_short s p h = elim (Bool-cases (starts_with s p)) [
  | inl t ↦ absurd (omega (arith, starts_with-length s p t))
  | inr f ↦ f
]

-- A text too short for a tag is wholly seen, or wholly hidden.
pub visible_short : (s : Text) → length s ≤ 6 → visible false 0 s ≡ s
unfolding visible
visible_short [] h = refl
visible_short (c ∷ s) h =
    rw (not-starts_with_short (c ∷ s) open_tag (omega arith))
      (ap (λ r. c ∷ r) (visible_short s (omega arith)))

pub hidden_short : (s : Text) → length s ≤ 7 → visible true 0 s ≡ []
unfolding visible
hidden_short [] h = refl
hidden_short (c ∷ s) h =
    rw (not-starts_with_short (c ∷ s) close_tag (omega arith)) (hidden_short s (omega arith))
