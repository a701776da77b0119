-- ===== src/Dict.antt =====
-- A Python dict with text keys, in insertion order, as an association list.
use enterprise_multi_tenant.Base.{
  ◌≡◌, refl, Option, none, some, Bool, true, false, List, [], ◌∷◌, arith, if◌then◌else◌,
}
use enterprise_multi_tenant.Text.{Text, text_eq, text_eq_iff, text_eq_refl}

abbrev pub Dict {ℓ} : Type ℓ → Type ℓ
Dict V = List (Text × V)

module _ {ℓ} {V : Type ℓ} where
  -- `d.get(k)`
  unfoldable pub get : Text → Dict V → Option V
  get k [] = none
  get k ((j, v) ∷ d) = if text_eq j k then some v else get k d

  -- `k in d`
  abbrev pub has : Text → Dict V → Bool
  has k d = elim (get k d) [ none ↦ false | some _ ↦ true ]

  -- `d[k] = v`
  unfoldable pub put : Text → V → Dict V → Dict V
  put k v [] = (k, v) ∷ []
  put k v ((j, w) ∷ d) = let rest = put k v d in if text_eq j k then (j, v) ∷ d else (j, w) ∷ rest

  -- `del d[k]`, `d.pop(k, None)`
  unfoldable pub remove : Text → Dict V → Dict V
  remove k [] = []
  remove k ((j, v) ∷ d) = let rest = remove k d in if text_eq j k then rest else (j, v) ∷ rest

  pub get-put :
      (j k : Text) (v : V) (d : Dict V)
      → get j (put k v d) ≡ (if text_eq k j then some v else get j d)
  unfolding get put
  get-put j k v [] = refl
  get-put j k v ((i, w) ∷ d) =
      ground (arith, text_eq_iff i k, text_eq_iff i j, text_eq_iff k j, get-put j k v d)

  pub get-remove :
      (j k : Text) (d : Dict V) → get j (remove k d) ≡ (if text_eq k j then none else get j d)
  unfolding get remove
  get-remove j k [] = ground arith
  get-remove j k ((i, w) ∷ d) =
      ground (arith, text_eq_iff i k, text_eq_iff i j, text_eq_iff k j, get-remove j k d)

pub ruleset dict_laws = (get-put, get-remove, text_eq_refl)
