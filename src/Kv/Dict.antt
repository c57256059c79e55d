-- ===== src/Kv/Dict.antt =====
-- `HashMap<String, V>` of store.rs, as an association list; the order is not observed.
use text.Mathlib.Text.{◌==◌ as str_eq}
use text.Mathlib.TextEquality.{eq_iff}
use rust_kv.Base.{
  ap, refl, Bool, Bool-cases, inl, inr, String, ◌≡◌, Option, none, some, List, [], ◌∷◌, arith,
  if◌then◌else◌,
}

abbrev pub Dict {ℓ} : Type ℓ → Type ℓ
Dict V = List (String × V)

module _ {ℓ} {V : Type ℓ} where
  pub get : String → Dict V → Option V
  get k [] = none
  get k ((j, v) ∷ d) = if str_eq j k then some v else get k d

  pub remove : String → Dict V → Dict V
  remove k [] = []
  remove k ((j, v) ∷ d) = let rest = remove k d in if str_eq j k then rest else (j, v) ∷ rest

  pub insert : String → V → Dict V → Dict V
  insert k v d = (k, v) ∷ remove k d

  -- `d.retain(|k, _| p(k))`
  pub retain : (String → Bool) → Dict V → Dict V
  retain p [] = []
  retain p ((j, v) ∷ d) = let rest = retain p d in if p j then (j, v) ∷ rest else rest

  pub get-empty : (k : String) → get k [] ≡ none
  unfolding get
  get-empty k = refl

  pub get-remove :
      (k j : String) (d : Dict V) → get j (remove k d) ≡ (if str_eq k j then none else get j d)
  unfolding get remove
  get-remove k j [] = ground arith
  get-remove k j ((i, v) ∷ d) = ground (arith, get-remove k j d, eq_iff i k, eq_iff i j, eq_iff k j)

  pub get-insert :
      (k j : String) (v : V) (d : Dict V)
      → get j (insert k v d) ≡ (if str_eq k j then some v else get j d)
  unfolding get insert
  get-insert k j v d = ground (arith, get-remove k j d)

  pub get-retain :
      (p : String → Bool) (k : String) (d : Dict V)
      → get k (retain p d) ≡ (if p k then get k d else none)
  unfolding get retain
  get-retain p k [] = ground arith
  get-retain p k ((i, v) ∷ d) = elim (Bool-cases (str_eq i k)) [
    | inl q ↦
        let same : p i ≡ p k = ap p ((eq_iff i k).0 q) in ground (arith, get-retain p k d, same, q)
    | inr q ↦ ground (arith, get-retain p k d, q)
  ]

pub ruleset dict_laws = (get-remove, get-insert)
