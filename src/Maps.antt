-- ===== src/Maps.antt =====
-- `BTreeMap<u64, A>` and `HashMap<u64, A>` as association lists. An insertion keeps the keys in
-- ascending order, the order in which a `BTreeMap` is iterated; the source never depends on the
-- order of a `HashMap`. A set of numbers is the list of its elements.
use rust_kv.Base.{
  ℕ, ◌≡◌, refl, Bool, true, false, not, Option, none, some, List, [], ◌∷◌, arith, ltb, ◌==◌, any,
  if◌then◌else◌,
}

abbrev pub Map {ℓ} : Type ℓ → Type ℓ
Map A = List (ℕ × A)

module _ {ℓ} {A : Type ℓ} where
  -- `m.get(&k)`
  unfoldable pub get : ℕ → Map A → Option A
  get k [] = none
  get k ((j, v) ∷ m) = if k == j then some v else get k m

  -- `m.insert(k, v)`
  unfoldable pub insert : ℕ → A → Map A → Map A
  insert k v [] = (k, v) ∷ []
  insert k v ((j, w) ∷ m) =
      let rest = insert k v m in
      if k == j then (k, v) ∷ m else if ltb k j then (k, v) ∷ (j, w) ∷ m else (j, w) ∷ rest

  -- `m.retain(|k, _| p(k))`
  unfoldable pub retain : (ℕ → Bool) → Map A → Map A
  retain p [] = []
  retain p ((j, v) ∷ m) = let rest = retain p m in if p j then (j, v) ∷ rest else rest

  -- `m.remove(&k)`
  abbrev pub remove : ℕ → Map A → Map A
  remove k = retain (λ j. not (k == j))

  -- `m.contains_key(&k)`
  abbrev pub contains_key : ℕ → Map A → Bool
  contains_key k m = elim (get k m) [ none ↦ false | some _ ↦ true ]

  -- `m.keys()`
  unfoldable pub keys : Map A → List ℕ
  keys [] = []
  keys ((j, v) ∷ m) = j ∷ keys m

  -- `m.get(&k).unwrap_or(d)`
  abbrev pub get_or : A → ℕ → Map A → A
  get_or d k m = elim (get k m) [ none ↦ d | some v ↦ v ]

  -- `m.entry(k).or_insert(d)`
  abbrev pub or_insert : ℕ → A → Map A → Map A
  or_insert k d m = elim (get k m) [ none ↦ insert k d m | some _ ↦ m ]

  -- `keys.map(|k| (k, v)).collect()`
  unfoldable pub collect : List ℕ → A → Map A
  collect [] v = []
  collect (k ∷ ks) v = insert k v (collect ks v)

module _ {ℓ} {A : Type ℓ} where
  pub get-insert :
      (k j : ℕ) (v : A) (m : Map A) → get j (insert k v m) ≡ (if j == k then some v else get j m)
  unfolding get insert
  get-insert k j v [] = refl
  get-insert k j v ((i, w) ∷ m) = ground (arith, get-insert k j v m)

  pub get-retain :
      (p : ℕ → Bool) (j : ℕ) (m : Map A) → get j (retain p m) ≡ (if p j then get j m else none)
  unfolding get retain
  get-retain p j [] = ground arith
  get-retain p j ((i, w) ∷ m) = ground (arith, get-retain p j m)

  pub get-collect :
      (ks : List ℕ) (j : ℕ) (v : A)
      → get j (collect ks v) ≡ (if any (λ k. j == k) ks then some v else none)
  unfolding get collect
  get-collect [] j v = refl
  get-collect (k ∷ ks) j v = ground (arith, get-insert k j v (collect ks v), get-collect ks j v)

-- `s.contains(&k)` and `s.insert(k)` of a `HashSet<u64>`
abbrev pub member : ℕ → List ℕ → Bool
member k s = any (λ j. k == j) s

abbrev pub add : ℕ → List ℕ → List ℕ
add k s = if member k s then s else k ∷ s
