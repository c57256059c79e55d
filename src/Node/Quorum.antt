-- ===== src/Node/Quorum.antt =====
-- The configuration changes that `validate_config_change` of raft/node.rs lets through.
use rust_kv.Base.{
  ℕ, suc, ◌+◌, ◌/◌, ◌≤◌, ◌<◌, ◌≡◌, refl, sym, ◌∙◌, ap, inl, inr, not, ◌&&◌, Bool, true, false, none,
  List, [], ◌∷◌, arith, ◌==◌, length, count, All, All-map, All-both, if◌then◌else◌, Bool-cases,
}
use native.Mathlib.Decide.{dec_le}
use rust_kv.Maps.{Map, get, keys, contains_key, member}
use rust_kv.Types.{Membership}
use rust_kv.Node.State.{Leadership, RaftNode}
use rust_kv.Node.Queries.{majority}
use rust_kv.Node.Client.{missing_from, config_rules, validate_config_change}

-- No number stands twice in the list.
abbrev pub Distinct : List ℕ → Type 0
Distinct [] = Unit
Distinct (x ∷ xs) = (member x xs ≡ false) × Distinct xs

abbrev remove_one : ℕ → List ℕ → List ℕ
remove_one x [] = []
remove_one x (y ∷ ys) = let rest = remove_one x ys in if x == y then ys else y ∷ rest

count-remove_one :
    (p : ℕ → Bool) (x : ℕ) (xs : List ℕ)
    → p x ≡ true
    → member x xs ≡ true
    → count p (remove_one x xs) + 1 ≡ count p xs
count-remove_one p x [] h m = cc
count-remove_one p x (y ∷ ys) h m = elim (Bool-cases (x == y)) [
  | inl here ↦
      let e : x ≡ y = ground (arith, here) in
      let py : p y ≡ true = ap p (sym e) ∙ h in ground (arith, here, py)
  | inr there ↦ ground (arith, there, m, count-remove_one p x ys h)
]

member-remove_one :
    (x y : ℕ) (xs : List ℕ) → (y == x) ≡ false → member y (remove_one x xs) ≡ member y xs
member-remove_one x y [] h = refl
member-remove_one x y (z ∷ zs) h = ground (arith, h, member-remove_one x y zs h)

unequal : (y : ℕ) (ys : List ℕ) → member y ys ≡ false → All (λ z. (z == y) ≡ false) ys
unequal y [] h = tt
unequal y (z ∷ zs) h = (ground (arith, h), unequal y zs (ground (arith, h)))

-- Taking out a number leaves the others.
still_there :
    (p : ℕ → Bool) (y : ℕ) (ys xs : List ℕ)
    → member y ys ≡ false
    → All (λ z. p z ≡ true → member z xs ≡ true) ys
    → All (λ z. p z ≡ true → member z (remove_one y xs) ≡ true) ys
still_there p y ys xs out h =
    All-map (λ z. ((z == y) ≡ false) × (p z ≡ true → member z xs ≡ true))
      (λ z. p z ≡ true → member z (remove_one y xs) ≡ true) ys
      (λ z k pz. member-remove_one y z xs k.0 ∙ k.1 pz)
      (All-both (λ z. (z == y) ≡ false) (λ z. p z ≡ true → member z xs ≡ true) ys (unequal y ys out)
        h)

-- Distinct numbers that satisfy `p` and all occur in another list are no more than those there.
count_into :
    (p : ℕ → Bool) (ys xs : List ℕ)
    → Distinct ys
    → All (λ y. p y ≡ true → member y xs ≡ true) ys
    → count p ys ≤ count p xs
count_into p [] xs d h = omega arith
count_into p (y ∷ ys) xs d h = elim (Bool-cases (p y)) [
  | inl py ↦
      let others = count_into p ys (remove_one y xs) d.1 (still_there p y ys xs d.0 h.1) in
      ground (arith, py, others, count-remove_one p y xs py (h.0 py))
  | inr out ↦ ground (arith, out, count_into p ys xs d.1 h.1)
]

-- Two predicates that hold of more elements than there are hold of one together.
overlap :
    (a b : ℕ → Bool) (xs : List ℕ)
    → length xs < count a xs + count b xs
    → (x : ℕ) × (member x xs ≡ true) × (a x ≡ true) × (b x ≡ true)
overlap a b [] h = absurd (omega arith)
overlap a b (x ∷ xs) h = elim (Bool-cases (a x && b x)) [
  | inl both ↦ (x, ground arith, ground (arith, both), ground (arith, both))
  | inr one ↦
      let (y, m, ay, by) = overlap a b xs (ground (arith, h, one)) in (y, ground (arith, m), ay, by)
]

-- The keys of a map.
length-keys {ℓ} : {A : Type ℓ} (m : Map A) → length (keys m) ≡ length m
unfolding keys
length-keys [] = refl
length-keys ((k, v) ∷ m) = ap suc (length-keys m)

pub contains_key-eq {ℓ} : {A : Type ℓ} (k : ℕ) (m : Map A) → contains_key k m ≡ member k (keys m)
unfolding keys get
contains_key-eq k [] = refl
contains_key-eq k ((j, v) ∷ m) = ground (arith, contains_key-eq k m)

everywhere {ℓ} : {P : ℕ → Type ℓ} (xs : List ℕ) → ((x : ℕ) → P x) → All P xs
everywhere [] f = tt
everywhere (x ∷ xs) f = (f x, everywhere xs f)

count_split :
    (p q : ℕ → Bool) (xs : List ℕ)
    → count p xs ≤ count (λ x. p x && q x) xs + count (λ x. not (q x)) xs
count_split p q [] = omega arith
count_split p q (x ∷ xs) = ground (arith, count_split p q xs)

count_all : (xs : List ℕ) → count (λ x. true) xs ≡ length xs
count_all [] = refl
count_all (x ∷ xs) = ap suc (count_all xs)

count_and : (p q : ℕ → Bool) (xs : List ℕ) → count (λ x. p x && q x) xs ≤ count p xs
count_and p q [] = omega arith
count_and p q (x ∷ xs) = ground (arith, count_and p q xs)

-- What of one configuration satisfies `p` is, up to the members that the other lacks, there too.
count_across :
    (p : ℕ → Bool) (a b : Membership)
    → Distinct (keys a)
    → count p (keys a) ≤ count p (keys b) + missing_from b a
unfolding missing_from
count_across p a b d =
    let q = λ (x : ℕ). contains_key x b in
    let into =
      count_into (λ x. p x && q x) (keys a) (keys b) d
        (everywhere (keys a) (λ x h. sym (contains_key-eq x b) ∙ ground (arith, h))) in
    omega (arith, count_split p q (keys a), count_and p q (keys b), into)

-- With one member more in `b`, or as many, majorities of both share a member of `b`.
shared :
    (p q : ℕ → Bool) (a b : Membership)
    → Distinct (keys a)
    → Distinct (keys b)
    → missing_from b a ≡ 0
    → missing_from a b ≤ 1
    → length a / 2 + 1 ≤ count p (keys a)
    → length b / 2 + 1 ≤ count q (keys b)
    → (x : ℕ) × (member x (keys b) ≡ true) × (p x ≡ true) × (q x ≡ true)
shared p q a b da db none_lost one_more pa qb = overlap p q (keys b) (
    omega (
      arith,
      count_across p a b da,
      count_across (λ x. true) b a db,
      count_all (keys a),
      count_all (keys b),
      length-keys a,
      length-keys b,
    ))

module _ {V S : Type 0} where
  one_delta :
      (new : Membership) (n : RaftNode V S) (l : Leadership)
      → validate_config_change new n l ≡ none
      → missing_from n.members new + missing_from new n.members ≡ 1
  unfolding validate_config_change config_rules
  one_delta new n l h = ground (arith, h)

  -- A configuration change that is let through cannot decide apart from the old one: any set of nodes
  -- that has a majority of the old configuration, and any set that has a majority of the new one, share
  -- a node. The keys of both maps are distinct.
  pub validate_config_change-Overlap :
      (new : Membership) (n : RaftNode V S) (l : Leadership) (p q : ℕ → Bool)
      → Distinct (keys n.members)
      → Distinct (keys new)
      → validate_config_change new n l ≡ none
      → majority n ≤ count p (keys n.members)
      → length new / 2 + 1 ≤ count q (keys new)
      → (id : ℕ) × (p id ≡ true) × (q id ≡ true)
  unfolding majority
  validate_config_change-Overlap new n l p q d d' h old_votes new_votes =
      let delta = one_delta new n l h in
      elim (dec_le (missing_from new n.members) 0) [
        | yes grown ↦
            let (x, _, px, qx) =
              shared p q n.members new d d' (omega arith) (omega (arith, delta)) old_votes
                new_votes in
            (x, px, qx)
        | no shrunk ↦
            let (x, _, qx, px) =
              shared q p new n.members d' d (omega (arith, delta)) (omega (arith, delta)) new_votes
                old_votes in
            (x, px, qx)
      ]
