-- ===== src/Node/Counts.antt =====
-- How many elements of a list satisfy a predicate, for the quorums of raft/node.rs.
use rust_kv.Base.{
  ℕ, ◌+◌, ◌≤◌, ◌≡◌, ◌++◌, map, if◌then◌else◌, refl, not, ◌||◌, Bool, true, false, List, [], ◌∷◌,
  arith, ◌==◌, count, filter, to_ℕ, Bool-cases, inl, inr,
}
use rust_kv.Maps.{member}
use rust_kv.Node.Quorum.{Distinct}

-- `k` of the elements of a list satisfy `P`.
pub data Counts {A : Type 0} (P : A → Type 0) : List A → ℕ → Type 0 where
  empty : Counts P [] 0
  counted : {x : A} {xs : List A} {k : ℕ} → P x → Counts P xs k → Counts P (x ∷ xs) (k + 1)
  skipped : {x : A} {xs : List A} {k : ℕ} → ¬ P x → Counts P xs k → Counts P (x ∷ xs) k

pub Counts-count :
    {A : Type 0} (P : A → Type 0) (p : A → Bool)
    → ((x : A) → p x ≡ true → P x)
    → ((x : A) → p x ≡ false → ¬ P x)
    → (xs : List A) → Counts P xs (count p xs)
Counts-count P p yea nay [] = empty
Counts-count P p yea nay (x ∷ xs) = elim (Bool-cases (p x)) [
  | inl h ↦
      let e : count p (x ∷ xs) ≡ count p xs + 1 = ground (arith, h) in
      rw e (counted (yea x h) (Counts-count P p yea nay xs))
  | inr h ↦
      let e : count p (x ∷ xs) ≡ count p xs = ground (arith, h) in
      rw e (skipped (nay x h) (Counts-count P p yea nay xs))
]

-- One element counted apart from the others.
absent :
    (a : ℕ) (p : ℕ → Bool) (xs : List ℕ)
    → member a xs ≡ false
    → count p (filter (λ x. not (x == a)) xs) ≡ count (λ x. x == a || p x) xs
absent a p [] out = refl
absent a p (x ∷ xs) out =
    let e : (x == a) ≡ false = ground (arith, out) in
    let o : member a xs ≡ false = ground (arith, out) in ground (arith, e, absent a p xs o)

pub count-without :
    (a : ℕ) (p : ℕ → Bool) (xs : List ℕ)
    → Distinct xs
    → to_ℕ (member a xs) + count p (filter (λ x. not (x == a)) xs) ≡ count (λ x. x == a || p x) xs
count-without a p [] d = refl
count-without a p (x ∷ xs) d = elim (Bool-cases (x == a)) [
  | inl here ↦
      let e : x ≡ a = ground (arith, here) in
      let out : member a xs ≡ false = rw e at d.0 in ground (arith, here, e, absent a p xs out, out)
  | inr there ↦
      let back : (a == x) ≡ false = ground (arith, there) in
      ground (arith, there, back, count-without a p xs d.1)
]

count-append :
    {A : Type 0} (p : A → Bool) (xs ys : List A) → count p (xs ++ ys) ≡ count p xs + count p ys
count-append p [] ys = omega arith
count-append p (x ∷ xs) ys = ground (arith, count-append p xs ys)

count-map :
    {A B : Type 0} (p : B → Bool) (f : A → B) (xs : List A)
    → count p (map f xs) ≡ count (λ x. p (f x)) xs
count-map p f [] = refl
count-map p f (x ∷ xs) = ground (arith, count-map p f xs)

-- One element with a test of its own, and the others.
count_apart :
    (a : ℕ) (b : Bool) (p : ℕ → Bool) (xs : List ℕ)
    → count p (filter (λ x. not (x == a)) xs) + (if member a xs then to_ℕ b else 0)
      ≤ count (λ x. if x == a then b else p x) xs
count_apart a b p [] = omega arith
count_apart a b p (x ∷ xs) = elim (Bool-cases (x == a)) [
  | inl here ↦
      let back : (a == x) ≡ true = ground (arith, here) in
      ground (arith, here, back, count_apart a b p xs)
  | inr there ↦
      let back : (a == x) ≡ false = ground (arith, there) in
      ground (arith, there, back, count_apart a b p xs)
]

-- Of numbers that are told for the others, and of one for the element `a` where it is in the list.
pub count-told :
    (a last : ℕ) (q : ℕ → Bool) (f : ℕ → ℕ) (xs : List ℕ)
    → count q (map f (filter (λ x. not (x == a)) xs) ++ (if member a xs then last ∷ [] else []))
      ≤ count (λ x. if x == a then q last else q (f x)) xs
count-told a last q f xs =
    let others = filter (λ x. not (x == a)) xs in
    let one = if member a xs then last ∷ [] else [] in
    let e = count-append q (map f others) one in
    let m = count-map q f others in ground (arith, e, m, count_apart a (q last) (λ x. q (f x)) xs)
