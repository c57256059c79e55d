-- ===== src/Api/Members.antt =====
-- The configurations that the admin requests propose.
use rust_kv.Base.{
  ℕ, suc, String, ◌+◌, ◌≡◌, ◌≢◌, ◌↔◌, refl, ap, ◌∙◌, inl, inr, Bool, true, false, not, Option, none,
  some, List, [], ◌∷◌, arith, any, count, ◌==◌, Bool-cases,
}
use rust_kv.Maps.{Map, get, insert, remove, keys, contains_key, get-insert, get-retain}
use rust_kv.Types.{NodeId, MemberAddr, Membership, config_change}
use rust_kv.Node.Client.{missing_from}
use rust_kv.Api.Replies.{Proposes}
use rust_kv.Api.{Handled, done, propose, put_member, delete_member}

-- No key stands twice.
abbrev pub Distinct : List ℕ → Type 0
Distinct [] = Unit
Distinct (k ∷ ks) = (any (λ j. k == j) ks ≡ false) × Distinct ks

module _ {A : Type 0} where
  get-eq-none_iff : (k : ℕ) (m : Map A) → contains_key k m ≡ any (λ j. k == j) (keys m)
  unfolding get keys
  get-eq-none_iff k [] = refl
  get-eq-none_iff k ((j, v) ∷ m) = ground (arith, get-eq-none_iff k m)

  count_all :
      (p : ℕ → Bool) (m : Map A)
      → ((k : ℕ) → contains_key k m ≡ true → p k ≡ false)
      → count p (keys m) ≡ 0
  unfolding keys get
  count_all p [] h = refl
  count_all p ((j, v) ∷ m) h =
      let q : p j ≡ false = h j (ground arith) in rw q (count_all p m (λ k e. h k (ground arith)))

  -- A new key is the only one that the old map misses.
  count-insert :
      (p : ℕ → Bool) (k : ℕ) (v : A) (m : Map A)
      → contains_key k m ≡ false
      → p k ≡ true
      → ((j : ℕ) → contains_key j m ≡ true → p j ≡ false)
      → count p (keys (insert k v m)) ≡ 1
  unfolding keys insert get
  count-insert p k v [] n q h = rw q refl
  count-insert p k v ((j, w) ∷ m) n q h =
      let pj : p j ≡ false = h j (ground arith) in
      let rest = count_all p m (λ i e. h i (ground arith)) in
      let ih = count-insert p k v m (ground arith) q (λ i e. h i (ground arith)) in
      ground (arith, pj, rest, ih)

  count_one :
      (p : ℕ → Bool) (k : ℕ) (m : Map A)
      → Distinct (keys m)
      → contains_key k m ≡ true
      → p k ≡ true
      → ((j : ℕ) → contains_key j m ≡ true → j ≢ k → p j ≡ false)
      → count p (keys m) ≡ 1
  unfolding keys get
  count_one p k [] d n q h = cc
  count_one p k ((j, w) ∷ m) d n q h = elim (Bool-cases (j == k)) [
    | inl same ↦
        let e : j ≡ k = ground arith in
        let pj : p j ≡ true = ap p e ∙ q in
        rw pj (
          ap suc (
            count_all p m
              (λ i c. h i (ground arith) (λ z. ground (arith, get-eq-none_iff i m, d.0)))))
    | inr other ↦
        let pj : p j ≡ false = h j (ground arith) (λ z. ground arith) in
        rw pj (count_one p k m d.1 (ground arith) q (λ i c ne. h i (ground arith) ne))
  ]

-- How many members the two configurations do not share.
abbrev pub difference : Membership → Membership → ℕ
difference old new = missing_from old new + missing_from new old

difference-insert :
    (id : NodeId) (addr : MemberAddr) (members : Membership)
    → contains_key id members ≡ false
    → difference members (insert id addr members) ≡ 1
unfolding missing_from
difference-insert id addr members n =
    let a =
      count-insert (λ i. not (contains_key i members)) id addr members n (ground arith)
        (λ j e. ground arith) in
    let b =
      count_all (λ i. not (contains_key i (insert id addr members))) members
        (λ j e. ground (arith, get-insert id j addr members)) in
    omega (arith, a, b)

difference-remove :
    (id : NodeId) (members : Membership)
    → Distinct (keys members)
    → contains_key id members ≡ true
    → difference members (remove id members) ≡ 1
unfolding missing_from
difference-remove id members d n =
    let a =
      count_all (λ i. not (contains_key i members)) (remove id members)
        (λ j e. ground (arith, get-retain (λ i. not (id == i)) j members)) in
    let b =
      count_one (λ i. not (contains_key i (remove id members))) id members d n
        (ground (arith, get-retain (λ i. not (id == i)) id members))
        (λ j e ne. ground (arith, get-retain (λ i. not (id == i)) j members)) in
    omega (arith, a, b)

-- What is proposed, if anything is, is a configuration that differs in one member.
abbrev pub IsDelta : {V : Type 0} → Membership → Handled V → Type 0
IsDelta members (done r) = Unit
IsDelta members (propose c k) =
    (new : Membership) × (c ≡ config_change new) × (difference members new ≡ 1)

module _ (V : Type 0) (peer_urls : Map String) (id : NodeId) (id_text : String)
    (members : Membership) where
  add-IsDelta :
      (body : Option MemberAddr)
      → IsDelta {V = V} members (put_member peer_urls id id_text body members)
  unfolding put_member
  add-IsDelta none = tt
  add-IsDelta (some addr) = elim (Bool-cases (contains_key id members)) [
    | inl q ↦ rw q tt
    | inr q ↦ rw q (insert id addr members, refl, difference-insert id addr members q)
  ]

  remove-IsDelta :
      Distinct (keys members) → IsDelta {V = V} members (delete_member peer_urls id id_text members)
  unfolding delete_member
  remove-IsDelta d = elim (Bool-cases (contains_key id members)) [
    | inl q ↦ rw q (remove id members, refl, difference-remove id members d q)
    | inr q ↦ rw q tt
  ]

  -- What the two admin requests propose, and when.
  abbrev pub AdminRule : Option MemberAddr → Type 0
  AdminRule body =
      IsDelta {V = V} members (put_member peer_urls id id_text body members)
      × IsDelta {V = V} members (delete_member peer_urls id id_text members)
      × (Proposes {V = V} (put_member peer_urls id id_text body members)
          ↔ ((body ≢ none) × (contains_key id members ≡ false)))
      × (Proposes {V = V} (delete_member peer_urls id id_text members)
          ↔ (contains_key id members ≡ true))

  -- The admin requests over a view of the members in which no id stands twice: adding and removing a
  -- member propose only configurations that differ from the view in exactly one member. A request to
  -- add is proposed exactly if its body is well-formed and the id is no member, and a request to
  -- remove exactly if the id is a member.
  pub admin-IsDelta : Distinct (keys members) → (body : Option MemberAddr) → AdminRule body
  unfolding put_member delete_member
  admin-IsDelta d body = (add-IsDelta body, remove-IsDelta d, ground arith, ground arith)
