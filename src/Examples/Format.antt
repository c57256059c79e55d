-- ===== src/Examples/Format.antt =====
-- A serialization with which the laws of the disk's codec hold: each value is printed behind its
-- shape, and a number n as the byte n + 11, so that no byte is a newline. Bytes are plain numbers
-- here, with no bound.
use rust_kv.Base.{
  ℕ, zero, suc, ◌+◌, ◌-◌, ◌≡◌, refl, false, Option, none, some, List, [], ◌∷◌, ◌++◌, append_assoc,
  arith, any, length,
}
use rust_kv.Storage.Disk.{Bytes, is_newline}

pub record Format (A : Type 0) : Type 0 where
  pub put : A → Bytes
  pub get : Bytes → Option (A × Bytes)
  pub back : (a : A) (rest : Bytes) → get (put a ++ rest) ≡ some (a, rest)
  pub one_line : (a : A) → any is_newline (put a) ≡ false

pub any-append :
    (xs ys : Bytes)
    → any is_newline xs ≡ false
    → any is_newline ys ≡ false
    → any is_newline (xs ++ ys) ≡ false
any-append [] ys h k = k
any-append (x ∷ xs) ys h k = ground (arith, any-append xs ys)

get_number : Bytes → Option (ℕ × Bytes)
get_number [] = none
get_number (b ∷ bs) = some (b - 11, bs)

number-back : (n : ℕ) (rest : Bytes) → get_number ((n + 11) ∷ rest) ≡ some (n, rest)
unfolding get_number
number-back n rest = ground arith

number-one_line : (n : ℕ) → any is_newline ((n + 11) ∷ []) ≡ false
number-one_line n = ground arith

pub number : Format ℕ
unfolding get_number
number = record {
  put = λ n. (n + 11) ∷ [];
  get = get_number;
  back = number-back;
  one_line = number-one_line;
}

module _ {A B : Type 0} where
  get_via : (B → A) → (Bytes → Option (B × Bytes)) → Bytes → Option (A × Bytes)
  get_via g get bs = elim (get bs) [ none ↦ none | some (b, rest) ↦ some (g b, rest) ]

  via-back :
      (f : A → B) (g : B → A) (F : Format B)
      → ((a : A) → g (f a) ≡ a)
      → (a : A) (rest : Bytes) → get_via g F.get (F.put (f a) ++ rest) ≡ some (a, rest)
  unfolding get_via
  via-back f g F h a rest = ground (arith, F.back (f a) rest, h a)

  pub via : (f : A → B) (g : B → A) → ((a : A) → g (f a) ≡ a) → Format B → Format A
  unfolding get_via
  via f g h F = record {
    put = λ a. F.put (f a);
    get = get_via g F.get;
    back = via-back f g F h;
    one_line = λ a. F.one_line (f a);
  }

  get_pair : Format A → Format B → Bytes → Option ((A × B) × Bytes)
  get_pair F G bs = elim (F.get bs) [
    | none ↦ none
    | some (a, rest) ↦ elim (G.get rest) [ none ↦ none | some (b, rest') ↦ some ((a, b), rest') ]
  ]

  pair-back :
      (F : Format A) (G : Format B) (p : A × B) (rest : Bytes)
      → get_pair F G ((F.put p.0 ++ G.put p.1) ++ rest) ≡ some (p, rest)
  unfolding get_pair
  pair-back F G p rest =
      rw (append_assoc (F.put p.0) (G.put p.1) rest)
        (ground (arith, F.back p.0 (G.put p.1 ++ rest), G.back p.1 rest))

  pub pair : Format A → Format B → Format (A × B)
  unfolding get_pair
  pair F G = record {
    put = λ p. F.put p.0 ++ G.put p.1;
    get = get_pair F G;
    back = pair-back F G;
    one_line = λ p. any-append (F.put p.0) (G.put p.1) (F.one_line p.0) (G.one_line p.1);
  }

module _ {A : Type 0} (F : Format A) where
  put_items : List A → Bytes
  put_items [] = []
  put_items (x ∷ xs) = F.put x ++ put_items xs

  get_items : ℕ → Bytes → Option (List A × Bytes)
  get_items zero bs = some ([], bs)
  get_items (suc n) bs = elim (F.get bs) [
    | none ↦ none
    | some (x, rest) ↦ elim (get_items n rest) [
      | none ↦ none
      | some (xs, rest') ↦ some (x ∷ xs, rest')
    ]
  ]

  items-back :
      (xs : List A) (rest : Bytes) → get_items (length xs) (put_items xs ++ rest) ≡ some (xs, rest)
  unfolding put_items get_items
  items-back [] rest = refl
  items-back (x ∷ xs) rest =
      rw (append_assoc (F.put x) (put_items xs) rest)
        (ground (arith, F.back x (put_items xs ++ rest), items-back xs rest))

  items-one_line : (xs : List A) → any is_newline (put_items xs) ≡ false
  unfolding put_items
  items-one_line [] = refl
  items-one_line (x ∷ xs) = any-append (F.put x) (put_items xs) (F.one_line x) (items-one_line xs)

  get_list : Bytes → Option (List A × Bytes)
  get_list [] = none
  get_list (b ∷ bs) = get_items (b - 11) bs

  list-back :
      (xs : List A) (rest : Bytes)
      → get_list (((length xs + 11) ∷ put_items xs) ++ rest) ≡ some (xs, rest)
  unfolding get_list
  list-back xs rest =
      let e : length xs + 11 - 11 ≡ length xs = omega arith in rw e (items-back xs rest)

  list-one_line : (xs : List A) → any is_newline ((length xs + 11) ∷ put_items xs) ≡ false
  list-one_line xs =
      any-append ((length xs + 11) ∷ []) (put_items xs) (number-one_line (length xs))
        (items-one_line xs)

  pub list : Format (List A)
  unfolding put_items get_items get_list
  list = record {
    put = λ xs. (length xs + 11) ∷ put_items xs;
    get = get_list;
    back = list-back;
    one_line = list-one_line;
  }

-- An option is a list of at most one item.
abbrev option_list : {A : Type 0} → Option A → List A
option_list none = []
option_list (some a) = a ∷ []

abbrev list_option : {A : Type 0} → List A → Option A
list_option [] = none
list_option (a ∷ as') = some a

list_option-option_list : {A : Type 0} (o : Option A) → list_option (option_list o) ≡ o
list_option-option_list none = refl
list_option-option_list (some a) = refl

pub option : {A : Type 0} → Format A → Format (Option A)
unfolding via list
option F = via option_list list_option list_option-option_list (list F)

-- Bytes that end too early.
pub number-get_short : (b : ℕ) → (number.get (b ∷ []) ≡ some (b - 11, [])) × (number.get [] ≡ none)
unfolding number get_number
number-get_short b = (refl, refl)

module _ {A B : Type 0} (F : Format A) (G : Format B) where
  pub pair-get_nil : F.get [] ≡ none → (pair F G).get [] ≡ none
  unfolding pair get_pair
  pair-get_nil h = ground (arith, h)

  pub pair-get_short :
      (bs : Bytes) {a : A} → F.get bs ≡ some (a, []) → G.get [] ≡ none → (pair F G).get bs ≡ none
  unfolding pair get_pair
  pair-get_short bs h k = ground (arith, h, k)

pub via-get_short :
    {A B : Type 0} (f : A → B) (g : B → A) (h : (a : A) → g (f a) ≡ a) (F : Format B) (bs : Bytes)
    → F.get bs ≡ none
    → (via f g h F).get bs ≡ none
unfolding via get_via
via-get_short f g h F bs k = ground (arith, k)
