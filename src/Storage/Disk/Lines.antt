-- ===== src/Storage/Disk/Lines.antt =====
-- The lines of log.jsonl as chunks of bytes.
use rust_kv.Base.{
  ℕ, zero, suc, ◌≡◌, refl, ap, ◌∙◌, ◌⊎◌, true, false, List, [], ◌∷◌, ◌++◌, append_assoc, append-nil,
  take, any, Bool-cases, inl, inr,
}
use rust_kv.Types.{LogEntry}
use rust_kv.Storage.Disk.{
  Bytes, newline, is_newline, FileCodec, IsFileCodec, split_inclusive, ends_with_newline, lines,
}

-- The bytes are part of one line.
abbrev pub IsPart : Bytes → Type 0
IsPart w = any is_newline w ≡ false

pub IsPart-cons : (b : ℕ) (w : Bytes) → IsPart (b ∷ w) → (is_newline b ≡ false) × IsPart w
IsPart-cons b w h = elim (Bool-cases (is_newline b)) [
  | inl e ↦ let q : true ≡ false = rw e at h in cc
  | inr e ↦ (e, rw e at h)
]

pub IsPart-take : (k : ℕ) (w : Bytes) → IsPart w → IsPart (take k w)
IsPart-take zero w h = refl
IsPart-take (suc k) [] h = refl
IsPart-take (suc k) (b ∷ w) h = let (e, t) = IsPart-cons b w h in rw e (IsPart-take k w t)

pub split-line :
    (w rest : Bytes)
    → IsPart w
    → split_inclusive (w ++ newline ∷ rest) ≡ (w ++ newline ∷ []) ∷ split_inclusive rest
unfolding split_inclusive
split-line [] rest h = refl
split-line (b ∷ w) rest h = let (e, t) = IsPart-cons b w h in rw (e, split-line w rest t) refl

pub split-part : (b : ℕ) (w : Bytes) → IsPart (b ∷ w) → split_inclusive (b ∷ w) ≡ (b ∷ w) ∷ []
unfolding split_inclusive
split-part b [] h = let (e, t) = IsPart-cons b [] h in rw e refl
split-part b (x ∷ w) h = let (e, t) = IsPart-cons b (x ∷ w) h in rw (e, split-part x w t) refl

pub ends-line : (w : Bytes) → ends_with_newline (w ++ newline ∷ []) ≡ true
ends-line [] = refl
ends-line (b ∷ []) = refl
ends-line (b ∷ x ∷ w) = ends-line (x ∷ w)

pub ends-part : (w : Bytes) → IsPart w → ends_with_newline w ≡ false
ends-part [] h = refl
ends-part (b ∷ []) h = (IsPart-cons b [] h).0
ends-part (b ∷ x ∷ w) h = ends-part (x ∷ w) (IsPart-cons b (x ∷ w) h).1

pub take-append_cases {ℓ} :
    {A : Type ℓ} (k : ℕ) (xs ys : List A)
    → ((j : ℕ) × (take k (xs ++ ys) ≡ take j xs))
      ⊎ ((j : ℕ) × (take k (xs ++ ys) ≡ xs ++ take j ys))
take-append_cases k [] ys = inr (k, refl)
take-append_cases zero (x ∷ xs) ys = inl (0, refl)
take-append_cases (suc k) (x ∷ xs) ys = elim (take-append_cases k xs ys) [
  | inl (j, e) ↦ inl (suc j, ap (◌∷◌ x) e)
  | inr (j, e) ↦ inr (j, ap (◌∷◌ x) e)
]

module _ {V : Type 0} (c : FileCodec V) where
  pub lines-append : (xs ys : List (LogEntry V)) → lines c (xs ++ ys) ≡ lines c xs ++ lines c ys
  unfolding lines
  lines-append [] ys = refl
  lines-append (x ∷ xs) ys = rw (lines-append xs ys, append_assoc) refl

  -- A prefix of some lines is whole lines and a part of one.
  pub record Cut (es : List (LogEntry V)) (w : Bytes) : Type 0 where
    pub whole : ℕ
    pub part : Bytes
    pub part_IsPart : IsPart part
    pub splits : w ≡ lines c (take whole es) ++ part

  Cut-cons :
      (law : IsFileCodec c) (e : LogEntry V) (es : List (LogEntry V)) (w : Bytes)
      → Cut es w
      → Cut (e ∷ es) (c.encode_entry e ++ newline ∷ w)
  unfolding lines
  Cut-cons law e es w h = record {
    whole = suc h.whole;
    part = h.part;
    part_IsPart = h.part_IsPart;
    splits = rw (h.splits, append_assoc) refl;
  }

  Cut-line :
      (law : IsFileCodec c) (e : LogEntry V) (es : List (LogEntry V)) (w : Bytes) (j : ℕ)
      → ((k : ℕ) → Cut es (take k (lines c es)))
      → w ≡ c.encode_entry e ++ take j (newline ∷ lines c es)
      → Cut (e ∷ es) w
  Cut-line law e es w zero cut h = record {
    whole = 0;
    part = c.encode_entry e;
    part_IsPart = law.one_line e;
    splits = unfold lines in (h ∙ append-nil _);
  }
  Cut-line law e es w (suc j) cut h = rw h (Cut-cons law e es _ (cut j))

  pub take-lines : IsFileCodec c → (k : ℕ) (es : List (LogEntry V)) → Cut es (take k (lines c es))
  unfolding lines
  take-lines law zero [] = record { whole = 0; part = []; part_IsPart = refl; splits = refl }
  take-lines law (suc k) [] = record { whole = 0; part = []; part_IsPart = refl; splits = refl }
  take-lines law k (e ∷ es) = elim (take-append_cases k (c.encode_entry e) (newline ∷ lines c es)) [
    | inl (j, h) ↦ record {
      whole = 0;
      part = take j (c.encode_entry e);
      part_IsPart = IsPart-take j _ (law.one_line e);
      splits = h;
    }
    | inr (j, h) ↦ Cut-line law e es _ j (λ k'. take-lines law k' es) h
  ]
