-- ===== src/Storage/Parts.antt =====
-- `strings.Join` and `strings.Split` with a separator of one character.
use fmtp.Prelude.{
  ℕ, suc, ◌+◌, ◌≡◌, refl, ap, List, [], ◌∷◌, ◌++◌, Bytes, ◌==◌, nat_eq, if◌then◌else◌, arith, All,
  length, Bool-cases, inl, inr,
}

module _ (sep : ℕ) where
  into_first : ℕ → List Bytes → List Bytes
  into_first c [] = (c ∷ []) ∷ []
  into_first c (part ∷ parts) = (c ∷ part) ∷ parts

  unfoldable pub split : Bytes → List Bytes
  unfolding into_first
  split [] = [] ∷ []
  split (c ∷ s) = let rest = split s in if c == sep then [] ∷ rest else into_first c rest

  unfoldable pub join : List Bytes → Bytes
  join [] = []
  join (part ∷ []) = part
  join (part ∷ next ∷ parts) = part ++ sep ∷ join (next ∷ parts)

  -- How often the separator stands in a text.
  unfoldable pub count : Bytes → ℕ
  count [] = 0
  count (c ∷ s) = let rest = count s in if c == sep then suc rest else rest

  count_sep : (s : Bytes) → count (sep ∷ s) ≡ suc (count s)
  unfolding count
  count_sep s = ground arith

  pub count-append : (s t : Bytes) → count (s ++ t) ≡ count s + count t
  unfolding count
  count-append [] t = omega arith
  count-append (c ∷ s) t = elim (Bool-cases (c == sep)) [
    | inl here ↦ rw here (omega (arith, count-append s t))
    | inr other ↦ rw other (count-append s t)
  ]

  abbrev pub total : List Bytes → ℕ
  total [] = 0
  total (part ∷ parts) = count part + total parts

  -- Between two parts that are joined stands one more separator.
  pub count-join :
      (part : Bytes) (parts : List Bytes)
      → count (join (part ∷ parts)) ≡ total (part ∷ parts) + length parts
  unfolding join
  count-join part [] = omega arith
  count-join part (next ∷ parts) =
      rw (count-append part (sep ∷ join (next ∷ parts)), count_sep (join (next ∷ parts)))
        (omega (arith, count-join next parts))

  length-into_first :
      (c : ℕ) (parts : List Bytes) (n : ℕ)
      → length parts ≡ suc n
      → length (into_first c parts) ≡ suc n
  unfolding into_first
  length-into_first c [] n e = omega (arith, e)
  length-into_first c (part ∷ parts) n e = e

  -- A text has one part more than it has separators.
  pub length-split : (s : Bytes) → length (split s) ≡ suc (count s)
  unfolding split count
  length-split [] = refl
  length-split (c ∷ s) = elim (Bool-cases (c == sep)) [
    | inl here ↦ rw here (ap suc (length-split s))
    | inr other ↦ rw other (length-into_first c (split s) (count s) (length-split s))
  ]

  split-append :
      (part rest : Bytes) → count part ≡ 0 → split (part ++ sep ∷ rest) ≡ part ∷ split rest
  unfolding split count into_first
  split-append [] rest none_has = ground arith
  split-append (c ∷ part) rest none_has = elim (Bool-cases (c == sep)) [
    | inl here ↦ absurd (omega (arith, rw here at none_has))
    | inr other ↦ rw (other, split-append part rest (rw other at none_has)) refl
  ]

  split_one : (part : Bytes) → count part ≡ 0 → split part ≡ part ∷ []
  unfolding split count into_first
  split_one [] none_has = refl
  split_one (c ∷ part) none_has = elim (Bool-cases (c == sep)) [
    | inl here ↦ absurd (omega (arith, rw here at none_has))
    | inr other ↦ rw (other, split_one part (rw other at none_has)) refl
  ]

  -- Splitting a join gives the parts back, if there is a part and none holds the separator.
  pub split-join :
      (part : Bytes) (parts : List Bytes)
      → All (λ p. count p ≡ 0) (part ∷ parts)
      → split (join (part ∷ parts)) ≡ part ∷ parts
  unfolding join
  split-join part [] (h, hs) = split_one part h
  split-join part (next ∷ parts) (h, hs) =
      rw (split-append part (join (next ∷ parts)) h) (ap (◌∷◌ part) (split-join next parts hs))
