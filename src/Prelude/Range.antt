-- ===== src/Prelude/Range.antt =====
-- `for x := range m { if … { return … } }` over a map: the loop returns at the first entry that it
-- visits with an answer. Go leaves the order of the visits open; with one answer at most it does not
-- matter.
use Prim.Native.Nat.{ℕ, ◌+◌, ◌≤◌}
use mathlib.Core.Path.{◌≡◌, refl, ◌∙◌, ap}
use mathlib.Core.Logic.{∥∥₁_elim}
use mathlib.Core.Option.{Option, none, some}
use mathlib.Core.List.{List, [], ◌∷◌, Perm, Permᴰ}
use native.Mathlib.Nat.{ℕ_set}
use native.Mathlib.Omega.{arith}

module _ {ℓ κ} {A : Type ℓ} {B : Type κ} (visit : A → Option B) where
  unfoldable pub range_return : List A → Option B
  range_return [] = none
  range_return (x ∷ xs) =
      let rest = range_return xs in elim (visit x) [ none ↦ rest | some b ↦ some b ]

  abbrev answer_count : Option B → ℕ
  answer_count none = 0
  answer_count (some b) = 1

  -- How many entries have an answer.
  abbrev pub answers : List A → ℕ
  answers [] = 0
  answers (x ∷ xs) = answer_count (visit x) + answers xs

  answers-permᴰ : {xs ys : List A} → Permᴰ xs ys → answers xs ≡ answers ys
  answers-permᴰ Permᴰ.nil = refl
  answers-permᴰ (Permᴰ.cons {a = a} {b = b} e p) =
      omega (arith, ap (λ (x : A). answer_count (visit x)) e, answers-permᴰ p)
  answers-permᴰ (Permᴰ.swap {a = a} {b = b} {a' = a'} {b' = b'} e f) =
      omega
        (arith, ap (λ (x : A). answer_count (visit x)) e, ap (λ (x : A). answer_count (visit x)) f)
  answers-permᴰ (Permᴰ.trans p q) = answers-permᴰ p ∙ answers-permᴰ q

  pub answers-perm : {xs ys : List A} → Perm xs ys → answers xs ≡ answers ys
  answers-perm p = ∥∥₁_elim p (ℕ_set _ _) answers-permᴰ

  range_return-permᴰ :
      {xs ys : List A} → Permᴰ xs ys → answers xs ≤ 1 → range_return xs ≡ range_return ys
  unfolding range_return
  range_return-permᴰ Permᴰ.nil h = refl
  range_return-permᴰ (Permᴰ.cons {a = a} {b = b} {l₁ = xs} {l₂ = ys} e p) h =
      ground (arith, ap visit e, range_return-permᴰ p (omega arith))
  range_return-permᴰ (Permᴰ.swap {a = a} {b = b} {a' = a'} {b' = b'} {l = l} e f) h =
      ground (arith, ap visit e, ap visit f)
  range_return-permᴰ (Permᴰ.trans p q) h =
      range_return-permᴰ p h ∙ range_return-permᴰ q (omega (arith, answers-permᴰ p))

  -- With one answer at most, every order of the visits returns the same.
  pub range_return-perm :
      IsSet B → {xs ys : List A} → Perm xs ys → answers xs ≤ 1 → range_return xs ≡ range_return ys
  range_return-perm set p h =
      let option_set : IsSet (Option B) = hlevel set in
      ∥∥₁_elim p (option_set _ _) (λ q. range_return-permᴰ q h)
