-- ===== src/Storage/Logger/Holding.antt =====
-- Lists of messages and of entries that grow at their end and lose some of their beginning.
use fmtp.Prelude.{
  ◌≡◌, refl, sym, ap, ◌∙◌, subst, false, List, [], ◌∷◌, ◌++◌, Bytes, bytes_eq, ◌==◌, arith, All,
  Bool-cases, inl, inr, ℕ, zero, suc, ◌+◌, length, length-append, drop,
}
use mathlib.Core.List.{append_assoc, Sublist, sublist-append_right}
use mathlib.Core.List.Sublist
use fmtp.Storage.Message.{LogMessage}
use fmtp.Storage.Redis.{Entry, mem, without, ids_of}
use fmtp.Storage.Redis.Entries.{Distinct}

pub without-last :
    (ids : List Bytes) (es : List Entry) (e : Entry)
    → mem e.0 ids ≡ false
    → without ids (es ++ e ∷ []) ≡ without ids es ++ e ∷ []
unfolding without
without-last ids [] (id, value) new = rw new refl
without-last ids ((id, value) ∷ es) e new = elim (Bool-cases (mem id ids)) [
  | inl gone ↦ rw gone (without-last ids es e new)
  | inr kept ↦ rw kept (ap (λ list. (id, value) ∷ list) (without-last ids es e new))
]

pub Distinct-last :
    (es : List Entry) (e : Entry)
    → mem e.0 (ids_of es) ≡ false
    → Distinct es
    → Distinct (es ++ e ∷ [])
Distinct-last [] e new distinct = (tt, tt)
Distinct-last ((id, value) ∷ es) e new (others, distinct) =
    (All-last es others, Distinct-last es e (ground (arith, new)) distinct)
  where
    All-last :
        (list : List Entry)
        → All (λ other. (other.0 == id) ≡ false) list
        → All (λ other. (other.0 == id) ≡ false) (list ++ e ∷ [])
    All-last [] h = (ground (arith, new), tt)
    All-last (x ∷ list) (h, hs) = (h, All-last list hs)

pub Distinct-drop : (n : ℕ) (es : List Entry) → Distinct es → Distinct (drop n es)
Distinct-drop zero es distinct = distinct
Distinct-drop (suc n) [] distinct = tt
Distinct-drop (suc n) (e ∷ es) (others, distinct) = Distinct-drop n es distinct

pub without-append :
    (ids : List Bytes) (xs ys : List Entry)
    → without ids (xs ++ ys) ≡ without ids xs ++ without ids ys
unfolding without
without-append ids [] ys = refl
without-append ids ((id, value) ∷ xs) ys = elim (Bool-cases (mem id ids)) [
  | inl gone ↦ rw gone (without-append ids xs ys)
  | inr kept ↦ rw kept (ap (λ list. (id, value) ∷ list) (without-append ids xs ys))
]

-- The list holds all but the lost ones, in their order.
abbrev pub Holding : List LogMessage → List LogMessage → List LogMessage → Type 0
Holding list lost all = Sublist list all × (length lost + length list ≡ length all)

pub Holding-moved :
    (list next lost all : List LogMessage)
    → next ≡ list
    → Holding list lost all
    → Holding next lost all
Holding-moved list next lost all e h = subst (λ l. Holding l lost all) (sym e) h

pub Holding-renamed :
    (list lost lost_next all all_next : List LogMessage)
    → lost_next ≡ lost
    → all_next ≡ all
    → Holding list lost all
    → Holding list lost_next all_next
Holding-renamed list lost lost_next all all_next e f h =
    subst (λ l. Holding list l all_next) (sym e) (subst (Holding list lost) (sym f) h)

-- Some more come, and some of the unread ones are lost.
pub Holding-lost :
    (handed way way_next more first gone rest lost all : List LogMessage)
    → way ++ more ≡ first ++ (gone ++ rest)
    → way_next ≡ first ++ rest
    → Holding (handed ++ way) lost all
    → Holding (handed ++ way_next) (lost ++ gone) (all ++ more)
Holding-lost handed way way_next more first gone rest lost all grown next (sub, count) = (
  Sublist.trans
      (subst (λ l. Sublist (handed ++ l) ((handed ++ way) ++ more)) (sym next)
        (subst (Sublist (handed ++ (first ++ rest)))
          (ap (λ l. handed ++ l) (sym grown) ∙ sym (append_assoc handed way more))
          (Sublist.append (Sublist.refl handed)
            (Sublist.append (Sublist.refl first) (sublist-append_right gone rest)))))
      (Sublist.append sub (Sublist.refl more)),
  omega (
    arith,
    count,
    ap length grown,
    ap length next,
    length-append handed way,
    length-append handed way_next,
    length-append lost gone,
    length-append all more,
    length-append way more,
    length-append first (gone ++ rest),
    length-append gone rest,
    length-append first rest,
  ),
)
