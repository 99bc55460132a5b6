-- ===== src/Storage/Redis/Entries.antt =====
-- Entries with different ids: what is left of a stream whose front has been deleted.
use fmtp.Prelude.{
  ◌≡◌, refl, ap, ◌∙◌, true, false, Option, none, some, List, [], ◌∷◌, ◌++◌, Bytes, bytes_eq, ◌==◌,
  arith, All, All-map, Bool-cases, inl, inr,
}
use fmtp.Storage.Message.{LogMessage, unmarshal_from_string}
use fmtp.Storage.Redis.{Entry, mem, without, message_of, messages_in, ids_of}

-- No two entries have the same id.
abbrev pub Distinct : List Entry → Type 0
Distinct [] = Unit
Distinct (first ∷ others) = All (λ other. (other.0 == first.0) ≡ false) others × Distinct others

same_id : (id : Bytes) → (id == id) ≡ true
same_id id = (bytes_eq.beq_iff id id).1 refl

mem-ids_of : (xs : List Entry) → All (λ e. mem e.0 (ids_of xs) ≡ true) xs
mem-ids_of [] = tt
mem-ids_of ((id, value) ∷ xs) =
    (rw (same_id id) refl, All-map (λ e h. ground (arith, h)) xs (mem-ids_of xs))

without-read :
    (ids : List Bytes) (xs rest : List Entry)
    → All (λ e. mem e.0 ids ≡ true) xs
    → without ids (xs ++ rest) ≡ without ids rest
unfolding without
without-read ids [] rest h = refl
without-read ids ((id, value) ∷ xs) rest (h, hs) = rw h (without-read ids xs rest hs)

pub without-others :
    (ids : List Bytes) (rest : List Entry)
    → All (λ e. mem e.0 ids ≡ false) rest
    → without ids rest ≡ rest
unfolding without
without-others ids [] h = refl
without-others ids ((id, value) ∷ rest) (h, hs) =
    rw h (ap (λ list. (id, value) ∷ list) (without-others ids rest hs))

module _ (P : Entry → Type 0) where
  All-without : (ids : List Bytes) (es : List Entry) → All P es → All P (without ids es)
  unfolding without
  All-without ids [] h = tt
  All-without ids ((id, value) ∷ es) (h, hs) = elim (Bool-cases (mem id ids)) [
    | inl gone ↦ rw gone (All-without ids es hs)
    | inr kept ↦ rw kept (h, All-without ids es hs)
  ]

  All-right : (xs rest : List Entry) → All P (xs ++ rest) → All P rest
  All-right [] rest h = h
  All-right (x ∷ xs) rest (h, hs) = All-right xs rest hs

other_id :
    (id : Bytes) (ids : List Bytes) (rest : List Entry)
    → All (λ e. (e.0 == id) ≡ false) rest
    → All (λ e. mem e.0 ids ≡ false) rest
    → All (λ e. mem e.0 (id ∷ ids) ≡ false) rest
other_id id ids [] h k = tt
other_id id ids (e ∷ rest) (h, hs) (k, ks) = (rw (h, k) refl, other_id id ids rest hs ks)

pub none_read : (rest : List Entry) → All (λ e. mem e.0 [] ≡ false) rest
none_read [] = tt
none_read (e ∷ rest) = (refl, none_read rest)

not_read :
    (xs rest : List Entry) → Distinct (xs ++ rest) → All (λ e. mem e.0 (ids_of xs) ≡ false) rest
not_read [] rest h = none_read rest
not_read ((id, value) ∷ xs) rest (h, hs) =
    other_id id (ids_of xs) rest (All-right (λ e. (e.0 == id) ≡ false) xs rest h)
      (not_read xs rest hs)

pub Distinct-without :
    (ids : List Bytes) (es : List Entry) → Distinct es → Distinct (without ids es)
unfolding without
Distinct-without ids [] h = tt
Distinct-without ids ((id, value) ∷ es) (h, hs) = elim (Bool-cases (mem id ids)) [
  | inl gone ↦ rw gone (Distinct-without ids es hs)
  | inr kept ↦
      rw kept (All-without (λ other. (other.0 == id) ≡ false) ids es h, Distinct-without ids es hs)
]

-- What has been read is gone after the next request, and what has not been read stays.
pub without-prefix :
    (xs rest : List Entry) → Distinct (xs ++ rest) → without (ids_of xs) (xs ++ rest) ≡ rest
without-prefix xs rest distinct =
    without-read (ids_of xs) xs rest (mem-ids_of xs)
    ∙ without-others (ids_of xs) rest (not_read xs rest distinct)

pub messages_in-append :
    (xs ys : List Entry) → messages_in (xs ++ ys) ≡ messages_in xs ++ messages_in ys
unfolding messages_in
messages_in-append [] ys = refl
messages_in-append ((id, none) ∷ xs) ys = messages_in-append xs ys
messages_in-append ((id, some text) ∷ xs) ys =
    ap (message_of (unmarshal_from_string text)) (messages_in-append xs ys)
    ∙ joined (unmarshal_from_string text) (messages_in xs)
  where
    joined :
        (read : Option LogMessage) (list : List LogMessage)
        → message_of read (list ++ messages_in ys) ≡ message_of read list ++ messages_in ys
    joined none list = refl
    joined (some msg) list = refl
