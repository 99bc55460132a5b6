-- ===== src/Storage/Message/RoundTrip.antt =====
-- What is read back from the text of a message of the journal.
use fmtp.Prelude.{
  ℕ, ◌+◌, ◌≡◌, ◌≢◌, refl, ap, none, some, List, [], ◌∷◌, Bytes, length, ℤ, arith, All, false,
  Bool-cases, inl, inr, ◌==◌, nat_eq, nat_beq_iff, if◌then◌else◌,
}
use fmtp.Storage.Decimal.{itoa, atoi-itoa, itoa-IsSigned, IsSigned}
use fmtp.Storage.Parts.{join, split, count, total, count-join, length-split, split-join}
use fmtp.Storage.Message.{
  LogMessage, comma, marshal_to_string, unmarshal_from_string, of_fields, channel_id_of,
}

-- The commas in the texts of a message.
abbrev pub comma_count : LogMessage → ℕ
comma_count lm = total comma (
    lm.controller_ip ∷ lm.source ∷ lm.channel_loc_name ∷ lm.channel_rem_name ∷ lm.data_type
    ∷ lm.severity ∷ lm.fmtp_type ∷ lm.direction ∷ lm.text ∷ lm.date_time ∷ [])

count_signed : (s : Bytes) → All IsSigned s → count comma s ≡ 0
unfolding count
count_signed [] h = refl
count_signed (c ∷ s) (h, hs) = ground (arith, count_signed s hs)

of_fields-length : (fields : List Bytes) → length fields ≢ 11 → of_fields fields ≡ none
of_fields-length [] h = refl
of_fields-length (f0 ∷ []) h = refl
of_fields-length (f0 ∷ f1 ∷ []) h = refl
of_fields-length (f0 ∷ f1 ∷ f2 ∷ []) h = refl
of_fields-length (f0 ∷ f1 ∷ f2 ∷ f3 ∷ []) h = refl
of_fields-length (f0 ∷ f1 ∷ f2 ∷ f3 ∷ f4 ∷ []) h = refl
of_fields-length (f0 ∷ f1 ∷ f2 ∷ f3 ∷ f4 ∷ f5 ∷ []) h = refl
of_fields-length (f0 ∷ f1 ∷ f2 ∷ f3 ∷ f4 ∷ f5 ∷ f6 ∷ []) h = refl
of_fields-length (f0 ∷ f1 ∷ f2 ∷ f3 ∷ f4 ∷ f5 ∷ f6 ∷ f7 ∷ []) h = refl
of_fields-length (f0 ∷ f1 ∷ f2 ∷ f3 ∷ f4 ∷ f5 ∷ f6 ∷ f7 ∷ f8 ∷ []) h = refl
of_fields-length (f0 ∷ f1 ∷ f2 ∷ f3 ∷ f4 ∷ f5 ∷ f6 ∷ f7 ∷ f8 ∷ f9 ∷ []) h = refl
of_fields-length (f0 ∷ f1 ∷ f2 ∷ f3 ∷ f4 ∷ f5 ∷ f6 ∷ f7 ∷ f8 ∷ f9 ∷ f10 ∷ []) h = absurd (h refl)
of_fields-length (f0 ∷ f1 ∷ f2 ∷ f3 ∷ f4 ∷ f5 ∷ f6 ∷ f7 ∷ f8 ∷ f9 ∷ f10 ∷ f11 ∷ more) h = refl

abbrev fields_of : LogMessage → List Bytes
fields_of lm =
    lm.source
    ∷ itoa lm.channel_id
    ∷ lm.channel_loc_name
    ∷ lm.channel_rem_name
    ∷ lm.data_type
    ∷ lm.severity
    ∷ lm.fmtp_type
    ∷ lm.direction
    ∷ lm.text
    ∷ lm.date_time
    ∷ []

total-fields_of : (lm : LogMessage) → total comma (lm.controller_ip ∷ fields_of lm) ≡ comma_count lm
total-fields_of lm = omega (arith, count_signed (itoa lm.channel_id) (itoa-IsSigned lm.channel_id))

channel_id_of-itoa : (n : ℤ) → channel_id_of (itoa n) ≡ n
channel_id_of-itoa n = rw (channel_id_of, atoi-itoa n) refl

of_fields-fields_of : (lm : LogMessage) → of_fields (lm.controller_ip ∷ fields_of lm) ≡ some lm
of_fields-fields_of lm =
    ap (λ id. some (record lm { channel_id = id })) (channel_id_of-itoa lm.channel_id)

length-split_marshal :
    (lm : LogMessage) → length (split comma (marshal_to_string lm)) ≡ 11 + comma_count lm
unfolding marshal_to_string
length-split_marshal lm = omega (
  arith,
  length-split comma (join comma (lm.controller_ip ∷ fields_of lm)),
  count-join comma lm.controller_ip (fields_of lm),
  total-fields_of lm,
)

read_back :
    (lm : LogMessage)
    → comma_count lm ≡ 0
    → of_fields (split comma (marshal_to_string lm)) ≡ some lm
unfolding marshal_to_string
read_back lm clean =
    rw (split-join comma lm.controller_ip (fields_of lm) parts) (of_fields-fields_of lm)
  where
    parts : All (λ p. count comma p ≡ 0) (lm.controller_ip ∷ fields_of lm)
    parts = omega (arith, count_signed (itoa lm.channel_id) (itoa-IsSigned lm.channel_id))

too_many :
    (lm : LogMessage)
    → (comma_count lm == 0) ≡ false
    → length (split comma (marshal_to_string lm)) ≢ 11
too_many lm dirty e = ground (arith, dirty, length-split_marshal lm)

-- A message of the journal is read back from its text exactly where no text of it has a comma.
-- Where one has, the text is refused.
pub unmarshal_from_string-marshal_to_string :
    (lm : LogMessage)
    → unmarshal_from_string (marshal_to_string lm) ≡ (if comma_count lm == 0 then some lm else none)
unfolding unmarshal_from_string
unmarshal_from_string-marshal_to_string lm = elim (Bool-cases (comma_count lm == 0)) [
  | inl clean ↦ rw clean (read_back lm ((nat_beq_iff (comma_count lm) 0).0 clean))
  | inr dirty ↦ rw dirty (of_fields-length (split comma (marshal_to_string lm)) (too_many lm dirty))
]
