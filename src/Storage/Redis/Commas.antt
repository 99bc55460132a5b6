-- ===== src/Storage/Redis/Commas.antt =====
-- What the reader makes of the texts that the chief writes to the stream.
use fmtp.Prelude.{
  ◌≡◌, refl, some, List, [], ◌∷◌, Bytes, ◌==◌, nat_eq, if◌then◌else◌, Bool-cases, inl, inr,
}
use fmtp.Storage.Message.{LogMessage, marshal_to_string}
use fmtp.Storage.Message.RoundTrip.{comma_count, unmarshal_from_string-marshal_to_string}
use fmtp.Storage.Redis.{Entry, messages_in}

-- The entries of messages, each with the id that Redis gave it.
unfoldable pub entries_of : List (Bytes × LogMessage) → List Entry
unfolding marshal_to_string
entries_of [] = []
entries_of ((id, msg) ∷ others) = (id, some (marshal_to_string msg)) ∷ entries_of others

abbrev pub without_commas : List (Bytes × LogMessage) → List LogMessage
without_commas [] = []
without_commas ((id, msg) ∷ others) =
    let rest = without_commas others in if comma_count msg == 0 then msg ∷ rest else rest

-- Of the messages that are written to the stream as texts, the reader gets exactly those without a
-- comma in any of their texts, in their order. The others are lost.
pub messages_in-entries_of :
    (written : List (Bytes × LogMessage))
    → messages_in (entries_of written) ≡ without_commas written
unfolding messages_in entries_of
messages_in-entries_of [] = refl
messages_in-entries_of ((id, msg) ∷ others) =
    rw (unmarshal_from_string-marshal_to_string msg, messages_in-entries_of others)
      (elim (Bool-cases (comma_count msg == 0)) [
        | inl clean ↦ rw clean refl
        | inr dirty ↦ rw dirty refl
      ])
