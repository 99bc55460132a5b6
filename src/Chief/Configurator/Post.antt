-- ===== src/Chief/Configurator/Post.antt =====
-- configurator/configutaror_client.go: what a posted request gives the client to read.
use fmtp.Prelude.{
  Bool, true, false, ◌&&◌, ◌||◌, ◌==◌, nat_eq, Option, none, some, List, [], ◌∷◌, ◌++◌, Bytes,
  codes, if◌then◌else◌,
}

-- Each with the bytes that the error is told with, or that are to be read.
pub data HttpResult : Type 0 where
  http_error http_body : Bytes → HttpResult

-- How a POST ends: with its own error, or with a status and a body that can be read or not.
pub data HttpReply : Type 0 where
  post_error : Bytes → HttpReply
  replied : (status : Bytes) → (read_error : Option Bytes) → (body : Bytes) → HttpReply

abbrev is_prefix : Bytes → Bytes → Bool
is_prefix [] text = true
is_prefix (x ∷ xs) [] = false
is_prefix (x ∷ xs) (y ∷ ys) = x == y && is_prefix xs ys

abbrev has_part : Bytes → Bytes → Bool
has_part [] part = is_prefix part []
has_part (x ∷ xs) part = is_prefix part (x ∷ xs) || has_part xs part

-- The text from its first opening brace on.
abbrev from_brace : Bytes → Option Bytes
from_brace [] = none
from_brace (x ∷ xs) = if x == 123 then some (x ∷ xs) else from_brace xs

abbrev body_result : Bytes → Option Bytes → HttpResult
body_result body none = http_error body
body_result body (some rest) = http_body rest

abbrev read_answer : Option Bytes → Bytes → List HttpResult
read_answer (some error) body = http_error error ∷ []
read_answer none body =
    (if has_part body (codes "error") then http_error body ∷ [] else [])
    ++ body_result body (from_brace body) ∷ []

-- A body that contains "error" gives two results where it has a brace too.
unfoldable pub post_to_configurator : HttpReply → List HttpResult
post_to_configurator (post_error error) = http_error error ∷ []
post_to_configurator (replied status read_error body) =
    if has_part status (codes "200") then read_answer read_error body else http_error status ∷ []
