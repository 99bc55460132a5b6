-- ===== src/Chief/Message.antt =====
-- The messages exchanged with the provider: chief/proto/fmtp/fmtp.pb.go (the fields of `Msg`) and
-- msg_with_chan_id.go.
use fmtp.Prelude.{ℕ, String, Option, Bytes, ℤ}

-- A time stamp is an instant in nanoseconds since 1970; it may be absent.
pub record Msg : Type 0 where
  pub cid : Bytes
  pub tp : String
  pub txt : Bytes
  pub id : ℤ
  pub rrtime : Option ℕ
  pub rqtime : Option ℕ

pub record MsgWithChanId : Type 0 where
  pub pb_msg : Msg
  pub chan_id : ℤ
