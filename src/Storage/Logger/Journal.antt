-- ===== src/Storage/Logger/Journal.antt =====
-- The way of the journal from the stream to the database.
use fmtp.Prelude.{List, bytes_eq}
use mathlib.Core.List.Sublist
use fmtp.Storage.Logger.Holding.{Holding}
