-- ===== src/Storage/Oracle/Settings.antt =====
-- ora_logger/ora_cntrl/ora_cntrl_settings.go.
use fmtp.Prelude.{
  ◌≡◌, refl, sym, ◌∙◌, [], ◌++◌, Bool, true, ◌&&◌, ◌==◌, Bytes, codes, bytes_eq, int_eq, ℤ, pos,
  arith,
}
use fmtp.Storage.Decimal.{itoa}

pub record OraCntrlSettings : Type 0 where
  pub hostname : Bytes
  pub port : ℤ
  pub service_name : Bytes
  pub user_name : Bytes
  pub password : Bytes
  pub log_store_max_count : ℤ
  pub log_store_days : ℤ

abbrev pub no_setts : OraCntrlSettings
no_setts = record {
  hostname = [];
  port = pos 0;
  service_name = [];
  user_name = [];
  password = [];
  log_store_max_count = pos 0;
  log_store_days = pos 0;
}

abbrev is_db_equal : OraCntrlSettings → OraCntrlSettings → Bool
is_db_equal s other =
    s.hostname == other.hostname
    && s.port == other.port
    && s.service_name == other.service_name
    && s.user_name == other.user_name
    && s.password == other.password

abbrev is_stor_equal : OraCntrlSettings → OraCntrlSettings → Bool
is_stor_equal s other =
    s.log_store_max_count == other.log_store_max_count && s.log_store_days == other.log_store_days

-- Whether the settings of the database are the same, and those of the storage.
unfoldable pub equal : OraCntrlSettings → OraCntrlSettings → Bool × Bool
equal s other = (is_db_equal s other, is_stor_equal s other)

unfoldable pub conn_string : OraCntrlSettings → Bytes
conn_string s =
    s.user_name
    ++ codes "/"
    ++ s.password
    ++ codes "@"
    ++ codes "(DESCRIPTION=(ADDRESS_LIST=(ADDRESS=(PROTOCOL=tcp)(HOST="
    ++ s.hostname
    ++ codes ")(PORT="
    ++ itoa s.port
    ++ codes ")))(CONNECT_DATA=(SERVICE_NAME="
    ++ s.service_name
    ++ codes ")))"

pub record SameDb (a b : OraCntrlSettings) : Type 0 where
  pub same_hostname : a.hostname ≡ b.hostname
  pub same_port : a.port ≡ b.port
  pub same_service : a.service_name ≡ b.service_name
  pub same_user : a.user_name ≡ b.user_name
  pub same_password : a.password ≡ b.password

pub SameDb-refl : (s : OraCntrlSettings) → SameDb s s
SameDb-refl s = record {
  same_hostname = refl;
  same_port = refl;
  same_service = refl;
  same_user = refl;
  same_password = refl;
}

pub SameDb-via : (a b c : OraCntrlSettings) → SameDb a b → SameDb a c → SameDb b c
SameDb-via a b c ab ac = record {
  same_hostname = sym ab.same_hostname ∙ ac.same_hostname;
  same_port = sym ab.same_port ∙ ac.same_port;
  same_service = sym ab.same_service ∙ ac.same_service;
  same_user = sym ab.same_user ∙ ac.same_user;
  same_password = sym ab.same_password ∙ ac.same_password;
}

-- Settings with one database are found equal as far as the database goes.
pub equal-SameDb : (a b : OraCntrlSettings) → SameDb a b → (equal a b).0 ≡ true
unfolding equal
equal-SameDb a b same = ground (
  arith,
  (bytes_eq.beq_iff a.hostname b.hostname).1 same.same_hostname,
  (int_eq.beq_iff a.port b.port).1 same.same_port,
  (bytes_eq.beq_iff a.service_name b.service_name).1 same.same_service,
  (bytes_eq.beq_iff a.user_name b.user_name).1 same.same_user,
  (bytes_eq.beq_iff a.password b.password).1 same.same_password,
)
