-- ===== src/Chief/Tcp/Clients.antt =====
-- What a step keeps of the connections: a property of one of them, and the encoding.
use fmtp.Prelude.{
  ℕ, zero, suc, String, ◌≡◌, refl, Bool, true, false, Option, none, some, List, [], ◌∷◌, ◌++◌, map,
  All, ℤ, int_eq,
}
use fmtp.Chief.Settings.{ProviderSettings}
use fmtp.Chief.Tcp.{
  OldiClnt, OldiTcpController, at_clnt, get_clnt, change_providers, stop_server, stop_working,
  move_to, last_encoding, close_clnt,
}

-- A property of the connection with a number, if there is one.
abbrev pub Has : (OldiClnt → Type 0) → Option OldiClnt → Type 0
Has holds none = ⊥
Has holds (some clnt) = holds clnt

module _ (holds after : OldiClnt → Type 0) (change : OldiClnt → OldiClnt) where
  pub Has-map :
      ((clnt : OldiClnt) → holds clnt → after (change clnt))
      → (n : ℕ) (clnts : List OldiClnt) → Has holds (get_clnt n clnts)
      → Has after (get_clnt n (map change clnts))
  Has-map keeps zero (clnt ∷ clnts) h = keeps clnt h
  Has-map keeps (suc n) (clnt ∷ clnts) h = Has-map keeps n clnts h
  Has-map keeps n [] h = h

module _ (holds : OldiClnt → Type 0) (change : OldiClnt → OldiClnt) where
  pub Has-at_clnt :
      ((clnt : OldiClnt) → holds clnt → holds (change clnt))
      → (k n : ℕ) (clnts : List OldiClnt) → Has holds (get_clnt n clnts)
      → Has holds (get_clnt n (at_clnt k change clnts))
  Has-at_clnt keeps k n [] h = h
  Has-at_clnt keeps zero zero (clnt ∷ clnts) h = keeps clnt h
  Has-at_clnt keeps zero (suc n) (clnt ∷ clnts) h = h
  Has-at_clnt keeps (suc k) zero (clnt ∷ clnts) h = h
  Has-at_clnt keeps (suc k) (suc n) (clnt ∷ clnts) h = Has-at_clnt keeps k n clnts h

  pub All-at_clnt :
      ((clnt : OldiClnt) → holds clnt → holds (change clnt))
      → (k : ℕ) (clnts : List OldiClnt) → All holds clnts
      → All holds (at_clnt k change clnts)
  All-at_clnt keeps k [] h = h
  All-at_clnt keeps zero (clnt ∷ clnts) (h, hs) = (keeps clnt h, hs)
  All-at_clnt keeps (suc k) (clnt ∷ clnts) (h, hs) = (h, All-at_clnt keeps k clnts hs)

  pub All-map_clnt :
      ((clnt : OldiClnt) → holds clnt → holds (change clnt))
      → (clnts : List OldiClnt) → All holds clnts
      → All holds (map change clnts)
  All-map_clnt keeps [] h = h
  All-map_clnt keeps (clnt ∷ clnts) (h, hs) = (keeps clnt h, All-map_clnt keeps clnts hs)

pub Has-append :
    (holds : OldiClnt → Type 0) (n : ℕ) (clnts more : List OldiClnt)
    → Has holds (get_clnt n clnts)
    → Has holds (get_clnt n (clnts ++ more))
Has-append holds n [] more h = absurd h
Has-append holds zero (clnt ∷ clnts) more h = h
Has-append holds (suc n) (clnt ∷ clnts) more h = Has-append holds n clnts more h

-- The encoding after settings whose providers all have a property of theirs.
pub last_encoding-keeps :
    (holds : String → Type 0) (setts : List ProviderSettings) (encoding : String)
    → All (λ (val : ProviderSettings). holds val.provider_encoding) setts
    → holds encoding
    → holds (last_encoding setts encoding)
last_encoding-keeps holds [] encoding hs h = h
last_encoding-keeps holds (val ∷ vals) encoding (hv, hs) h =
    last_encoding-keeps holds vals val.provider_encoding hs hv

-- New settings set the encoding, and close the connections or leave them.
module _ (holds : List OldiClnt → Type 0)
    (closes : (clnts : List OldiClnt) → holds clnts → holds (map close_clnt clnts)) where
  stop_working-keeps :
      (works : Bool) (c : OldiTcpController)
      → holds c.provider_clients
      → (holds (stop_working works c).provider_clients)
        × ((stop_working works c).provider_encoding ≡ c.provider_encoding)
  unfolding stop_working stop_server
  stop_working-keeps true c h = (closes c.provider_clients h, refl)
  stop_working-keeps false c h = (h, refl)

  move_to-keeps :
      (same : Bool) (local_port : ℤ) (c : OldiTcpController)
      → holds c.provider_clients
      → (holds (move_to same local_port c).provider_clients)
        × ((move_to same local_port c).provider_encoding ≡ c.provider_encoding)
  unfolding move_to
  move_to-keeps true local_port c h = (h, refl)
  move_to-keeps false local_port c h = stop_working-keeps c.tcp_listener_work c h

  pub change_providers-keeps :
      (setts : List ProviderSettings) (c : OldiTcpController)
      → holds c.provider_clients
      → (holds (change_providers setts c).provider_clients)
        × ((change_providers setts c).provider_encoding ≡ last_encoding setts c.provider_encoding)
  unfolding change_providers
  change_providers-keeps setts c h = move_to-keeps _ _ _ h
