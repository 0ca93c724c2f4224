-- ===== src/DownloadManager.antt =====
-- nepenthes-core/src/DownloadManager.cpp: a download is checked and given to the handler of its
-- protocol. An IPv4 address is a number with its first byte on top; SWAP_ORDER does the same to both
-- sides of the test and is left out. inet_addr() (`none` for INADDR_NONE), inet_ntoa() and the decimal
-- format of asprintf() are parameters.
pub mod Ranges
pub mod Routing
mod Tests
use nepenthes.Base.{
  ℕ, ◌+◌, ◌-◌, ◌*◌, ◌/◌, ◌^◌, ◌==◌, ltb, if◌then◌else◌, Bool, true, false, ◌||◌, List, [], ◌∷◌,
  ◌++◌, Option, some, none, codes, str_eq,
}
use nepenthes.DownloadUrl.{DownloadUrl, set_host}

pub record IpRange : Type 0 where
  pub address : ℕ
  pub bits : ℕ

abbrev pub packaddr : ℕ → ℕ → ℕ → ℕ → ℕ
packaddr a b c d = a * 2 ^ 24 + b * 2 ^ 16 + c * 2 ^ 8 + d

-- `&` with the mask that MAKEMASK makes of the number of bits.
abbrev pub masked : ℕ → ℕ → ℕ
masked address bits = address / 2 ^ (32 - bits) * 2 ^ (32 - bits)

abbrev pub range : ℕ → ℕ → ℕ → ℕ → ℕ → IpRange
range a b c d bits = record { address = packaddr a b c d; bits = bits }

-- m_irLocalRanges
abbrev pub local_ranges : List IpRange
local_ranges =
    range 0 0 0 0 8
    ∷ range 10 0 0 0 8
    ∷ range 14 0 0 0 8
    ∷ range 39 0 0 0 8
    ∷ range 127 0 0 0 8
    ∷ range 128 0 0 0 16
    ∷ range 169 254 0 0 16
    ∷ range 172 16 0 0 12
    ∷ range 191 255 0 0 16
    ∷ range 192 0 0 0 24
    ∷ range 192 0 2 0 24
    ∷ range 192 88 99 0 24
    ∷ range 192 168 0 0 16
    ∷ range 198 18 0 0 15
    ∷ range 223 255 255 0 24
    ∷ range 224 0 0 0 4
    ∷ range 240 0 0 0 4
    ∷ []

pub is_in_ranges : ℕ → List IpRange → Bool
is_in_ranges address [] = false
is_in_ranges address (r ∷ rs) = masked address r.bits == r.address || is_in_ranges address rs

pub is_local_address : ℕ → Bool
is_local_address address = is_in_ranges address local_ranges

-- The members that the manager reads or writes: m_Url, m_DownloadUrl and m_RemoteHost.
pub record Download : Type 0 where
  pub url : List ℕ
  pub download_url : DownloadUrl
  pub remote_host : ℕ

-- A `DownloadHandler *` is a number.
pub record DownloadHandlerTuple : Type 0 where
  pub protocol : List ℕ
  pub handler : ℕ

pub record DownloadManager : Type 0 where
  pub handlers : List DownloadHandlerTuple
  pub replace_local_ips : Bool

-- `replace` is the configured value, `none` where reading it throws.
pub init : DownloadManager → Option ℕ → DownloadManager × Bool
init m none = (record m { replace_local_ips = false }, false)
init m (some replace) = (record m { replace_local_ips = replace == 1 }, true)

pub register_download_handler : DownloadManager → ℕ → List ℕ → DownloadManager × Bool
register_download_handler m handler protocol = (
  record m { handlers = m.handlers ++ record { protocol = protocol; handler = handler } ∷ [] },
  true,
)

pub unregister_download_handler : DownloadManager → List ℕ → DownloadManager
unregister_download_handler m protocol = m

-- The first handler with the protocol's name: it gets the download; without one the download is
-- deleted.
pub pick : List DownloadHandlerTuple → Download → Option (ℕ × Download)
pick [] down = none
pick (h ∷ hs) down =
    if str_eq h.protocol down.download_url.protocol then some (h.handler, down) else pick hs down

module _ (inet_addr : List ℕ → Option ℕ) (inet_ntoa decimal : ℕ → List ℕ) where
  -- The host of the url is replaced by the address that the download comes from.
  pub replace_host : Download → Download
  replace_host down =
      let u = down.download_url in
      let real = inet_ntoa down.remote_host in
      record down {
        download_url = set_host u real;
        url =
            u.protocol ++ codes "://" ++ real ++ codes ":" ++ decimal u.port ++ codes "/" ++ u.path;
      }

  pub route : DownloadManager → Download → Option ℕ → Option (ℕ × Download)
  route m down none = pick m.handlers down
  route m down (some address) =
      if is_local_address address
      then (if m.replace_local_ips then pick m.handlers (replace_host down) else none)
      else pick m.handlers down

  -- Which handler downloads what; `none` if the download was deleted and the call returned false.
  pub download_url : DownloadManager → Download → Option (ℕ × Download)
  download_url m down =
      if down.download_url.port == 0 || ltb 65536 down.download_url.port
      then none
      else route m down (inet_addr down.download_url.host)
