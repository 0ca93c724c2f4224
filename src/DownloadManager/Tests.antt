-- ===== src/DownloadManager/Tests.antt =====
-- A download through the manager, and the theorems about it at concrete inputs.
use nepenthes.Base.{ℕ, ◌≡◌, ◌↔◌, true, List, [], ◌∷◌, Option, some, codes}
use nepenthes.DownloadUrl.{set_host}
use nepenthes.DownloadManager.{
  Download, DownloadManager, packaddr, local_ranges, is_local_address, download_url,
}
use nepenthes.DownloadManager.Ranges.{Within, Any, is_local_address-Any}

is_local_address-Any_example :
    (is_local_address (packaddr 192 168 1 7) ≡ true)
    ↔ Any (Within (packaddr 192 168 1 7)) local_ranges
is_local_address-Any_example = is_local_address-Any (packaddr 192 168 1 7)

-- The only address that is known is 192.168.1.7, and every address prints as "real".
abbrev addr : List ℕ → Option ℕ
addr host = some (packaddr 192 168 1 7)

abbrev ntoa : ℕ → List ℕ
ntoa n = codes "real"

abbrev decimal : ℕ → List ℕ
decimal n = codes "80"

abbrev worm : Download
worm = record {
  url = codes "http://192.168.1.7/x";
  download_url = record {
    protocol = codes "http";
    user = [];
    pass = [];
    auth = [];
    host = codes "192.168.1.7";
    port = 80;
    path = codes "x";
    dir = [];
    file = codes "x";
    anchor = [];
  };
  remote_host = 5;
}

abbrev replaced : Download
replaced = record worm {
  url = codes "http://real:80/x";
  download_url = set_host worm.download_url (codes "real");
}

abbrev manager : DownloadManager
manager = record {
  handlers = record { protocol = codes "http"; handler = 3 } ∷ [];
  replace_local_ips = true;
}
