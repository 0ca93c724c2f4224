-- ===== src/DownloadUrl.antt =====
-- nepenthes-core/src/DownloadUrl.cpp: an url is split into its parts. A string is the list of its
-- characters' codes; atoi() of the C library is a parameter, with the conversion to `uint32_t`.
pub mod Split
pub mod Parts
mod Tests
use nepenthes.Base.{
  ℕ, ◌==◌, ltb, if◌then◌else◌, Bool, true, false, ◌&&◌, List, [], ◌∷◌, ◌++◌, length, drop, Option,
  some, none, codes, str_eq, starts_with,
}

pub record DownloadUrl : Type 0 where
  pub protocol : List ℕ
  pub user : List ℕ
  pub pass : List ℕ
  pub auth : List ℕ
  pub host : List ℕ
  pub port : ℕ
  pub path : List ℕ
  pub dir : List ℕ
  pub file : List ℕ
  pub anchor : List ℕ

-- g_portTable
abbrev pub port_table : List (List ℕ × ℕ)
port_table =
    (codes "ftp", 21)
    ∷ (codes "tftp", 69)
    ∷ (codes "http", 80)
    ∷ (codes "https", 443)
    ∷ (codes "csend", 999)
    ∷ []

-- The loop over the table: the last entry with the protocol's name counts.
pub search_port : List ℕ → ℕ → List (List ℕ × ℕ) → ℕ
search_port protocol port [] = port
search_port protocol port ((name, number) ∷ table) =
    search_port protocol (if str_eq name protocol then number else port) table

pub default_port : List ℕ → ℕ
default_port [] = 80
default_port (c ∷ protocol) = search_port (c ∷ protocol) 80 port_table

pub put_front : ℕ → Option (List ℕ × List ℕ) → Option (List ℕ × List ℕ)
put_front c none = none
put_front c (some (before, behind)) = some (c ∷ before, behind)

-- What stands before and behind the first occurrence of the word: substr() at find().
pub split : List ℕ → List ℕ → Option (List ℕ × List ℕ)
split word [] = none
split word (c ∷ s) =
    let rest = split word s in
    if starts_with word (c ∷ s) then some ([], drop (length word) (c ∷ s)) else put_front c rest

-- The text up to the last occurrence of the character, with it, and behind it: substr() at rfind().
pub split_last : ℕ → List ℕ → Option (List ℕ × List ℕ)
split_last c [] = none
split_last c (x ∷ s) = elim (split_last c s) [
  | some r ↦ some (x ∷ r.0, r.1)
  | none ↦ if x == c then some (x ∷ [], s) else none
]

pub get_or : Option (List ℕ × List ℕ) → List ℕ × List ℕ → List ℕ × List ℕ
get_or none r = r
get_or (some r) r' = r

-- The text before the word is left out if the word does not occur.
pub split_right : List ℕ → List ℕ → List ℕ × List ℕ
split_right word s = get_or (split word s) ([], s)

-- The text behind the word is left out if the word does not occur.
pub split_left : List ℕ → List ℕ → List ℕ × List ℕ
split_left word s = get_or (split word s) (s, [])

pub auth_of : List ℕ → List ℕ → List ℕ
auth_of user pass =
    if ltb 0 (length user) && ltb 0 (length pass) then user ++ codes ":" ++ pass else []

pub file_of : List ℕ → List ℕ
file_of file = if length file == 0 then codes "index.html" else file

module _ (atoi : List ℕ → ℕ) where
  pub host_and_port : List ℕ → Option (List ℕ × List ℕ) → List ℕ → List ℕ × ℕ
  host_and_port protocol none s = (s, default_port protocol)
  host_and_port protocol (some (host, port)) s = (host, atoi port)

  -- The constructor.
  pub new : List ℕ → DownloadUrl
  new url =
      let (protocol, rest) = split_right (codes "://") url in
      let (login, rest') = split_right (codes "@") rest in
      let (user, pass) = split_left (codes ":") login in
      let (place, path) = split_left (codes "/") rest' in
      let (host, port) = host_and_port protocol (split (codes ":") place) place in
      let (dir, file) = get_or (split_last 47 path) ([], path) in
      record {
        protocol = protocol;
        user = user;
        pass = pass;
        auth = auth_of user pass;
        host = host;
        port = port;
        path = path;
        dir = dir;
        file = file_of file;
        anchor = [];
      }

pub set_protocol : DownloadUrl → List ℕ → DownloadUrl
set_protocol u s = record u { protocol = s }

pub set_user : DownloadUrl → List ℕ → DownloadUrl
set_user u s = record u { user = s }

pub set_pass : DownloadUrl → List ℕ → DownloadUrl
set_pass u s = record u { pass = s }

unfoldable pub set_host : DownloadUrl → List ℕ → DownloadUrl
set_host u s = record u { host = s }

pub set_port : DownloadUrl → ℕ → DownloadUrl
set_port u n = record u { port = n }

pub set_path : DownloadUrl → List ℕ → DownloadUrl
set_path u s = record u { path = s }

pub set_file : DownloadUrl → List ℕ → DownloadUrl
set_file u s = record u { file = s }
