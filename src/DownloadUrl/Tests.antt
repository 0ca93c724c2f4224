-- ===== src/DownloadUrl/Tests.antt =====
-- Urls that are split, and the theorems about them at concrete urls.
use nepenthes.Base.{◌≡◌, refl, List, [], ◌∷◌, codes, str_eq, ℕ, ◌+◌, ◌*◌, ◌-◌}
use nepenthes.DownloadUrl.{new, auth_of, default_port, search_port}
use nepenthes.DownloadUrl.Split.{join}
use nepenthes.DownloadUrl.Parts.{new-parts}

-- The value of a text of digits.
abbrev digits : ℕ → List ℕ → ℕ
digits n [] = n
digits n (c ∷ s) = digits (n * 10 + (c - 48)) s

abbrev ftp_url : List ℕ
ftp_url = join (codes "ftp") (codes "://") (
    join (join (codes "a") (codes ":") (codes "b")) (codes "@") (
      join (join (codes "h") (codes ":") (codes "99")) (codes "/")
        (join (codes "d") (codes "/") (codes "f"))))

ftp_url_text : ftp_url ≡ codes "ftp://a:b@h:99/d/f"
ftp_url_text = refl

new-parts_example : new (digits 0) ftp_url ≡ record {
  protocol = codes "ftp";
  user = codes "a";
  pass = codes "b";
  auth = auth_of (codes "a") (codes "b");
  host = codes "h";
  port = 99;
  path = codes "d/f";
  dir = codes "d/";
  file = codes "f";
  anchor = [];
}
new-parts_example =
    new-parts (digits 0) (codes "ftp") (codes "a") (codes "b") (codes "h") (codes "99") (codes "d")
      (codes "f") (refl, (refl, (refl, tt))) (refl, tt) (refl, tt) (refl, tt) (refl, tt) (refl, tt)
      (refl, (refl, tt)) (refl, tt) (λ e. cc)

https_port : default_port (codes "https") ≡ 443
unfolding default_port search_port str_eq
https_port = refl

abbrev at_url : List ℕ
at_url =
    join (codes "http") (codes "://")
      (join (join (codes "h") (codes "/") (codes "d")) (codes "@") (codes "e"))
