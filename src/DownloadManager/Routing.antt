-- ===== src/DownloadManager/Routing.antt =====
-- Which handler a download is given to, and when it is refused.
use nepenthes.Base.{
  ℕ, ◌≡◌, ◌≢◌, ◌⊎◌, inl, inr, ◌==◌, ltb, true, false, ◌||◌, Bool-cases, List, [], ◌∷◌, ◌++◌, Option,
  some, none, str_eq,
}
use nepenthes.DownloadManager.{
  Download, DownloadHandlerTuple, DownloadManager, register_download_handler, pick, replace_host,
  route, download_url, is_local_address,
}

-- The first handler that is registered for the protocol.
abbrev pub IsFirst : ℕ → List ℕ → List DownloadHandlerTuple → Type 0
IsFirst handler protocol [] = ⊥
IsFirst handler protocol (h ∷ hs) =
    ((h.protocol ≡ protocol) × (h.handler ≡ handler))
    ⊎ ((h.protocol ≢ protocol) × IsFirst handler protocol hs)

none-some : {r : ℕ × Download} → ◌≡◌ {A = Option (ℕ × Download)} none (some r) → ⊥
none-some p = cc

pick-append :
    (hs : List DownloadHandlerTuple) (h : DownloadHandlerTuple) (down : Download) (r : ℕ × Download)
    → pick hs down ≡ some r
    → pick (hs ++ h ∷ []) down ≡ some r
unfolding pick
pick-append [] h down r e = cc
pick-append (g ∷ hs) h down r e = elim (Bool-cases (str_eq g.protocol down.download_url.protocol)) [
  | inl q ↦ rw q (rw q at e)
  | inr q ↦ rw q (pick-append hs h down r (rw q at e))
]

module _ (inet_addr : List ℕ → Option ℕ) (inet_ntoa decimal : ℕ → List ℕ) where
  -- What an address in the url means for the download.
  abbrev pub IsRouted : DownloadManager → Download → Download → Type 0
  IsRouted m down down' =
      ((down' ≡ down)
        × ((address : ℕ)
            → inet_addr down.download_url.host ≡ some address
            → is_local_address address ≡ false))
      ⊎ ((down' ≡ replace_host inet_addr inet_ntoa decimal down)
          × (m.replace_local_ips ≡ true)
          × ((address : ℕ) × (inet_addr down.download_url.host ≡ some address)
              × (is_local_address address ≡ true)))

  route-register :
      (m : DownloadManager) (h : DownloadHandlerTuple) (down : Download) (r : ℕ × Download)
      (o : Option ℕ)
      → route inet_addr inet_ntoa decimal m down o ≡ some r
      → route inet_addr inet_ntoa decimal (record m { handlers = m.handlers ++ h ∷ [] }) down o
        ≡ some r
  unfolding route
  route-register m h down r none e = pick-append m.handlers h down r e
  route-register m h down r (some a) e = elim (Bool-cases (is_local_address a)) [
    | inl here ↦ elim (Bool-cases m.replace_local_ips) [
      | inl on ↦
          rw (here, on)
            (pick-append m.handlers h (replace_host inet_addr inet_ntoa decimal down) r
              (rw (here, on) at e))
      | inr off ↦ absurd (none-some (rw (here, off) at e))
    ]
    | inr there ↦ rw there (pick-append m.handlers h down r (rw there at e))
  ]

  -- A handler that is registered later takes nothing away: what was given to a handler goes to the
  -- same one still, whatever protocol the new one is for.
  pub download_url-register :
      (m : DownloadManager) (handler : ℕ) (protocol : List ℕ) (down : Download) (r : ℕ × Download)
      → download_url inet_addr inet_ntoa decimal m down ≡ some r
      → download_url inet_addr inet_ntoa decimal
          (register_download_handler m handler protocol).0
          down
        ≡ some r
  unfolding download_url register_download_handler
  download_url-register m handler protocol down r e =
      elim (Bool-cases (down.download_url.port == 0 || ltb 65536 down.download_url.port)) [
        | inl q ↦ absurd (none-some (rw q at e))
        | inr q ↦ rw q (
            route-register m (record { protocol = protocol; handler = handler }) down r
              (inet_addr down.download_url.host) (rw q at e))
      ]
