-- ===== src/RcpDialogue/Requests.antt =====
-- What the dialogue writes when it is connected: a zero byte and its request.
use mathlib.Core.List.{append-nil, append_assoc}
use nepenthes.Base.{
  ℕ, ◌+◌, ◌^◌, ◌≤◌, ◌≡◌, ◌∙◌, refl, sym, ap, arith, List, [], ◌∷◌, ◌++◌, length, length-append,
  done, Realloc,
}
use nepenthes.Buffer.{Buffer, reset}
use nepenthes.Buffer.Contents.{IsValid, contents, Holds, reset-IsValid, resize_lem, add-contents}
use nepenthes.Buffer.Refinement.{length-contents}
use nepenthes.TcpSocket.{cl_assign}
use nepenthes.TcpSocket.Stream.{concat}
use nepenthes.RcpDialogue.{RcpDialogue, write, request_parts, add_all, connection_established}

module _ (r : Realloc) where
  add_all-Holds :
      (ds : List (List ℕ)) (b : Buffer)
      → IsValid b
      → length (contents b) + length (concat ds) ≤ 2 ^ 31
      → Holds (add_all r b ds) (contents b ++ concat ds)
  unfolding add_all
  add_all-Holds [] b v fits = (b, refl, v, sym (append-nil (contents b)))
  add_all-Holds (d ∷ ds) b v fits =
      let all = length-append d (concat ds) in
      let (b', runs, v', same) =
        add-contents r b d v (omega (arith, length-contents b v, fits, all)) in
      let size : length (contents b') ≡ length (contents b) + length d =
        ap length same ∙ length-append (contents b) d in
      let (b'', rest, v'', held) = add_all-Holds ds b' v' (omega (arith, fits, all, size)) in
      (
        b'',
        rw (runs) rest,
        v'',
        held ∙ ap (λ (x : List ℕ). x ++ concat ds) same ∙ append_assoc (contents b) d (concat ds),
      )

  -- The dialogue writes a zero byte, and then in one piece the user twice and "rcp -f " with the path,
  -- each with a zero byte behind it. Together they are at most 2 GB.
  pub connection_established-write :
      (d : RcpDialogue) (user path : List ℕ)
      → length (concat (request_parts user path)) ≤ 2 ^ 31
      → connection_established r d user path
        ≡ done (record {
          dialogue = record d { buffer = reset };
          effects = write (0 ∷ []) ∷ write (concat (request_parts user path)) ∷ [];
          level = cl_assign;
        })
  unfolding connection_established reset
  connection_established-write d user path fits =
      let (b, runs, v, same, moved, room) =
        resize_lem r reset 1024 reset-IsValid (omega arith) (omega arith) in
      let (b', runs', v', held) =
        add_all-Holds (request_parts user path) b v (omega (arith, ap length same, fits)) in
      rw (runs, runs', held, same)
