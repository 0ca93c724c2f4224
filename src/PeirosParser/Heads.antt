-- ===== src/PeirosParser/Heads.antt =====
-- Reading the head of a request that was printed.
use mathlib.Core.List.{append_assoc, append-nil}
use nepenthes.Base.{
  ℕ, ◌+◌, ◌^◌, ◌<◌, ◌≤◌, ◌≡◌, ◌∙◌, refl, sym, ap, ap₂, arith, ◌==◌, leb, not, Bool, true, false,
  ◌&&◌, ◌||◌, List, [], ◌∷◌, ◌++◌, length, length-append, drop, drop-append, starts_with,
}
use nepenthes.PeirosParser.{
  PeirosParser, PeirosRequest, Headers, CommandLine, push_back, read_command, parse_command,
  is_print, resource_part,
}

-- Characters that are printed, but for the blank.
abbrev pub IsWord : List ℕ → Type 0
IsWord [] = Unit
IsWord (c ∷ w) = (33 ≤ c) × (c ≤ 126) × IsWord w

abbrev pub IsText : List ℕ → Type 0
IsText [] = Unit
IsText (c ∷ w) = (32 ≤ c) × (c ≤ 126) × IsText w

-- A text that does not begin with a blank.
abbrev pub IsValue : List ℕ → Type 0
IsValue [] = ⊥
IsValue (c ∷ w) = (33 ≤ c) × (c ≤ 126) × IsText w

abbrev pub HasNoColon : List ℕ → Type 0
HasNoColon [] = Unit
HasNoColon (c ∷ w) = ((c == 58) ≡ false) × HasNoColon w

abbrev line : List ℕ → List ℕ → ℕ → CommandLine
line command resource n = record { ok = true; command = command; resource = resource; count = n }

read_command-on :
    (b : Bool) (l : CommandLine) (c : ℕ) (text : List ℕ)
    → 33 ≤ c
    → c ≤ 126
    → read_command b l (c ∷ text) ≡ read_command b (push_back b c l) text
unfolding read_command is_print
read_command-on b l c text low high =
    let e₁ : (c == 13) ≡ false = ground arith in
    let e₂ : (c == 32) ≡ false = ground arith in
    let e₃ : (c == 10 || c == 9 || not (leb 32 c && leb c 126)) ≡ false = ground arith in
    rw (e₁, e₂, e₃, read_command)

read_command-word :
    (w text command resource : List ℕ) (n : ℕ)
    → IsWord w
    → n + length w < 2 ^ 16
    → read_command false (line command resource n) (w ++ text)
      ≡ read_command false (line (command ++ w) resource (n + length w)) text
unfolding push_back
read_command-word [] text command resource n i less =
    ap₂ (λ x k. read_command false (line x resource k) text) (sym (append-nil command))
      (omega arith)
read_command-word (c ∷ w) text command resource n (low, high, i) less =
    read_command-on false (line command resource n) c (w ++ text) low high
    ∙ ap (λ k. read_command false (line (command ++ (c ∷ [])) resource k) (w ++ text))
        (omega (arith, less))
    ∙ read_command-word w text (command ++ (c ∷ [])) resource (n + 1) i (omega (arith, less))
    ∙ ap₂ (λ x k. read_command false (line x resource k) text) (append_assoc command (c ∷ []) w)
        (omega arith)

read_resource-word :
    (w text command resource : List ℕ) (n : ℕ)
    → IsWord w
    → n + length w < 2 ^ 16
    → read_command true (line command resource n) (w ++ text)
      ≡ read_command true (line command (resource ++ w) (n + length w)) text
unfolding push_back
read_resource-word [] text command resource n i less =
    ap₂ (λ x k. read_command true (line command x k) text) (sym (append-nil resource)) (omega arith)
read_resource-word (c ∷ w) text command resource n (low, high, i) less =
    read_command-on true (line command resource n) c (w ++ text) low high
    ∙ ap (λ k. read_command true (line command (resource ++ (c ∷ [])) k) (w ++ text))
        (omega (arith, less))
    ∙ read_resource-word w text command (resource ++ (c ∷ [])) (n + 1) i (omega (arith, less))
    ∙ ap₂ (λ x k. read_command true (line command x k) text) (append_assoc resource (c ∷ []) w)
        (omega arith)

read_command-blank :
    (text command : List ℕ) (n : ℕ)
    → n + 1 < 2 ^ 16
    → read_command false (line command [] n) (32 ∷ text)
      ≡ read_command true (line command [] (n + 1)) text
unfolding read_command
read_command-blank text command n less =
    ap (λ k. read_command true (line command [] k) text) (omega (arith, less))

read_command-end :
    (b : Bool) (text command resource : List ℕ) (n : ℕ)
    → read_command b (line command resource n) (13 ∷ 10 ∷ text) ≡ line command resource n
unfolding read_command starts_with
read_command-end b text command resource n = refl

read_command-resource :
    (w text command : List ℕ) (n : ℕ)
    → IsWord w
    → n + length (resource_part w) < 2 ^ 16
    → read_command false (line command [] n) (resource_part w ++ (13 ∷ 10 ∷ text))
      ≡ line command w (n + length (resource_part w))
unfolding resource_part
read_command-resource [] text command n i less =
    read_command-end false text command [] n ∙ ap (line command []) (omega arith)
read_command-resource (c ∷ w) text command n i less =
    read_command-blank ((c ∷ w) ++ (13 ∷ 10 ∷ text)) command n (omega (arith, less))
    ∙ read_resource-word (c ∷ w) (13 ∷ 10 ∷ text) command [] (n + 1) i (omega (arith, less))
    ∙ read_command-end true text command (c ∷ w) (n + 1 + length (c ∷ w))
    ∙ ap (line command (c ∷ w)) (omega arith)

-- The command line.
read_command-line :
    (command resource text : List ℕ)
    → IsWord command
    → IsWord resource
    → length (command ++ resource_part resource) < 2 ^ 16
    → read_command false (line [] [] 0) (command ++ (resource_part resource ++ (13 ∷ 10 ∷ text)))
      ≡ line command resource (length (command ++ resource_part resource))
read_command-line command resource text i j less =
    let sizes = length-append command (resource_part resource) in
    read_command-word command (resource_part resource ++ (13 ∷ 10 ∷ text)) [] [] 0 i
      (omega (arith, sizes, less))
    ∙ read_command-resource resource text command (0 + length command) j
        (omega (arith, sizes, less))
    ∙ ap (line command resource) (omega (arith, sizes))

-- The state between two calls.
abbrev pub parser : List ℕ → List PeirosRequest → PeirosRequest → PeirosParser
parser buffer requests q = record {
  in_buffer = buffer;
  malformed = false;
  requests = requests;
  current = q;
}

abbrev pub request : List ℕ → List ℕ → Headers → List ℕ → ℕ → PeirosRequest
request command resource headers data' n = record {
  command = command;
  resource = resource;
  headers = headers;
  appended_data = data';
  appended_length = n;
}

drop_line :
    (xs ys text : List ℕ) → drop (length (xs ++ ys) + 2) (xs ++ (ys ++ (13 ∷ 10 ∷ text))) ≡ text
drop_line xs ys text =
    let n = length (xs ++ ys) + 2 in
    ap (drop n) (
      sym (append_assoc xs ys (13 ∷ 10 ∷ text)) ∙ sym (append_assoc (xs ++ ys) (13 ∷ 10 ∷ []) text))
    ∙ drop-append n ((xs ++ ys) ++ (13 ∷ 10 ∷ [])) text
        (omega (arith, length-append (xs ++ ys) (13 ∷ 10 ∷ [])))

pub parse_command-line :
    (command resource text : List ℕ) (requests : List PeirosRequest) (q : PeirosRequest)
    → IsWord command
    → IsWord resource
    → length (command ++ resource_part resource) < 2 ^ 16
    → parse_command (parser (command ++ (resource_part resource ++ (13 ∷ 10 ∷ text))) requests q)
      ≡ (
        true,
        parser text requests (request command resource q.headers q.appended_data q.appended_length),
      )
unfolding parse_command
parse_command-line command resource text requests q i j less = rw (
  read_command-line command resource text i j less,
  drop_line command (resource_part resource) text,
)
