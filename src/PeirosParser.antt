-- ===== src/PeirosParser.antt =====
-- modules/module-peiros/PeirosParser.cpp: the parser of the requests of a peiros client, and their
-- printing. The text has its characters as codes; isprint() and isspace() are those of the C locale,
-- and no character is behind the end of the text but the zero byte.
pub mod Termination
pub mod Lines
pub mod Heads
pub mod HeaderLines
pub mod Maps
pub mod Requests
pub mod Sound
pub mod Blank
pub mod Printed
pub mod Streams
pub mod Rounds
pub mod Messages
mod Tests
use nepenthes.Base.{
  ℕ, zero, suc, ◌+◌, ◌*◌, ◌%◌, ◌^◌, ◌==◌, ltb, leb, if◌then◌else◌, not, Bool, true, false, ◌&&◌,
  ◌||◌, List, [], ◌∷◌, ◌++◌, length, take, drop, codes, starts_with, str_eq, Outcome, done, running,
  fault, ◌>>=◌,
}

-- A map from names to values, in the order of the names.
abbrev pub Headers : Type 0
Headers = List (List ℕ × List ℕ)

pub record PeirosRequest : Type 0 where
  pub command : List ℕ
  pub resource : List ℕ
  pub headers : Headers
  pub appended_data : List ℕ
  pub appended_length : ℕ

pub record PeirosParser : Type 0 where
  pub in_buffer : List ℕ
  pub malformed : Bool
  pub requests : List PeirosRequest
  pub current : PeirosRequest

pub is_print : ℕ → Bool
is_print c = leb 32 c && leb c 126

pub is_space : ℕ → Bool
is_space c = c == 32 || leb 9 c && leb c 13

-- a < b
pub comes_before : List ℕ → List ℕ → Bool
comes_before a [] = false
comes_before [] (y ∷ b) = true
comes_before (x ∷ a) (y ∷ b) = if x == y then comes_before a b else ltb x y

-- headers[name] = value
pub put : List ℕ → List ℕ → Headers → Headers
put name value [] = (name, value) ∷ []
put name value (h ∷ headers) =
    let rest = put name value headers in
    if str_eq name h.0
    then (name, value) ∷ headers
    else (if comes_before name h.0 then (name, value) ∷ (h ∷ headers) else h ∷ rest)

abbrev pub blank_line : List ℕ
blank_line = 13 ∷ 10 ∷ 13 ∷ 10 ∷ []

-- m_inBuffer.find("\r\n\r\n") != npos
pub has_blank_line : List ℕ → Bool
has_blank_line [] = false
has_blank_line (c ∷ text) = starts_with blank_line (c ∷ text) || has_blank_line text

-- What the loop over the command line has read, and whether the line is well formed.
pub record CommandLine : Type 0 where
  pub ok : Bool
  pub command : List ℕ
  pub resource : List ℕ
  pub count : ℕ

-- One character goes to the command, or behind a blank to the resource.
pub push_back : Bool → ℕ → CommandLine → CommandLine
push_back true c l = record l { resource = l.resource ++ (c ∷ []); count = (l.count + 1) % 2 ^ 16 }
push_back false c l = record l { command = l.command ++ (c ∷ []); count = (l.count + 1) % 2 ^ 16 }

pub read_command : Bool → CommandLine → List ℕ → CommandLine
read_command in_resource l [] = record l { ok = false }
read_command in_resource l (c ∷ text) = elim (c == 13) [
  | true ↦ record l { ok = starts_with (10 ∷ []) text }
  | false ↦ elim (c == 32) [
    | true ↦ read_command true (record l { count = (l.count + 1) % 2 ^ 16 }) text
    | false ↦ elim (c == 10 || c == 9 || not (is_print c)) [
      | true ↦ record l { ok = false }
      | false ↦ read_command in_resource (push_back in_resource c l) text
    ]
  ]
]

-- The command and the resource stay changed when the line is not well formed.
pub parse_command : PeirosParser → Bool × PeirosParser
parse_command p =
    let l =
      read_command false (record { ok = true; command = []; resource = []; count = 0 })
        p.in_buffer in
    (
      l.ok,
      record p {
        in_buffer = if l.ok then drop (l.count + 2) p.in_buffer else p.in_buffer;
        current = record p.current { command = l.command; resource = l.resource };
      },
    )

pub data Status : Type 0 where
  seek_header read_header seek_val read_val seek_newline : Status

-- The variables of the loop over the headers.
pub record Reading : Type 0 where
  pub status : Status
  pub header : List ℕ
  pub value : List ℕ
  pub request : PeirosRequest

pub data Move : Type 0 where
  go_on : Reading → Move
  leave give_up : Move

pub is_empty : List ℕ → Bool
is_empty [] = true
is_empty (c ∷ text) = false

-- What is read is erased, and a line feed has to follow.
pub behind_headers : PeirosParser → Bool × PeirosRequest × ℕ → Bool × PeirosParser
behind_headers p (false, q, count) = (false, record p { current = q })
behind_headers p (true, q, count) =
    let text = drop count p.in_buffer in
    if starts_with (10 ∷ []) text
    then (true, record p { in_buffer = drop 1 text; current = q })
    else (false, record p { in_buffer = text; current = q })

-- The part behind the head: the data, and the end of the request.
pub parse_body : PeirosParser → Bool × PeirosParser
parse_body p =
    let ended = λ (q : PeirosRequest). record q { command = []; headers = [] } in
    let size = p.current.appended_length in
    let q = record p.current { appended_data = take size p.in_buffer } in
    if size == 0
    then (true, record p { current = ended p.current })
    else (if ltb (length p.in_buffer) size then (false, p) else (
      true,
      record p {
        in_buffer = drop size p.in_buffer;
        requests = p.requests ++ (q ∷ []);
        current = ended q;
      },
    ))

module _ (atoi : List ℕ → ℕ) where
  pub store_header : List ℕ → List ℕ → PeirosRequest → PeirosRequest
  store_header name value q =
      if str_eq name (codes "Content-length")
      then record q { appended_length = atoi value }
      else record q { headers = put name value q.headers }

  -- The switch.
  pub in_status : Status → Reading → ℕ → Move
  in_status seek_header r c =
      if c == 13
      then leave
      else (if is_space c
          then go_on r
          else go_on (record r { header = c ∷ []; status = read_header }))
  in_status read_header r c =
      if c == 58
      then go_on (record r { status = seek_val })
      else go_on (record r { header = r.header ++ (c ∷ []) })
  in_status seek_val r c =
      if is_space c then go_on r else go_on (record r { value = c ∷ []; status = read_val })
  in_status read_val r c =
      if c == 13
      then go_on (record r { status = seek_newline })
      else go_on (record r { value = r.value ++ (c ∷ []) })
  in_status seek_newline r c =
      if c == 10
      then go_on
          (record r { status = seek_header; request = store_header r.header r.value r.request })
      else give_up

  pub move : Reading → ℕ → Move
  move r c = if is_print c || is_space c then in_status r.status r c else give_up

  -- The loop: whether the headers end well, the request, and how many characters were read.
  pub read_headers : Reading → ℕ → List ℕ → Bool × PeirosRequest × ℕ
  read_headers r count [] = (false, r.request, count)
  read_headers r count (c ∷ text) = elim (move r c) [
    | go_on r' ↦ read_headers r' ((count + 1) % 2 ^ 16) text
    | leave ↦ (true, r.request, (count + 1) % 2 ^ 16)
    | give_up ↦ (false, r.request, count)
  ]

  pub parse_headers : PeirosParser → Bool × PeirosParser
  parse_headers p = behind_headers p (
      read_headers (record { status = seek_header; header = []; value = []; request = p.current }) 0
        p.in_buffer)

  -- !parseCommand() || !parseHeaders(), negated
  pub parse_head : PeirosParser → Bool × PeirosParser
  parse_head p =
      let (ok, p') =
        parse_command (record p { current = record p.current { appended_length = 0 } }) in
      if ok then parse_headers p' else (false, p')

  -- A request that no data is appended to is complete behind its head; the next call ends it.
  pub behind_head : Bool × PeirosParser → Bool × PeirosParser
  behind_head (false, p) = (false, record p { malformed = true })
  behind_head (true, p) =
      if p.current.appended_length == 0
      then (true, record p { requests = p.requests ++ (p.current ∷ []) })
      else parse_body p

  pub parse_request : PeirosParser → Bool × PeirosParser
  parse_request p =
      if is_empty p.current.command
      then (if has_blank_line p.in_buffer then behind_head (parse_head p) else (false, p))
      else parse_body p

  -- while(!m_malformed && parseRequest());
  pub parse_loop : ℕ → PeirosParser → Outcome PeirosParser
  parse_loop zero p = running
  parse_loop (suc fuel) p = elim p.malformed [
    | true ↦ done p
    | false ↦
        (let (more, p') = parse_request p in
          elim more [ true ↦ parse_loop fuel p' | false ↦ done p' ])
  ]

  pub parse_data : PeirosParser → List ℕ → Outcome (Bool × PeirosParser)
  parse_data p data' = do
    let buffer = p.in_buffer ++ data'
    p' ← parse_loop (2 * length buffer + 2) (record p { in_buffer = buffer; malformed = false })
    done (not p'.malformed, p')

-- getRequest, on a list that must not be empty.
pub get_request : PeirosParser → Outcome (PeirosRequest × PeirosParser)
get_request p = elim p.requests [
  | [] ↦ fault
  | q ∷ requests ↦ done (q, record p { requests = requests })
]

pub header_line : List ℕ × List ℕ → List ℕ
header_line h = h.0 ++ (codes ": " ++ (h.1 ++ (13 ∷ 10 ∷ [])))

pub header_lines : Headers → List ℕ
header_lines [] = []
header_lines (h ∷ headers) = header_line h ++ header_lines headers

pub resource_part : List ℕ → List ℕ
resource_part [] = []
resource_part (c ∷ resource) = 32 ∷ c ∷ resource

module _ (print : ℕ → List ℕ) where
  pub length_line : List ℕ → List ℕ
  length_line [] = []
  length_line (c ∷ data') = header_line (codes "Content-length", print (length (c ∷ data')))

  pub render_request : PeirosRequest → List ℕ
  render_request q =
      q.command
      ++ (resource_part q.resource
          ++ (13
              ∷ 10
              ∷ (header_lines q.headers
                  ++ (length_line q.appended_data ++ (13 ∷ 10 ∷ q.appended_data)))))
