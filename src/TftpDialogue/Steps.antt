-- ===== src/TftpDialogue/Steps.antt =====
-- What a block that the server really sent makes of the dialogue.
use nepenthes.Base.{
  ℕ, suc, ◌+◌, ◌-◌, ◌*◌, ◌/◌, ◌%◌, ◌^◌, ◌≤◌, ◌<◌, ◌≡◌, ◌≢◌, refl, ap, arith, ◌==◌, ltb,
  if◌then◌else◌, true, false, List, [], ◌∷◌, ◌++◌, length, done, memcpy_lem,
}
use nepenthes.DownloadBuffer.{DownloadBuffer, Malloc}
use nepenthes.DownloadBuffer.Contents.{IsValid, contents, Succeeds, add_data-contents}
use nepenthes.TcpSocket.{cl_drop, cl_assign}
use nepenthes.TftpDialogue.{
  TftpDialogue, Effect, respond, submit, close, Turn, word, ack, keep, accept, data_block,
  incoming_data,
}

-- The message with the i-th block, counted from 1.
abbrev pub data_message : ℕ → List ℕ → List ℕ
data_message i chunk = 0 ∷ 3 ∷ i / 256 ∷ i % 256 ∷ chunk

abbrev pub submitted : List Effect → List DownloadBuffer
submitted [] = []
submitted (respond bytes ∷ fx) = submitted fx
submitted (submit b ∷ fx) = b ∷ submitted fx
submitted (close ∷ fx) = submitted fx

pub submitted-append :
    (fx fx' : List Effect) → submitted (fx ++ fx') ≡ submitted fx ++ submitted fx'
submitted-append [] fx' = refl
submitted-append (respond bytes ∷ fx) fx' = submitted-append fx fx'
submitted-append (submit b ∷ fx) fx' = ap (◌∷◌ b) (submitted-append fx fx')
submitted-append (close ∷ fx) fx' = submitted-append fx fx'

-- The dialogue can take the next block.
pub record IsReady (d : TftpDialogue) : Type 0 where
  pub valid : IsValid d.buffer
  pub packet : 4 ≤ length d.last_send
  pub limit : d.max_file_size ≤ 2 ^ 31
  pub counter : d.blocks < 2 ^ 16

-- The turn that takes the next block.
abbrev pub taken : TftpDialogue → List ℕ → DownloadBuffer → List ℕ → Turn
taken d c b packet =
    let d' : TftpDialogue = record d {
      retries = 0;
      last_send = packet;
      last_send_length = 4;
      blocks = suc d.blocks;
      buffer = b;
    } in
    if ltb (length c) 508
    then (record {
      dialogue = d';
      effects = respond (ack (suc d.blocks)) ∷ submit b ∷ close ∷ [];
      level = cl_assign;
    })
    else (record {
      dialogue = d';
      effects = respond (ack (suc d.blocks)) ∷ [];
      level = if ltb (1024 * 1024 * 4) b.offset then cl_drop else cl_assign;
    })

module _ (m : Malloc) (gives : Succeeds m) where
  keep_lem :
      (d : TftpDialogue) (i : ℕ) (c : List ℕ)
      → IsValid d.buffer
      → d.buffer.offset + length c ≤ 2 ^ 31
      → (b : DownloadBuffer) × IsValid b
        × (contents b ≡ contents d.buffer ++ c)
        × (keep m d (data_message i c) i
            ≡ done (
                if ltb (length (data_message i c)) 512
                then (record {
                  dialogue = record d { buffer = b };
                  effects = respond (ack i) ∷ submit b ∷ close ∷ [];
                  level = cl_assign;
                })
                else (record {
                  dialogue = record d { buffer = b };
                  effects = respond (ack i) ∷ [];
                  level = if ltb (1024 * 1024 * 4) b.offset then cl_drop else cl_assign;
                })))
  unfolding keep
  keep_lem d i c v fits =
      let (b, found, valid, grown) = add_data-contents m d.buffer c gives v fits in
      (b, valid, grown, rw found)

  number : (i : ℕ) → i / 256 * 256 + i % 256 ≡ i
  number i = omega arith

  short : (n : ℕ) → ltb (suc (suc (suc (suc n)))) 512 ≡ ltb n 508
  short n = ground arith

  size_of : (n k : ℕ) → n + k ≤ 2 ^ 31 → (n + suc (suc (suc (suc k))) + 2 ^ 32 - 4) % 2 ^ 32 ≡ n + k
  size_of n k h = omega (arith, h)

  size_up_to :
      (n k : ℕ)
      → n ≤ 2 ^ 31
      → k ≤ 2 ^ 16
      → (n + suc (suc (suc (suc k))) + 2 ^ 32 - 4) % 2 ^ 32 ≡ n + k
  size_up_to n k h h' = omega (arith, h, h')

  other_number : (i n : ℕ) → n < 2 ^ 16 → i ≢ suc n → (i == (n + 1) % 2 ^ 32) ≡ false
  other_number i n h other = ground (arith, h, other)

  same_number : (n : ℕ) → suc n < 2 ^ 16 → (suc n == (n + 1) % 2 ^ 32) ≡ true
  same_number n h = ground (arith, h)

  next_number : (n : ℕ) → suc n < 2 ^ 16 → (n + 1) % 2 ^ 32 ≡ suc n
  next_number n h = omega (arith, h)

  within : (limit n : ℕ) → n ≤ limit → ltb limit n ≡ false
  within limit n h = ground (arith, h)

  beyond : (limit n : ℕ) → limit < n → ltb limit n ≡ true
  beyond limit n h = ground (arith, h)

  -- The next block is stored, as long as the file does not get too large by it.
  pub next_block :
      (d : TftpDialogue) (c : List ℕ)
      → IsReady d
      → suc d.blocks < 2 ^ 16
      → d.buffer.offset + length c ≤ d.max_file_size
      → (b : DownloadBuffer) × (packet : List ℕ) × IsValid b
        × (contents b ≡ contents d.buffer ++ c)
        × (4 ≤ length packet)
        × (incoming_data m d (data_message (suc d.blocks) c) ≡ done (taken d c b packet))
  unfolding incoming_data data_block accept word
  next_block d c r small fits =
      let (packet, copied, len, same) = memcpy_lem d.last_send 0 (ack (suc d.blocks)) r.packet in
      let d' : TftpDialogue = record d {
        retries = 0;
        last_send = packet;
        last_send_length = 4;
        blocks = suc d.blocks;
      } in
      let total : d.buffer.offset + length c ≤ 2 ^ 31 = omega (arith, r.limit, fits) in
      let (b, valid, grown, kept) = keep_lem d' (suc d.blocks) c r.valid total in
      (
        b,
        packet,
        valid,
        grown,
        omega (arith, len, r.packet),
        rw (
          number (suc d.blocks),
          same_number d.blocks small,
          copied,
          next_number d.blocks small,
          size_of d.buffer.offset (length c) total,
          within d.max_file_size (d.buffer.offset + length c) fits,
          kept,
          short (length c),
        ),
      )

  -- A file that gets too large is given up; the block was acknowledged before.
  pub large_block :
      (d : TftpDialogue) (c : List ℕ)
      → IsReady d
      → suc d.blocks < 2 ^ 16
      → length c ≤ 2 ^ 16
      → d.max_file_size < d.buffer.offset + length c
      → d.buffer.offset ≤ d.max_file_size
      → (d' : TftpDialogue) × (incoming_data m d (data_message (suc d.blocks) c)
          ≡ done (record {
            dialogue = d';
            effects = respond (ack (suc d.blocks)) ∷ close ∷ [];
            level = cl_drop;
          }))
  unfolding incoming_data data_block accept word
  large_block d c r small chunk large stored =
      let (packet, copied, len, same) = memcpy_lem d.last_send 0 (ack (suc d.blocks)) r.packet in
      (
        record d { retries = 0; last_send = packet; last_send_length = 4; blocks = suc d.blocks },
        rw (
          number (suc d.blocks),
          same_number d.blocks small,
          copied,
          next_number d.blocks small,
          size_up_to d.buffer.offset (length c) (omega (arith, stored, r.limit)) chunk,
          beyond d.max_file_size (d.buffer.offset + length c) large,
        ),
      )

  -- Any other block changes nothing but the count of the timeouts.
  pub other_block :
      (d : TftpDialogue) (i : ℕ) (c : List ℕ)
      → i < 2 ^ 16
      → d.blocks < 2 ^ 16
      → i ≢ suc d.blocks
      → incoming_data m d (data_message i c)
        ≡ done (record { dialogue = record d { retries = 0 }; effects = []; level = cl_assign })
  unfolding incoming_data data_block word
  other_block d i c small counter other = rw (number i, other_number i d.blocks counter other)
