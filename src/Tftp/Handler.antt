-- ===== src/Tftp/Handler.antt =====
-- chapter6/server.go: `Server.handle`, one transfer to one client. What the network does is a list of
-- attempts, one for each round of the `RETRY` loop: whether `conn.Write` failed, and what
-- `conn.Read` then gave. A datagram is written whole or not at all, so `n` is the packet's length.
-- The two loops are one recursion on the attempts: `run` stands at the head of the `RETRY` loop.
pub mod Invariant
pub mod Rule
pub mod Client
pub mod Delivery
pub mod Bounds
pub mod Runs
pub mod Received
pub mod Progress
use networking_in_go.Prelude.{
  ℕ, ◌-◌, Bool, true, false, List, [], ◌∷◌, ◌++◌, Option, none, some, Bytes, ◌==◌, if◌then◌else◌,
  length, take, drop, replicate,
}
use networking_in_go.Tftp.Ack
use networking_in_go.Tftp.Data
use networking_in_go.Tftp.Data.{Data}
use networking_in_go.Tftp.Err
use networking_in_go.Tftp.Err.{Err}
use networking_in_go.Tftp.Packet.{datagram_size, PacketError}

pub data Reply : Type 0 where
  timeout failed : Reply
  received : Bytes → Reply

pub data Attempt : Type 0 where
  write_failed : Attempt
  written : Reply → Attempt

-- The returns of `handle`; `waiting` is no return: the network has not answered yet.
pub data Outcome : Type 0 where
  waiting completed dial_error write_error read_error exhausted : Outcome
  client_error : Bytes → Outcome

-- The local variables, and the datagrams written so far.
pub record Session : Type 0 where
  pub data_pkt : Data
  pub ack_pkt : ℕ
  pub err_pkt : Err
  pub buf : Bytes
  pub packet : Bytes  -- data
  pub tries : ℕ  -- i
  pub sent : List Bytes

-- `conn.Read(buf)`: a datagram that is too long is cut, and the bytes behind a short one stay.
unfoldable pub read_into : Bytes → Bytes → Bytes
read_into buf d = take (length buf) d ++ drop (length d) buf

-- Where a round of the `RETRY` loop goes on.
pub data Round : Type 0 where
  retry next : Session → Round
  stop : Outcome → Session → Round

unfoldable pub is_nil : Option PacketError → Bool
is_nil none = true
is_nil (some e) = false

-- The second case of the `switch`, and its default.
answer_error : Session → Round
unfolding is_nil
answer_error s =
    let (e, error) = Err.unmarshal s.err_pkt s.buf in
    let s' = record s { err_pkt = e } in
    if is_nil error then stop (client_error e.message) s' else retry s'

-- The `switch` on the bytes in `buf`.
answer : Session → Round
unfolding is_nil answer_error
answer s =
    let (a, error) = Ack.unmarshal s.ack_pkt s.buf in
    let s' = record s { ack_pkt = a } in
    if is_nil error then (if a == s.data_pkt.block then next s' else retry s') else answer_error s'

receive : Session → Reply → Round
unfolding answer read_into
receive s timeout = retry s
receive s failed = stop read_error s
receive s (received d) = answer (record s { buf = read_into s.buf d })

pub attempt : Session → Attempt → Round
unfolding receive
attempt s write_failed = stop write_error s
attempt s (written r) = receive (record s { sent = s.sent ++ s.packet ∷ [] }) r

-- The head of the `NEXTPACKET` loop: the next packet, and `i := s.Retries`.
pub prepare : ℕ → Session → Session
prepare retries s =
    let (d, p) = Data.marshal s.data_pkt in record s { data_pkt = d; packet = p; tries = retries }

pub run : ℕ → Session → List Attempt → Session × Outcome
unfolding attempt prepare
run retries s [] = (s, waiting)
run retries s (a ∷ rest) = elim (attempt s a) [
  | retry s' ↦ elim (s'.tries - 1 == 0) [
    | true ↦ (record s' { tries = 0 }, exhausted)
    | false ↦ run retries (record s' { tries = s'.tries - 1 }) rest
  ]
  | next s' ↦ elim (length s'.packet == datagram_size) [
    | true ↦ run retries (prepare retries s') rest
    | false ↦ (s', completed)
  ]
  | stop o s' ↦ (s', o)
]

-- The variables before the first packet.
abbrev pub fresh : Bytes → Session
fresh payload = record {
  data_pkt = record { block = 0; payload = payload };
  ack_pkt = 0;
  err_pkt = record { error = 0; message = [] };
  buf = replicate datagram_size 0;
  packet = [];
  tries = 0;
  sent = [];
}

-- The first argument is whether `net.Dial` succeeded.
unfoldable pub handle : Bool → ℕ → Bytes → List Attempt → Session × Outcome
unfolding run
handle false retries payload script = (fresh payload, dial_error)
handle true retries payload script =
    let s = prepare retries (fresh payload) in
    if retries == 0 then (s, exhausted) else run retries s script
