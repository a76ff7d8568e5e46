-- ===== src/Tftp/Server.antt =====
-- chapter6/server.go: `Server` and `Server.Serve`. What the network brings is a list; a nil `conn` is
-- a flag. The handlers that `Serve` starts are listed with the server that they belong to: the
-- goroutines only read it. `ListenAndServe` opens the socket and calls `Serve`. A timeout is not
-- negative.
pub mod Requests
use networking_in_go.Prelude.{
  ℕ, Bool, true, false, List, [], ◌∷◌, Option, none, some, Bytes, ◌==◌, if◌then◌else◌, replicate,
}
use networking_in_go.Tftp.Handler.{read_into, is_nil}
use networking_in_go.Tftp.Packet.{datagram_size, PacketError}
use networking_in_go.Tftp.ReadReq
use networking_in_go.Tftp.ReadReq.{ReadReq}

pub record Server : Type 0 where
  pub payload : Option Bytes
  pub retries : ℕ  -- uint8
  pub timeout : ℕ  -- nanoseconds

pub data Incoming : Type 0 where
  read_failed : Incoming
  datagram_from : Bytes → Bytes → Incoming

pub data ServeError : Type 0 where
  nil_connection payload_required read_error : ServeError

-- The client's address and its request, for `go s.handle(addr.String(), rrq)`.
abbrev pub Job : Type 0
Job = Bytes × ReadReq

-- `buf := make([]byte, DatagramSize)` and `conn.ReadFrom(buf)`.
pub receive_buffer : Bytes → Bytes
receive_buffer d = read_into (replicate datagram_size 0) d

-- `go s.handle(…)`, or a line in the log.
start_job : Bytes → ReadReq × Option PacketError → List Job → List Job
unfolding is_nil
start_job addr (q, e) jobs = if is_nil e then (addr, q) ∷ jobs else jobs

-- The loop, with the request variable that its rounds share. No error: it still reads.
serve_loop : ReadReq → List Incoming → List Job × Option ServeError
unfolding start_job receive_buffer
serve_loop q [] = ([], none)
serve_loop q (read_failed ∷ rest) = ([], some read_error)
serve_loop q (datagram_from addr d ∷ rest) =
    let read = ReadReq.unmarshal q (receive_buffer d) in
    let (jobs, end) = serve_loop read.0 rest in (start_job addr read jobs, end)

-- `s.Retries = 10` and `s.Timeout = 6 * time.Second` where they are 0.
unfoldable pub with_defaults : Server → Server
with_defaults s = record s {
  retries = if s.retries == 0 then 10 else s.retries;
  timeout = if s.timeout == 0 then 6_000_000_000 else s.timeout;
}

serve_payload : Option Bytes → Server → List Incoming → Server × List Job × Option ServeError
unfolding serve_loop with_defaults
serve_payload none s input = (s, [], some payload_required)
serve_payload (some p) s input =
    let (jobs, end) = serve_loop (record { filename = []; mode = [] }) input in
    (with_defaults s, jobs, end)

-- The first argument is `conn == nil`.
unfoldable pub serve : Bool → Server → List Incoming → Server × List Job × Option ServeError
unfolding serve_payload
serve true s input = (s, [], some nil_connection)
serve false s input = serve_payload s.payload s input
