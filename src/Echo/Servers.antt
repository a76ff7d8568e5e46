-- ===== src/Echo/Servers.antt =====
-- chapter7/server.go: the two servers around the loops, from listening to the end of the context. Echoing
-- one connection goes on when the context ends.
use networking_in_go.Echo.{
  Connection, End, Read, Packet, lost, packet, buffer_size, echo_stream, echo_packets,
}
use networking_in_go.Prelude.{
  Bytes, not, ◌&&◌, if◌then◌else◌, take, none, some, [], ◌∷◌, true, false, refl, Option, List, ◌≡◌,
  Bool, ap,
}

-- What the accepting goroutine sees, in order; the reads of a connection are those of its whole life.
pub data Arrival : Type 0 where
  accepted : List Read → Arrival
  accept_failed cancelled : Arrival

-- The connections that were accepted, each with its own loop. Cancelling closes the listener, and the
-- next `Accept` fails.
unfoldable pub accept_loop : List Arrival → List (Connection × End)
accept_loop [] = []
accept_loop (accepted reads ∷ rest) =
    echo_stream (record { waiting = []; echoed = []; closed = false }) reads ∷ accept_loop rest
accept_loop (accept_failed ∷ rest) = []
accept_loop (cancelled ∷ rest) = []

-- The argument is whether `net.Listen` succeeds; `none` is its error.
unfoldable pub streaming_echo_server : Bool → List Arrival → Option (List (Connection × End))
unfolding accept_loop
streaming_echo_server true arrivals = some (accept_loop arrivals)
streaming_echo_server false arrivals = none

-- A datagram socket, and the file that stands for it if it is a Unix one.
pub record Socket : Type 0 where
  pub closed : Bool
  pub file : Bool

-- The goroutine that waits for the context, which also outlives the loop: `none` is the end of the context.
close_socket : Bool → Socket → Socket
close_socket unixgram s = record { closed = true; file = if unixgram then false else s.file }

unfoldable pub cancel_all : Bool → List (Option Packet) → Socket → Socket
unfolding close_socket
cancel_all unixgram [] s = s
cancel_all unixgram (none ∷ rest) s = close_socket unixgram s
cancel_all unixgram (some p ∷ rest) s = cancel_all unixgram rest s

-- The loop: a closed socket fails its next read.
unfoldable pub datagram_loop : List (Option Packet) → List (Bytes × Bytes)
datagram_loop [] = []
datagram_loop (none ∷ rest) = []
datagram_loop (some lost ∷ rest) = []
datagram_loop (some (packet addr d written) ∷ rest) =
    let sent = datagram_loop rest in if written then (addr, take buffer_size d) ∷ sent else []

-- Whether `net.ListenPacket` succeeds, and whether the network is "unixgram".
unfoldable pub datagram_echo_server :
    Bool → Bool → List (Option Packet) → Option (List (Bytes × Bytes) × Socket)
unfolding datagram_loop cancel_all
datagram_echo_server false unixgram events = none
datagram_echo_server true unixgram events =
    some (
      datagram_loop events,
      cancel_all unixgram events (record { closed = false; file = unixgram }),
    )

-- Until the context ends.
pub before_cancel : List (Option Packet) → List Packet
before_cancel [] = []
before_cancel (none ∷ rest) = []
before_cancel (some p ∷ rest) = p ∷ before_cancel rest

pub has_cancel : List (Option Packet) → Bool
has_cancel [] = false
has_cancel (none ∷ rest) = true
has_cancel (some p ∷ rest) = has_cancel rest

datagram_loop-echo_packets :
    (events : List (Option Packet)) → datagram_loop events ≡ (echo_packets (before_cancel events)).0
unfolding datagram_loop echo_packets before_cancel
datagram_loop-echo_packets [] = refl
datagram_loop-echo_packets (none ∷ rest) = refl
datagram_loop-echo_packets (some lost ∷ rest) = refl
datagram_loop-echo_packets (some (packet addr d true) ∷ rest) =
    ap (◌∷◌ (addr, take buffer_size d)) (datagram_loop-echo_packets rest)
datagram_loop-echo_packets (some (packet addr d false) ∷ rest) = refl

cancel_all_closed :
    (events : List (Option Packet)) (unixgram : Bool)
    → let s = cancel_all unixgram events (record { closed = false; file = unixgram }) in
      (s.closed ≡ has_cancel events) × (s.file ≡ (unixgram && not (has_cancel events)))
unfolding cancel_all close_socket has_cancel
cancel_all_closed [] true = (refl, refl)
cancel_all_closed [] false = (refl, refl)
cancel_all_closed (none ∷ rest) true = (refl, refl)
cancel_all_closed (none ∷ rest) false = (refl, refl)
cancel_all_closed (some p ∷ rest) unixgram = cancel_all_closed rest unixgram

-- The datagram server answers what comes before the context ends, as the loop of chapter5 does; the socket
-- is closed just if the context has ended, though the loop may have failed before, and a Unix socket's
-- file is then removed.
pub datagram_echo_server-echo_packets :
    (unixgram : Bool) (events : List (Option Packet))
    → (s : Socket) × (datagram_echo_server true unixgram events
        ≡ some ((echo_packets (before_cancel events)).0, s))
      × (s.closed ≡ has_cancel events)
      × (s.file ≡ (unixgram && not (has_cancel events)))
unfolding datagram_echo_server
datagram_echo_server-echo_packets unixgram events =
    let s : Socket = cancel_all unixgram events (record { closed = false; file = unixgram }) in
    let (c, f) = cancel_all_closed events unixgram in
    (
      s,
      ap (λ (sent : List (Bytes × Bytes)). some (sent, s)) (datagram_loop-echo_packets events),
      c,
      f,
    )
