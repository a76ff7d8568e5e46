-- ===== src/Tests/Servers.antt =====
-- Tests of the authentication of peers, the echo servers, Pinger and the sustained writer.
use networking_in_go.Peers.{
  Sockopt, interrupted, credentials, Users, string_of, has, any_group, allowed,
}
use networking_in_go.Peers.Decision.{peer, allowed_digits}
use networking_in_go.Echo.{Read, got, Connection, echo_stream, Packet, packet}
use networking_in_go.Ping.{Event, cancelled, reset_to, fired, returned, blocked, nothing, pinger}
use networking_in_go.Ping.Turns.{pinger_ends}
use networking_in_go.Sinks.{Store}
use networking_in_go.Ports.{Dial, connected, temporary, ended, ping_port}
use networking_in_go.Metrics.{state_new, state_closed, changed, handled, metrics}
use networking_in_go.Metrics.Open.{History, hijacks, metrics_open}
use networking_in_go.Proxy.{Step, forward, reply, source_ends, proxy, proxy_conn}
use networking_in_go.Prelude.{
  Bool-cases, equal_sound, [], Bytes, codes, equal, arith, if◌then◌else◌, pos, none, some, ◌∷◌,
  true, false, refl, inl, inr, Option, List, ◌≡◌, ℕ, ◌++◌, ◌≤◌, ◌<◌, ◌+◌, length,
}

-- A database that knows the user 0.
lookup_id : Bytes → Option Bytes
lookup_id s = if equal s (codes "0") then some (codes "root") else none

group_ids : Bytes → Option (List Bytes)
group_ids u = some (codes "0" ∷ codes "4" ∷ [])

lookup_id_decimal :
    (s u : Bytes) → lookup_id s ≡ some u → (c : ℕ) × (r : Bytes) × (s ≡ c ∷ r) × (48 ≤ c) × (c < 58)
unfolding lookup_id
lookup_id_decimal s u h = elim (Bool-cases (equal s (codes "0"))) [
  | inl e ↦ (48, [], equal_sound s (codes "0") e, omega arith, omega arith)
  | inr e ↦ absurd (cc (rw e at h))
]

users : Users
unfolding lookup_id group_ids
users = record {
  lookup_id = lookup_id;
  group_ids = group_ids;
  lookup_id_decimal = lookup_id_decimal;
}

abbrev calls : List Sockopt
calls = interrupted ∷ credentials 48 ∷ []

-- The id 48 is taken for the user 0, and the id 0 is refused.
takes_for_root :
    (allowed users false (some (codes "4" ∷ [])) calls ≡ some true)
    × (allowed users false (some (codes "4" ∷ [])) (credentials 0 ∷ []) ≡ some false)
unfolding allowed users any_group has equal string_of
takes_for_root = (refl, refl)

allowed_digits_example : (uid : ℕ) × (peer users calls ≡ some uid) × (48 ≤ uid) × (uid < 58)
unfolding users allowed any_group has equal string_of
allowed_digits_example = allowed_digits users (some (codes "4" ∷ [])) calls refl

abbrev fresh : Connection
fresh = record { waiting = []; echoed = []; closed = false }

abbrev reads : List Read
reads = got (codes "ping") none ∷ got (codes "pong") (some 2) ∷ []

echoes : (echo_stream fresh reads).0.echoed ≡ codes "pingpo"
unfolding echo_stream
echoes = refl

abbrev packets : List Packet
packets = packet (codes "a") (codes "ping") true ∷ []

abbrev events : List Event
events = fired true ∷ reset_to (pos 5) true ∷ reset_to (pos 0) false ∷ []

pinger_ends_example :
    ((pinger nothing (events ++ cancelled true ∷ [])).1 ≡ returned)
    × ((pinger nothing (events ++ fired false ∷ [])).1 ≡ blocked)
pinger_ends_example = pinger_ends nothing events [] true (λ e. cc) (refl, (tt, (tt, tt)))

abbrev store : Store
store i = record { taken = []; room = i }

abbrev dials : List Dial
dials = connected ∷ temporary ∷ connected ∷ []

prints : ping_port (pos 2) dials ≡ ((1, true) ∷ (2, false) ∷ [], ended)
unfolding ping_port
prints = refl

history :
    History
      (changed 1 state_closed ∷ handled true ∷ changed 2 state_new ∷ changed 1 state_new ∷ [])
      (2 ∷ [])
history =
    History.closed (2 ∷ []) [] 1
      (History.served true (History.opened 2 (History.opened 1 History.start)))

abbrev still_open : List ℕ
still_open = 2 ∷ []

metrics_open_example :
    (metrics (
      changed 1 state_closed
      ∷ handled true
      ∷ changed 2 state_new
      ∷ changed 1 state_new
      ∷ [])).open_connections
    ≡ pos (
        length still_open
        + hijacks (
            changed 1 state_closed ∷ handled true ∷ changed 2 state_new ∷ changed 1 state_new ∷ []))
metrics_open_example = metrics_open history

abbrev steps : List Step
steps = forward (codes "ping") ∷ source_ends ∷ reply (codes "pong") ∷ []

-- A reply behind the source's end is lost by proxyConn.
cuts :
    ((proxy true true steps).0.to_source ≡ codes "pong")
    × ((proxy_conn true true steps).0.to_source ≡ [])
unfolding proxy proxy_conn
cuts = (refl, refl)

abbrev datagrams : List (Option Packet)
datagrams = some (packet (codes "a") (codes "ping") true) ∷ none ∷ []
