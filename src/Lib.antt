-- ===== src/Lib.antt =====
-- A verification library beside the Go programs of this repository. Each program is a chapter
-- of its own; the modules are named for what the programs do.
--
-- - Prelude: the names, tests, lists, strings and results that the other modules share. Strings
--   are lists of numbers, bytes for what goes over the network, code points for the texts that
--   are split and trimmed; a text that is no UTF-8 is not modelled there.
-- - Go: what the programs use of Go's standard library. Reader is an io.Reader that delivers
--   chunks, Writer an io.Writer with room for so many bytes.
-- - Tftp: chapter6/tftp.go (ReadReq, Data, Ack and Err, with marshal for MarshalBinary and
--   unmarshal for UnmarshalBinary) and chapter6/server.go. Tftp.Server has Serve as serve, over
--   the datagrams that arrive; Tftp.Handler has handle, which runs over a list of what the
--   network does at each attempt to send, so its recursion is on that list: the theorems say
--   how many attempts are enough. Tftp.Handler.Client is a client as a specification, to which
--   in Tftp.Handler.Received any of the datagrams come, in any order. Block numbers wrap at 2 ^
--   16 as in the source.
-- - Tlv: chapter4/tlv.go, with write_to, read_from and decode.
-- - Chores: chapter12. Chores.Chore has the chores and the loop that makes them of a text,
--   Chores.Store the commands of homework.go on the data file, Chores.Robot the service of
--   server/robot.go, and Chores.Client the commands of client/client.go that call it. The
--   encoding of protobuf is a parameter, the record Codec. The service keeps its mutex from the
--   first line of a handler to its last, so what clients do is a list of requests;
--   Chores.Robot.Shared has what is sent of a list once the mutex is released. Chores.Network
--   has the connection: server/server.go and main of client/client.go, with the check of the
--   server's certificate, for the address that is dialled and at a time, as a parameter.
--   Chores.Client.Listed is about what one client lists after others have called.
--   Chores.Store.Storages has json/homework.go and gob/homework.go as encodings.
-- - Http: chapter9/handler.go, chapter9/middleware.go,
--   caddy/caddy-restrict-prefix/restrict_prefix.go and chapter13/wide.go, over Http.Exchange,
--   one request with its response. A handler is a function from exchange to exchange.
--   Http.Methods has the map of handlers as the list of its entries, in any order;
--   Http.Methods.Map has it as a quotient of them.
-- - Peers: chapter7/auth.go. Allowed is allowed; the calls of GetsockoptUcred are a list, and
--   the user database is the record Users.
-- - Echo: the loops of chapter5/echo.go, chapter7/server.go and chapter11/server.go, each over
--   a list of what the network does at each turn; Echo.Servers has the two servers of chapter7
--   around them.
-- - Ping: chapter3/ping.go. pinger runs over the list of the events that the select takes.
-- - Sinks: chapter13/multi.go, whose Write is write, with multierr as the record Multierr, and
--   write_all without it, and in Sinks.Levels chapter13/level.go, over a store of writers with
--   room for so many bytes.
-- - Tls: chapter11/server.go. ServeTLS is serve_tls, up to the connections, whose loop is in
--   Echo.
-- - Ports: chapter4/port.go. ping_port runs over what each dial gives; Ports.Main has main with
--   its argument, its lines and its times.
-- - Metrics: chapter13/instrument/server.go. The function metrics runs over the calls of
--   connStateMetrics and helloHandler.
-- - Proxy: chapter4/proxy.go, over the steps of the two goroutines.
-- - Caddy: caddy/caddy-restrict-prefix/restrict_prefix.go as the module that Caddy loads, with
--   its log, and caddy/caddy-adapter/toml.go.
-- - Logs: chapter13/encoder.go, chapter13/console.go and chapter13/rotation.go (Logs.Named),
--   chapter13/concurrent.go (Logs.Tee) and chapter13/sample.go (Logs.Sampled). Each call of a
--   logger has its time, which a clock gives by the number of the call. The record Zap is what
--   they use of the zap library, IsLawful and IsSampler what is documented of it.
-- - Level: chapter13/dynamic.go, the goroutine over the file events, with as many receives from
--   its channel as are left. Level.Example has the whole example, as the relation Step on the
--   places of both goroutines, which meet at the channel, with the events of the directory in
--   any order between; Level.Example.Turns ties the two together. An error of the watcher
--   prints its line among the others. A failure of the file system, which ends the program, is
--   not a step.
-- - Http.Mux and Http.Push: chapter9/push.go. Http.Mux has what run uses of http.ServeMux and
--   http.StripPrefix, Http.Push the handlers that it registers; the record Site has what
--   net/http and the files decide: what is at a path, with the names in a directory, how it is
--   sent, a redirect and a push. The file server gets the cleaned path, as http.FileServer
--   passes it to the directory.
-- - Shutdown: how a server ends by a signal, in chapter9/push.go as the relation Step on the
--   state of run's two goroutines with the number of open connections, and in
--   chapter10/backend.go, whose handler stands behind the same multiplexer.
-- - Certificates: chapter11/cert.go, main and caCertPool. The record Library has what crypto,
--   encoding/pem and net compute, the record System which files can be opened and closed and
--   how many bytes they take.
-- - Monitor: chapter4/monitor.go, the goroutine that echoes and logs, over the writers of
--   Sinks.
-- - Metrics.Names, Metrics.Fleet and Metrics.Main: chapter13/instrument/metrics/metrics.go and
--   main of chapter13/instrument/server.go: the names that are registered, the lines that are
--   printed, the requests of all clients in every order, and how main ends.
-- - Tftp.Main: chapter6/main.go, from the file to the transfers. Tls.Listening:
--   ListenAndServeTLS and Ready of chapter11/server.go. Ping.Example: ExamplePinger of
--   chapter3/ping.go.
-- - Dial: chapter3/main.go, DialTimeout, with the addresses tried one by one.
-- - Tests: runs of the definitions on small inputs, and the theorems at concrete ones.
--
-- Not modelled: sockets, deadlines and the clock themselves, the parsing of flags,
-- cryptography, generated code, and the encodings of the zap library.
pub mod Prelude
pub mod Go
pub mod Tftp
pub mod Tlv
pub mod Chores
pub mod Http
pub mod Peers
pub mod Echo
pub mod Ping
pub mod Sinks
pub mod Tls
pub mod Ports
pub mod Metrics
pub mod Proxy
pub mod Shutdown
pub mod Certificates
pub mod Monitor
pub mod Dial
pub mod Caddy
pub mod Logs
pub mod Level
pub mod Tests
