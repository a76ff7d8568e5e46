-- ===== src/Tftp/Main.antt =====
-- chapter6/main.go, and ListenAndServe of chapter6/server.go: from the file to the transfers. The log is left
-- out.
use networking_in_go.Tftp.Server.{Server, ServeError, Incoming, Job, serve}
use networking_in_go.Prelude.{Bytes, none, some, false, Option, List}

-- Why the program ends, or that it goes on: the server, the transfers it has started, and the error.
pub data Exit : Type 0 where
  no_file not_bound : Bytes → Exit
  served : Server → List Job → Option ServeError → Exit

serve_on : Server → List Incoming → Exit
serve_on s input = let (s', jobs, end) = serve false s input in served s' jobs end

-- The second argument is the error of net.ListenPacket, if there is one.
unfoldable pub listen_and_serve : Server → Option Bytes → List Incoming → Exit
unfolding serve_on
listen_and_serve s (some e) input = not_bound e
listen_and_serve s none input = serve_on s input

-- What os.ReadFile gives: an error, or the bytes of the file.
pub data File : Type 0 where
  unreadable contents : Bytes → File

unfoldable pub main : File → Option Bytes → List Incoming → Exit
unfolding listen_and_serve
main (unreadable e) bind input = no_file e
main (contents p) bind input =
    listen_and_serve (record { payload = some p; retries = 0; timeout = 0 }) bind input
