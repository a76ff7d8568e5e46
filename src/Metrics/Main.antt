-- ===== src/Metrics/Main.antt =====
-- chapter13/instrument/server.go: newHTTPServer and main, from the two listeners to what is printed. The
-- servers go on while main lasts.

use networking_in_go.Metrics.Names.{Flags, defaults, print_metrics, JoinsNames}
use networking_in_go.Metrics.Names.Printed.{
  Line, page_of, values_of, IsListed, OneLine, print_metrics-values_of,
}
use networking_in_go.Prelude.{
  Bytes, All, Result, ok, err, none, some, [], ◌∷◌, refl, Option, List, ◌≡◌, ap, ◌∙◌,
}

-- How main ends: by log.Fatal, or with the lines that it prints.
pub data Exit : Type 0 where
  not_listening not_got not_scraped : Bytes → Exit
  printed : List Bytes → Exit

-- Of the requests of all clients, the first one that fails ends the program.
unfoldable pub first_error : List (Option Bytes) → Option Bytes
first_error [] = none
first_error (none ∷ rest) = first_error rest
first_error (some e ∷ rest) = some e

print_scrape : Flags → Result Bytes Bytes → Exit
print_scrape flags (err e) = not_scraped e
print_scrape flags (ok body) = printed (print_metrics flags body)

after_gets : Flags → Option Bytes → Result Bytes Bytes → Exit
unfolding print_scrape
after_gets flags (some e) scrape = not_got e
after_gets flags none scrape = print_scrape flags scrape

after_metrics : Flags → Option Bytes → List (Option Bytes) → Result Bytes Bytes → Exit
unfolding after_gets first_error
after_metrics flags (some e) got scrape = not_listening e
after_metrics flags none got scrape = after_gets flags (first_error got) scrape

start_metrics :
    Flags → Option Bytes → Option Bytes → List (Option Bytes) → Result Bytes Bytes → Exit
unfolding after_metrics
start_metrics flags (some e) web got scrape = not_listening e
start_metrics flags none web got scrape = after_metrics flags web got scrape

-- The errors of the two listeners of newHTTPServer, of the requests in the order of their ends, and the metrics' page.
unfoldable pub main :
    Flags → Option Bytes → Option Bytes → List (Option Bytes) → Result Bytes Bytes → Exit
unfolding start_metrics
main flags metrics_listen web got scrape = start_metrics flags metrics_listen web got scrape

no_error : (got : List (Option Bytes)) → All (λ e. e ≡ none) got → first_error got ≡ none
unfolding first_error
no_error [] h = refl
no_error (none ∷ rest) h = no_error rest h.1
no_error (some e ∷ rest) h = let k : some e ≡ none = h.0 in cc

-- If both servers listen, no request fails, and the page that is scraped has comments and the metrics
-- of the program and of other packages, main prints those of the program, in their order, with the flags as
-- they are by default.
pub main-printed :
    {build_fq_name : Bytes → Bytes → Bytes → Bytes} (joins : JoinsNames build_fq_name)
    (got : List (Option Bytes)) (ls : List Line)
    → All (λ e. e ≡ none) got
    → All (IsListed build_fq_name) ls
    → All OneLine ls
    → main defaults none none got (ok (page_of ls)) ≡ printed (values_of ls)
unfolding main
main-printed joins got ls h k m =
    ap (λ e. after_gets defaults e (ok (page_of ls))) (no_error got h)
    ∙ ap printed (print_metrics-values_of joins ls k m)
