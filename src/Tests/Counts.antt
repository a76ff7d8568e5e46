-- ===== src/Tests/Counts.antt =====
-- Tests of the metrics, of the loggers by level, and of the start of the TLS server.
use networking_in_go.Http.Middleware.{has_prefix}
use networking_in_go.Metrics.{metrics, Call, changed, handled, state_new}
use networking_in_go.Metrics.Fleet.{metrics_fleet, Shuffle, none_left, next, requests_in}
use networking_in_go.Metrics.Names.{
  Flags, defaults, registered, register, JoinsNames, print_metrics, metrics_prefix, keep_lines,
}
use networking_in_go.Metrics.Names.Printed.{
  Line, comment, value, other, text_of, page_of, values_of, others_of, IsListed, OneLine,
  print_metrics-IsForeign, print_metrics-values_of,
}
use networking_in_go.Sinks.{Store}
use networking_in_go.Sinks.Levels.{Entry, error, debug}
use networking_in_go.Prelude.{
  codes, ◌*◌, All, arith, [], ◌∷◌, true, false, inl, List, ◌≡◌, refl, ◌++◌, Bytes,
}

-- Two connections with one request each: the second one's comes first.
abbrev both : List (List Call)
both = (changed 0 state_new ∷ handled true ∷ []) ∷ (handled false ∷ []) ∷ []

abbrev in_turn : List Call
in_turn = handled false ∷ changed 0 state_new ∷ handled true ∷ []

shuffled : Shuffle both in_turn
shuffled = next ((changed 0 state_new ∷ handled true ∷ []) ∷ []) [] (handled false) [] (
    next [] ([] ∷ []) (changed 0 state_new) (handled true ∷ [])
      (next [] ([] ∷ []) (handled true) [] (none_left 2)))

one_each : All (λ t. requests_in t ≡ 1) both
unfolding requests_in
one_each = (refl, (refl, tt))

abbrev other_flags : Flags
other_flags = record { namespace = codes "app"; subsystem = codes "server1" }

abbrev help : Line
help = comment (codes "HELP")

abbrev count : Line
count = value (codes "web_server1_request_count") (codes " 50000")

-- Names joined whatever the components are.
abbrev join_names : Bytes → Bytes → Bytes → Bytes
join_names namespace subsystem name = namespace ++ b'_' ∷ (subsystem ++ b'_' ∷ name)

joins : JoinsNames join_names
joins = record { joined = λ namespace subsystem name h k. refl }

abbrev routines : Line
routines = other (codes "go_goroutines 9")

abbrev listed : List Line
listed = help ∷ count ∷ routines ∷ []

listed_metrics : All (IsListed join_names) listed
unfolding registered register has_prefix
listed_metrics = (tt, (inl refl, (refl, tt)))

one_line : All OneLine listed
unfolding text_of
one_line = ground arith

prints_count :
    print_metrics defaults (page_of listed) ≡ codes "web_server1_request_count 50000" ∷ []
unfolding values_of
prints_count = print_metrics-values_of joins listed listed_metrics one_line

print_metrics-IsForeign_example :
    print_metrics other_flags (page_of listed)
    ≡ keep_lines (metrics_prefix other_flags) (others_of listed)
unfolding has_prefix metrics_prefix
print_metrics-IsForeign_example =
    print_metrics-IsForeign joins other_flags listed ((refl, refl), (refl, refl)) listed_metrics
      one_line

abbrev small_store : Store
small_store i = record { taken = []; room = 20 }

abbrev logged : List Entry
logged = error (codes "a.go:1") (codes "x") ∷ debug (codes "a.go:2") (codes "y") ∷ []

metrics_fleet_example : (metrics in_turn).requests ≡ 2 * 1
metrics_fleet_example = metrics_fleet 1 shuffled one_each
