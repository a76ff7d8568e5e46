-- ===== src/Metrics/Names.antt =====
-- chapter13/instrument/metrics/metrics.go: the names under which the metrics are registered, and what `main`
-- of chapter13/instrument/server.go prints of them. The names are made when the package is initialised, from
-- the defaults of its flags; the prefix to print is made from the flags once they are parsed.
pub mod Printed
use networking_in_go.Go.Fields.{split}
use networking_in_go.Http.Middleware.{has_prefix}
use networking_in_go.Prelude.{
  Bytes, codes, equal, map, if◌then◌else◌, none, some, [], ◌∷◌, true, false, refl, inl, inr, Option,
  List, ◌≡◌, ◌≢◌, Bool, ℕ, ◌++◌, ◌+◌, ◌-◌, ◌≤◌, ◌<◌, zero, suc, ap, sym, ◌∙◌,
}

-- `Namespace` and `Subsystem`.
pub record Flags : Type 0 where
  pub namespace : Bytes
  pub subsystem : Bytes

abbrev pub defaults : Flags
defaults = record { namespace = codes "web"; subsystem = codes "server1" }

-- The names in `CounterOpts`, `GaugeOpts` and `HistogramOpts`.
abbrev pub option_names : List Bytes
option_names =
    codes "request_count"
    ∷ codes "write_errors_count"
    ∷ codes "open_connections"
    ∷ codes "request_duration_histogram_seconds"
    ∷ []

-- What is documented of `prometheus.BuildFQName`, a parameter: it joins the components with underscores.
pub record JoinsNames (build_fq_name : Bytes → Bytes → Bytes → Bytes) : Type 0 where
  pub joined :
      (namespace subsystem name : Bytes)
      → namespace ≢ []
      → subsystem ≢ []
      → build_fq_name namespace subsystem name ≡ namespace ++ b'_' ∷ (subsystem ++ b'_' ∷ name)

-- What the registry has under which names: the flags as they are at that time.
unfoldable pub register : (Bytes → Bytes → Bytes → Bytes) → Flags → List Bytes
register build_fq_name flags = map (build_fq_name flags.namespace flags.subsystem) option_names

-- The names of the program.
unfoldable pub registered : (Bytes → Bytes → Bytes → Bytes) → List Bytes
unfolding register
registered build_fq_name = register build_fq_name defaults

-- `fmt.Sprintf("%s_%s", *metrics.Namespace, *metrics.Subsystem)`.
unfoldable pub metrics_prefix : Flags → Bytes
metrics_prefix flags = flags.namespace ++ b'_' ∷ flags.subsystem

-- The lines that begin with the prefix.
unfoldable pub keep_lines : Bytes → List Bytes → List Bytes
keep_lines prefix [] = []
keep_lines prefix (line ∷ lines) =
    let rest = keep_lines prefix lines in if has_prefix line prefix then line ∷ rest else rest

-- The lines of the metrics that `main` prints: the argument is the body of the response.
unfoldable pub print_metrics : Flags → Bytes → List Bytes
unfolding keep_lines metrics_prefix
print_metrics flags body = keep_lines (metrics_prefix flags) (split b'\n' body)
