-- ===== src/Logs/Named.antt =====
-- chapter13/encoder.go, chapter13/console.go and chapter13/rotation.go: the examples with one core.
use networking_in_go.Logs.{
  Zap, IsLawful, Encoder, json_encoder, console_encoder, encoder_cfg, Entry, Options, no_options,
  debug_level, info_level, error_level, log,
}
use networking_in_go.Logs.Lines.{log_all, gather, line_at, HasLevels, written-log_all, log_own}
use networking_in_go.Prelude.{
  ap₂, ℕ, ℤ, Bool, true, false, List, [], ◌∷◌, ◌++◌, ◌≡◌, refl, Bytes, codes, ap, ◌∙◌, Result, ok,
  err,
}

-- `*lumberjack.Logger`, whose writer the library decides.
pub record Lumberjack : Type 0 where
  pub filename : Bytes
  pub compress : Bool
  pub local_time : Bool
  pub max_age : ℕ
  pub max_backups : ℕ
  pub max_size : ℕ

module _ (zap : Zap) where
  -- Example_zapJSON, for the version of the runtime. A clock has the times of the calls.
  unfoldable pub json_logger : ℕ → Bytes → zap.Logger
  json_logger std_out version =
      zap.named
        (zap.new (zap.new_core (json_encoder encoder_cfg) std_out debug_level)
          (record { add_caller = true; with_fields = (codes "version", version) ∷ [] }))
        (codes "example")

  abbrev pub json_entries : (ℕ → ℕ) → List (ℕ × ℤ × Bytes)
  json_entries clock =
      (clock 0, debug_level, codes "test debug message")
      ∷ (clock 1, info_level, codes "test info message")
      ∷ []

  unfoldable pub example_json : (ℕ → ℕ) → ℕ → Bytes → zap.World → zap.World
  unfolding json_logger log_all
  example_json clock std_out version w =
      log_all zap (json_logger std_out version) (json_entries clock) w

  -- Example_zapConsole.
  unfoldable pub console_logger : ℕ → zap.Logger
  console_logger std_out =
      zap.named (zap.new (zap.new_core (console_encoder encoder_cfg) std_out info_level) no_options)
        (codes "[console]")

  abbrev pub console_entries : (ℕ → ℕ) → List (ℕ × ℤ × Bytes)
  console_entries clock =
      (clock 0, info_level, codes "this is logged by the logger")
      ∷ (clock 1, debug_level, codes "this is below the logger's threshold and won't log")
      ∷ (clock 2, error_level, codes "this is also logged by the logger")
      ∷ []

  unfoldable pub example_console : (ℕ → ℕ) → ℕ → zap.World → zap.World
  unfolding console_logger log_all
  example_console clock std_out w = log_all zap (console_logger std_out) (console_entries clock) w

  -- TestZapLogRotation: the temporary directory, or the error that ends the test.
  unfoldable pub zap_log_rotation :
      (Lumberjack → ℕ)
      → (Bytes → Bytes → Bytes)
      → Result Bytes Bytes
      → ℕ
      → zap.World
      → Result Bytes zap.World
  zap_log_rotation writer join (err e) t w = err e
  zap_log_rotation writer join (ok dir) t w =
      let file = writer (record {
        filename = join dir (codes "debug.log");
        compress = true;
        local_time = true;
        max_age = 7;
        max_backups = 5;
        max_size = 100;
      }) in
      let zl = zap.new (zap.new_core (json_encoder encoder_cfg) file debug_level) no_options in
      ok (log zap zl t debug_level (codes "debug message written to the log file") w)

module _ (zap : Zap) (law : IsLawful zap) where
  named-HasLevels :
      (c : zap.Core) (o : Options) (s : Bytes) → HasLevels zap (zap.named (zap.new c o) s)
  named-HasLevels c o s t level msg = rw (law.entry-named, law.entry-new) refl

  -- A named logger of one core leaves the lines at the level of the core or above, for any entries.
  pub written-named :
      (enc : Encoder) (i : ℕ) (level : ℤ) (o : Options) (s : Bytes) (es : List (ℕ × ℤ × Bytes))
      (w : zap.World)
      → let l = zap.named (zap.new (zap.new_core enc i level) o) s in
        zap.written i (log_all zap l es w) ≡ zap.written i w ++ gather (line_at zap enc level l) es
  written-named enc i level o s =
      let l = zap.named (zap.new (zap.new_core enc i level) o) s in
      written-log_all zap l i (line_at zap enc level l) λ t level' msg w.
        log_own zap law l enc i t level level' msg w
          (law.core-named (zap.new (zap.new_core enc i level) o) s ∙ law.core-new _ o)
          (named-HasLevels (zap.new_core enc i level) o s t level' msg)

  entry-named_new :
      (c : zap.Core) (o : Options) (s : Bytes) (t : ℕ) (level : ℤ) (msg : Bytes)
      → zap.entry (zap.named (zap.new c o) s) t level msg ≡ record {
        time = t;
        level = level;
        name = s;
        message = msg;
        caller = o.add_caller;
        fields = o.with_fields;
      }
  entry-named_new c o s t level msg =
      law.entry-named c o s t level msg
      ∙ ap (λ (e : Entry). record e { name = s }) (law.entry-new c o t level msg)

  -- The two lines of Example_zapJSON: with the caller, the logger's name and the version.
  pub written-example_json :
      (clock : ℕ → ℕ) (std_out : ℕ) (version : Bytes) (w : zap.World)
      → let line = λ (t : ℕ) (level : ℤ) (msg : Bytes).
        zap.encode (json_encoder encoder_cfg) (record {
          time = t;
          level = level;
          name = codes "example";
          message = msg;
          caller = true;
          fields = (codes "version", version) ∷ [];
        }) in
        zap.written std_out (example_json zap clock std_out version w)
        ≡ zap.written std_out w
          ++ (line (clock 0) debug_level (codes "test debug message")
              ++ (line (clock 1) info_level (codes "test info message") ++ []))
  unfolding example_json json_logger gather
  written-example_json clock std_out version w =
      let c = zap.new_core (json_encoder encoder_cfg) std_out debug_level in
      let o : Options = record {
        add_caller = true;
        with_fields = (codes "version", version) ∷ [];
      } in
      written-named (json_encoder encoder_cfg) std_out debug_level o (codes "example")
        (json_entries zap clock) w
      ∙ ap₂
          (λ (a b : Entry).
            zap.written std_out w
            ++ (zap.encode (json_encoder encoder_cfg) a
                ++ (zap.encode (json_encoder encoder_cfg) b ++ [])))
          (entry-named_new c o (codes "example") (clock 0) debug_level (codes "test debug message"))
          (entry-named_new c o (codes "example") (clock 1) info_level (codes "test info message"))

  -- The two lines of Example_zapConsole, with the logger's name: the debug message is left out.
  pub written-example_console :
      (clock : ℕ → ℕ) (std_out : ℕ) (w : zap.World)
      → let line = λ (t : ℕ) (level : ℤ) (msg : Bytes).
        zap.encode (console_encoder encoder_cfg) (record {
          time = t;
          level = level;
          name = codes "[console]";
          message = msg;
          caller = false;
          fields = [];
        }) in
        zap.written std_out (example_console zap clock std_out w)
        ≡ zap.written std_out w
          ++ (line (clock 0) info_level (codes "this is logged by the logger")
              ++ (line (clock 2) error_level (codes "this is also logged by the logger") ++ []))
  unfolding example_console console_logger gather
  written-example_console clock std_out w =
      let c = zap.new_core (console_encoder encoder_cfg) std_out info_level in
      let s = codes "[console]" in
      written-named (console_encoder encoder_cfg) std_out info_level no_options s
        (console_entries zap clock) w
      ∙ ap₂
          (λ (a b : Entry).
            zap.written std_out w
            ++ (zap.encode (console_encoder encoder_cfg) a
                ++ (zap.encode (console_encoder encoder_cfg) b ++ [])))
          (entry-named_new c no_options s (clock 0) info_level
            (codes "this is logged by the logger"))
          (entry-named_new c no_options s (clock 2) error_level
            (codes "this is also logged by the logger"))
