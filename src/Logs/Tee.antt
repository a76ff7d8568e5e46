-- ===== src/Logs/Tee.antt =====
-- chapter13/concurrent.go: a logger that writes to a log file and to the standard output.
pub mod Printed
use networking_in_go.Logs.{
  Entry, Zap, IsLawful, Encoder, json_encoder, console_encoder, EncoderConfig, encoder_cfg,
  capital_level_encoder, no_options, debug_level, info_level, error_level, log,
}
use networking_in_go.Logs.Lines.{
  log_all, gather, line_at, written-log_all, written_own, written_other,
}
use networking_in_go.Prelude.{
  ap₂, ℕ, ◌==◌, ℤ, int_leb, Bool, true, false, List, [], ◌∷◌, ◌++◌, ◌≡◌, ◌≢◌, refl, Bytes, codes,
  if◌then◌else◌, ap, sym, ◌∙◌, arith, append_assoc, none, some, inl, inr, Option, ◌+◌, ◌-◌, ◌≤◌,
  ◌<◌, zero, suc, append-nil,
}

abbrev pub uc_encoder_cfg : EncoderConfig
uc_encoder_cfg = record encoder_cfg { encode_level = capital_level_encoder }

module _ (zap : Zap) (log_file std_out : ℕ) where
  unfoldable pub file_logger : zap.Logger
  file_logger = zap.new (zap.new_core (json_encoder encoder_cfg) log_file info_level) no_options

  -- The function that `zap.WrapCore` gets.
  unfoldable pub tee_core : zap.Core → zap.Core
  tee_core c = zap.new_tee c (zap.new_core (console_encoder uc_encoder_cfg) std_out debug_level)

  unfoldable pub tee_logger : zap.Logger
  unfolding file_logger tee_core
  tee_logger = zap.wrap_core file_logger tee_core

  abbrev pub file_entries : (ℕ → ℕ) → List (ℕ × ℤ × Bytes)
  file_entries clock =
      (clock 0, debug_level, codes "this is below the logger's threshold and won't log")
      ∷ (clock 1, error_level, codes "this is logged by the logger")
      ∷ []

  abbrev pub tee_entries : (ℕ → ℕ) → List (ℕ × ℤ × Bytes)
  tee_entries clock =
      (clock 2, debug_level, codes "this is only logged as console encoding")
      ∷ (clock 3, info_level, codes "this is logged as console encoding and JSON")
      ∷ []

  unfoldable pub before_print : (ℕ → ℕ) → zap.World → zap.World
  unfolding tee_logger
  before_print clock w =
      let w' =
        zap.print std_out (codes "standard output:\n")
          (log_all zap file_logger (file_entries clock) w) in
      log_all zap tee_logger (tee_entries clock) w'

  -- Example_zapInfoFileDebugConsole, with what it prints. A clock has the times of the calls.
  unfoldable pub example_tee : (ℕ → ℕ) → zap.World → zap.World
  unfolding before_print
  example_tee clock w =
      let w' = before_print clock w in
      zap.print std_out (codes "\nlog file contents:\n" ++ zap.written log_file w') w'

module _ (zap : Zap) (law : IsLawful zap) (log_file std_out : ℕ) where
  log-tee_logger :
      (t : ℕ) (level : ℤ) (msg : Bytes) (w : zap.World)
      → let e = zap.entry (file_logger zap log_file std_out) t level msg in
        log zap (tee_logger zap log_file std_out) t level msg w
        ≡ zap.write
            (zap.new_core (console_encoder uc_encoder_cfg) std_out debug_level)
            e
            (zap.write (zap.new_core (json_encoder encoder_cfg) log_file info_level) e w)
  unfolding tee_logger tee_core file_logger
  log-tee_logger t level msg w =
      let l = file_logger zap log_file std_out in
      let c =
        law.core-wrap_core l (tee_core zap log_file std_out)
        ∙ ap (tee_core zap log_file std_out) (law.core-new _ no_options) in
      ap₂ (λ (d : zap.Core) (e : Entry). zap.write d e w) c
        (law.entry-wrap_core l (tee_core zap log_file std_out) t level msg)
      ∙ law.write-new_tee _ _ _ w

  pub level-entry :
      (t : ℕ) (level : ℤ) (msg : Bytes)
      → (zap.entry (file_logger zap log_file std_out) t level msg).level ≡ level
  unfolding file_logger
  level-entry t level msg = rw law.entry-new refl

  module _ (apart : log_file ≢ std_out) where
    file_line :
        (t : ℕ) (level : ℤ) (msg : Bytes) (w : zap.World)
        → zap.written log_file (log zap (tee_logger zap log_file std_out) t level msg w)
          ≡ zap.written log_file w
            ++ line_at zap
                (json_encoder encoder_cfg)
                info_level
                (file_logger zap log_file std_out)
                t
                level
                msg
    file_line t level msg w =
        let e = zap.entry (file_logger zap log_file std_out) t level msg in
        ap (zap.written log_file) (log-tee_logger t level msg w)
        ∙ written_other zap law _ std_out debug_level e _ log_file apart
        ∙ written_own zap law _ log_file info_level e w
        ∙ ap
            (λ (v : ℤ).
              zap.written log_file w ++ (if int_leb info_level v then zap.encode _ e else []))
            (level-entry t level msg)

    out_line :
        (t : ℕ) (level : ℤ) (msg : Bytes) (w : zap.World)
        → zap.written std_out (log zap (tee_logger zap log_file std_out) t level msg w)
          ≡ zap.written std_out w
            ++ line_at zap
                (console_encoder uc_encoder_cfg)
                debug_level
                (file_logger zap log_file std_out)
                t
                level
                msg
    out_line t level msg w =
        let e = zap.entry (file_logger zap log_file std_out) t level msg in
        let v = zap.write (zap.new_core (json_encoder encoder_cfg) log_file info_level) e w in
        ap (zap.written std_out) (log-tee_logger t level msg w)
        ∙ written_own zap law _ std_out debug_level e v
        ∙ ap₂
            (λ (s : Bytes) (x : ℤ).
              s
              ++ (if int_leb debug_level x
                  then zap.encode (console_encoder uc_encoder_cfg) e
                  else []))
            (written_other zap law _ log_file info_level e w std_out (λ k. apart (sym k)))
            (level-entry t level msg)

  -- With a zap library that behaves as documented and two different writers, whatever is logged
  -- behind the tee, the log file gets, as JSON, what is at the info level or above, and the
  -- standard output, for the console, what is at the debug level or above, each with its time and in the
  -- order in which it was logged.
  pub written-tee_logger :
      (es : List (ℕ × ℤ × Bytes)) (w : zap.World)
      → log_file ≢ std_out
      → let l = file_logger zap log_file std_out in
        let w' = log_all zap (tee_logger zap log_file std_out) es w in
        (zap.written log_file w'
          ≡ zap.written log_file w
            ++ gather (line_at zap (json_encoder encoder_cfg) info_level l) es)
        × (zap.written std_out w'
            ≡ zap.written std_out w
              ++ gather (line_at zap (console_encoder uc_encoder_cfg) debug_level l) es)
  written-tee_logger es w apart = (
    written-log_all zap _ log_file _ (file_line apart) es w,
    written-log_all zap _ std_out _ (out_line apart) es w,
  )
