-- ===== src/Logs/Tee/Printed.antt =====
-- chapter13/concurrent.go: what the example prints.
use networking_in_go.Logs.{
  Zap, IsLawful, json_encoder, console_encoder, encoder_cfg, no_options, debug_level, info_level,
  error_level, log,
}
use networking_in_go.Logs.Lines.{
  log_all, gather, line_at, written-log_all, written_own, written_other,
}
use networking_in_go.Logs.Tee.{
  uc_encoder_cfg, file_logger, file_entries, tee_entries, before_print, example_tee, level-entry,
  written-tee_logger,
}
use networking_in_go.Prelude.{
  ℕ, ◌==◌, ℤ, int_leb, true, false, [], ◌++◌, ◌≡◌, ◌≢◌, refl, Bytes, codes, if◌then◌else◌, ap, sym,
  ◌∙◌, arith, append_assoc, append-nil,
}

-- What is written in three parts, the last of which comes from another writer.
assemble :
    {s s' t t' t'' : Bytes} (a b c d e f g : Bytes)
    → s ≡ s' ++ (c ++ (d ++ []))
    → s' ≡ a ++ b
    → t ≡ t' ++ (g ++ [])
    → t' ≡ t'' ++ (f ++ [])
    → t'' ≡ []
    → s ++ (e ++ t) ≡ a ++ (b ++ (c ++ (d ++ (e ++ (f ++ g)))))
assemble a b c d e f g h h' k k' k'' = rw (h, h', k, k', k'') (simp (append_assoc, append-nil) refl)

module _ (zap : Zap) (law : IsLawful zap) (log_file std_out : ℕ) where
  log-file_logger :
      (t : ℕ) (level : ℤ) (msg : Bytes) (w : zap.World)
      → log zap (file_logger zap log_file std_out) t level msg w
        ≡ zap.write
            (zap.new_core (json_encoder encoder_cfg) log_file info_level)
            (zap.entry (file_logger zap log_file std_out) t level msg)
            w
  unfolding file_logger
  log-file_logger t level msg w =
      ap
        (λ (c : zap.Core). zap.write c (zap.entry (file_logger zap log_file std_out) t level msg) w)
        (law.core-new _ no_options)

  written_self_print :
      (i : ℕ) (s : Bytes) (w : zap.World) → zap.written i (zap.print i s w) ≡ zap.written i w ++ s
  written_self_print i s w =
      let same : (i == i) ≡ true = ground arith in law.written-print i s w i ∙ rw same refl

  module _ (clock : ℕ → ℕ) (apart : log_file ≢ std_out) (w : zap.World) where
    printed : zap.World
    printed =
        zap.print std_out (codes "standard output:\n") (
          log_all zap (file_logger zap log_file std_out) (file_entries zap log_file std_out clock)
            w)

    file_printed :
        zap.written log_file printed
        ≡ zap.written log_file w
          ++ (zap.encode (json_encoder encoder_cfg) (
                zap.entry
                  (file_logger zap log_file std_out)
                  (clock 1)
                  error_level
                  (codes "this is logged by the logger"))
              ++ [])
    unfolding printed gather
    file_printed =
        let l = file_logger zap log_file std_out in
        let other : (log_file == std_out) ≡ false = ground arith in
        law.written-print std_out _ _ log_file
        ∙ rw other (
            written-log_all zap l log_file (line_at zap (json_encoder encoder_cfg) info_level l)
              (λ t level msg v.
                ap (zap.written log_file) (log-file_logger t level msg v)
                ∙ written_own zap law _ log_file info_level _ v
                ∙ ap
                    (λ (x : ℤ).
                      zap.written log_file v
                      ++ (if int_leb info_level x
                          then zap.encode (json_encoder encoder_cfg) (zap.entry l t level msg)
                          else []))
                    (level-entry zap law log_file std_out t level msg))
              (file_entries zap log_file std_out clock) w)

    quiet :
        (t : ℕ) (level : ℤ) (msg : Bytes) (v : zap.World)
        → zap.written std_out (log zap (file_logger zap log_file std_out) t level msg v)
          ≡ zap.written std_out v
    quiet t level msg v =
        ap (zap.written std_out) (log-file_logger t level msg v)
        ∙ written_other zap law _ log_file info_level _ v std_out (λ k. apart (sym k))

    out_printed : zap.written std_out printed ≡ zap.written std_out w ++ codes "standard output:\n"
    unfolding printed log_all
    out_printed =
        written_self_print std_out _ _
        ∙ ap (λ s. s ++ codes "standard output:\n") (quiet _ _ _ _ ∙ quiet _ _ _ _)

  -- Example_zapInfoFileDebugConsole prints the two console lines between its own two texts, and then
  -- the log file, which has the error from before the tee and the second of the two lines, as JSON.
  pub written-example_tee :
      (clock : ℕ → ℕ) (w : zap.World)
      → log_file ≢ std_out
      → zap.written log_file w ≡ []
      → let l = file_logger zap log_file std_out in
        let json = λ (t : ℕ) (level : ℤ) (msg : Bytes).
          zap.encode (json_encoder encoder_cfg) (zap.entry l t level msg) in
        let console = λ (t : ℕ) (level : ℤ) (msg : Bytes).
          zap.encode (console_encoder uc_encoder_cfg) (zap.entry l t level msg) in
        zap.written std_out (example_tee zap log_file std_out clock w)
        ≡ zap.written std_out w
          ++ (codes "standard output:\n"
              ++ (console (clock 2) debug_level (codes "this is only logged as console encoding")
                  ++ (console
                        (clock 3)
                        info_level
                        (codes "this is logged as console encoding and JSON")
                      ++ (codes "\nlog file contents:\n"
                          ++ (json (clock 1) error_level (codes "this is logged by the logger")
                              ++ json
                                  (clock 3)
                                  info_level
                                  (codes "this is logged as console encoding and JSON"))))))
  unfolding example_tee before_print printed gather
  written-example_tee clock w apart empty =
      let (file, out) =
        written-tee_logger zap law log_file std_out (tee_entries zap log_file std_out clock)
          (printed clock apart w) apart in
      let l = file_logger zap log_file std_out in
      let json = λ (t : ℕ) (level : ℤ) (msg : Bytes).
        zap.encode (json_encoder encoder_cfg) (zap.entry l t level msg) in
      let console = λ (t : ℕ) (level : ℤ) (msg : Bytes).
        zap.encode (console_encoder uc_encoder_cfg) (zap.entry l t level msg) in
      written_self_print std_out _ _
      ∙ assemble (zap.written std_out w) (codes "standard output:\n")
          (console (clock 2) debug_level (codes "this is only logged as console encoding"))
          (console (clock 3) info_level (codes "this is logged as console encoding and JSON"))
          (codes "\nlog file contents:\n")
          (json (clock 1) error_level (codes "this is logged by the logger"))
          (json (clock 3) info_level (codes "this is logged as console encoding and JSON")) out
          (out_printed clock apart w) file (file_printed clock apart w) empty
