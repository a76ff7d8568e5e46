-- ===== src/Logs/Sampled/Turns.antt =====
-- chapter13/sample.go: which entries of the loop are let pass.
use networking_in_go.Go.Decimal.{digits}
use networking_in_go.Go.Decimal.Printed.{sprintf_d, digits-sprintf_d}
use networking_in_go.Logs.{Zap, IsLawful, json_encoder, encoder_cfg, no_options, debug_level, log}
use networking_in_go.Logs.Lines.{written_own, if_append}
use networking_in_go.Logs.Sampled.{
  sampled, IsSampler, inner_core, sample_logger, pause_at, sample_turn, sample_loop,
}
use networking_in_go.Prelude.{
  ap₂, int_leb, ℕ, zero, suc, ◌+◌, ◌-◌, ◌*◌, ◌%◌, ◌==◌, ◌≤◌, ltb, leb, ℤ, Bool, true, false, ◌≡◌,
  ◌≢◌, refl, ap, sym, ◌∙◌, arith, [], ◌++◌, Bytes, codes, if◌then◌else◌, Bool-cases, inl, inr,
  append_assoc, append-nil, some,
}
use mathlib.Core.Option.{some-injective}

sprintf_d-injective : (a b : ℕ) → sprintf_d a ≡ sprintf_d b → a ≡ b
sprintf_d-injective a b h =
    some-injective a b (sym (digits-sprintf_d a) ∙ ap (λ s. digits s 0) h ∙ digits-sprintf_d b)

sprintf_d_other : (n : ℕ) → sprintf_d n ≢ codes "debug message"
unfolding digits
sprintf_d_other n h =
    let e : some n ≡ digits (codes "debug message") 0 =
      sym (digits-sprintf_d n) ∙ ap (λ s. digits s 0) h in
    cc

-- The turns since the beginning or the pause.
abbrev pub since : ℕ → ℕ → ℕ
since pause i = if ltb i pause then i else i - pause

sampled_third : (n : ℕ) → sampled 1 3 n ≡ (n % 3 == 0)
unfolding sampled
sampled_third n = ground arith

zero_since : (pause i : ℕ) → (i == pause) ≡ true → 0 ≡ since pause i
zero_since pause i h = ground arith

same_since :
    (pause i : ℕ) → (i == pause) ≡ false → (if leb i pause then i else i - pause) ≡ since pause i
same_since pause i h = ground arith

next_since :
    (pause i : ℕ) → since pause i + 1 ≡ (if leb (suc i) pause then suc i else suc i - pause)
next_since pause i = ground arith

module _ (zap : Zap) (std_out : ℕ) where
  abbrev pub line : ℕ → Bytes → Bytes
  line t msg =
      zap.encode (json_encoder encoder_cfg)
        (zap.entry (sample_logger zap std_out) t debug_level msg)

  -- The lines of one turn: the number, and the repeated message at each third turn of its interval.
  pub turn_lines : (ℕ → ℕ) → ℕ → ℕ → Bytes
  turn_lines clock pause i =
      line (clock (2 * i)) (sprintf_d i)
      ++ (if since pause i % 3 == 0 then line (clock (2 * i + 1)) (codes "debug message") else [])

  -- The lines of so many turns.
  pub loop_lines : (ℕ → ℕ) → ℕ → ℕ → ℕ → Bytes
  unfolding turn_lines
  loop_lines clock pause zero i = []
  loop_lines clock pause (suc n) i = turn_lines clock pause i ++ loop_lines clock pause n (suc i)

module _ (zap : Zap) (law : IsLawful zap) (seen : ℤ → Bytes → zap.World → ℕ) (std_out : ℕ)
    (sampler : IsSampler zap seen (inner_core zap std_out) 1 3) where
  abbrev put : ℕ → Bytes → zap.World → zap.World
  put t msg w = log zap (sample_logger zap std_out) t debug_level msg w

  put_lem :
      (t : ℕ) (msg : Bytes) (w : zap.World)
      → put t msg w
        ≡ zap.write
            (zap.new_sampler (inner_core zap std_out) 1 3)
            (zap.entry (sample_logger zap std_out) t debug_level msg)
            w
  unfolding sample_logger
  put_lem t msg w =
      ap (λ (c : zap.Core). zap.write c (zap.entry (sample_logger zap std_out) t debug_level msg) w)
        (law.core-new _ no_options)

  entry_lem :
      (t : ℕ) (msg : Bytes)
      → let e = zap.entry (sample_logger zap std_out) t debug_level msg in
        (e.level ≡ debug_level) × (e.message ≡ msg)
  unfolding sample_logger
  entry_lem t msg = rw law.entry-new (refl, refl)

  written-put :
      (t : ℕ) (msg : Bytes) (w : zap.World)
      → zap.written std_out (put t msg w)
        ≡ zap.written std_out w
          ++ (if seen debug_level msg w % 3 == 0 then line zap std_out t msg else [])
  written-put t msg w =
      let e = zap.entry (sample_logger zap std_out) t debug_level msg in
      let (level, message) = entry_lem t msg in
      let passed : zap.written std_out (zap.write (inner_core zap std_out) e w)
          ≡ zap.written std_out w ++ line zap std_out t msg =
        written_own zap law (json_encoder encoder_cfg) std_out debug_level e w
        ∙ ap
            (λ (v : ℤ).
              zap.written std_out w
              ++ (if int_leb debug_level v then line zap std_out t msg else []))
            level in
      let test : sampled 1 3 (seen e.level e.message w) ≡ (seen debug_level msg w % 3 == 0) =
        ap₂ (λ (v : ℤ) (m : Bytes). sampled 1 3 (seen v m w)) level message ∙ sampled_third _ in
      ap (zap.written std_out) (put_lem t msg w)
      ∙ sampler.written-sampler e w std_out
      ∙ ap₂ (λ (b : Bool) (s : Bytes). if b then s else zap.written std_out w) test passed
      ∙ if_append _ (zap.written std_out w) (line zap std_out t msg)

  seen-put :
      (t : ℕ) (msg : Bytes) (w : zap.World)
      → seen debug_level msg (put t msg w) ≡ seen debug_level msg w + 1
  seen-put t msg w =
      let e = zap.entry (sample_logger zap std_out) t debug_level msg in
      let (level, message) = entry_lem t msg in
      ap (seen debug_level msg) (put_lem t msg w)
      ∙ ap₂
          (λ (v : ℤ) (m : Bytes).
            seen v m (zap.write (zap.new_sampler (inner_core zap std_out) 1 3) e w))
          (sym level) (sym message)
      ∙ sampler.seen_same e w
      ∙ ap₂ (λ (v : ℤ) (m : Bytes). seen v m w + 1) level message

  seen-put_other :
      (t : ℕ) (msg msg' : Bytes) (w : zap.World)
      → msg' ≢ msg
      → seen debug_level msg' (put t msg w) ≡ seen debug_level msg' w
  seen-put_other t msg msg' w h =
      ap (seen debug_level msg') (put_lem t msg w)
      ∙ sampler.seen_other (zap.entry (sample_logger zap std_out) t debug_level msg) w debug_level
          msg' (λ k. h (k ∙ (entry_lem t msg).1))

  -- What was seen before turn i: of the repeated message one for each turn of the interval, which ends at the
  -- pause, and no number from i on.
  pub record IsCounted (pause i : ℕ) (w : zap.World) : Type 0 where
    pub repeated :
        seen debug_level (codes "debug message") w ≡ (if leb i pause then i else i - pause)
    pub unseen : (k : ℕ) → i ≤ k → seen debug_level (sprintf_d k) w ≡ 0

  -- The same behind the pause, where the counts begin again.
  paused :
      (pause i : ℕ) (w : zap.World)
      → IsCounted pause i w
      → (seen debug_level (codes "debug message") (pause_at zap std_out pause i w) ≡ since pause i)
        × ((k : ℕ) → i ≤ k → seen debug_level (sprintf_d k) (pause_at zap std_out pause i w) ≡ 0)
        × (zap.written std_out (pause_at zap std_out pause i w) ≡ zap.written std_out w)
  unfolding pause_at
  paused pause i w h = elim (Bool-cases (i == pause)) [
    | inl e ↦ rw e (
      sampler.seen-sleep w debug_level (codes "debug message") ∙ zero_since pause i e,
      λ k l. sampler.seen-sleep w debug_level (sprintf_d k),
      sampler.written-sleep w std_out,
    )
    | inr e ↦ rw e (h.repeated ∙ same_since pause i e, h.unseen, refl)
  ]

  sample_turn_lem :
      (clock : ℕ → ℕ) (pause i : ℕ) (w : zap.World)
      → IsCounted pause i w
      → IsCounted pause (suc i) (sample_turn zap std_out clock pause i w)
        × (zap.written std_out (sample_turn zap std_out clock pause i w)
            ≡ zap.written std_out w ++ turn_lines zap std_out clock pause i)
  unfolding sample_turn turn_lines
  sample_turn_lem clock pause i w h =
      let (repeated, unseen, same) = paused pause i w h in
      let w' = pause_at zap std_out pause i w in
      let mid =
        seen-put_other (clock (2 * i)) (sprintf_d i) (codes "debug message") w'
          (λ k. sprintf_d_other i (sym k)) in
      (
        record {
          repeated =
              seen-put (clock (2 * i + 1)) (codes "debug message")
                (put (clock (2 * i)) (sprintf_d i) w')
              ∙ ap (λ (n : ℕ). n + 1) (mid ∙ repeated)
              ∙ next_since pause i;
          unseen = λ k l.
              seen-put_other (clock (2 * i + 1)) (codes "debug message") (sprintf_d k) _
                (sprintf_d_other k)
              ∙ seen-put_other (clock (2 * i)) (sprintf_d i) (sprintf_d k) w'
                  (λ e. let same_number = sprintf_d-injective k i e in absurd (omega arith))
              ∙ unseen k (omega arith);
        },
        written-put (clock (2 * i + 1)) (codes "debug message")
              (put (clock (2 * i)) (sprintf_d i) w')
            ∙ ap₂
                (λ (s : Bytes) (n : ℕ).
                  s
                  ++ (if n % 3 == 0
                      then line zap std_out (clock (2 * i + 1)) (codes "debug message")
                      else []))
                (written-put (clock (2 * i)) (sprintf_d i) w'
                  ∙ ap₂
                      (λ (s : Bytes) (n : ℕ).
                        s
                        ++ (if n % 3 == 0
                            then line zap std_out (clock (2 * i)) (sprintf_d i)
                            else []))
                      same (unseen i (omega arith)))
                (mid ∙ repeated)
            ∙ append_assoc (zap.written std_out w) (line zap std_out (clock (2 * i)) (sprintf_d i))
                (if since pause i % 3 == 0
                  then line zap std_out (clock (2 * i + 1)) (codes "debug message")
                  else []),
      )

  written-sample_loop :
      (clock : ℕ → ℕ) (pause n i : ℕ) (w : zap.World)
      → IsCounted pause i w
      → zap.written std_out (sample_loop zap std_out clock pause n i w)
        ≡ zap.written std_out w ++ loop_lines zap std_out clock pause n i
  unfolding sample_loop loop_lines
  written-sample_loop clock pause zero i w h = sym (append-nil (zap.written std_out w))
  written-sample_loop clock pause (suc n) i w h =
      let (next, e) = sample_turn_lem clock pause i w h in
      written-sample_loop clock pause n (suc i) _ next
      ∙ ap (λ s. s ++ loop_lines zap std_out clock pause n (suc i)) e
      ∙ append_assoc (zap.written std_out w) (turn_lines zap std_out clock pause i)
          (loop_lines zap std_out clock pause n (suc i))

  -- Of the loop of Example_zapSampling, for any number of turns and a pause at any turn, the output
  -- has the number of each turn with its time, and the message that is repeated at each third turn from the
  -- beginning, and at each third turn from the pause on. The zap library behaves as documented, the
  -- turns before and behind the pause lie in one tick each, and the sampler has seen nothing
  -- before.
  pub written-sample_loop_fresh :
      (clock : ℕ → ℕ) (pause n : ℕ) (w : zap.World)
      → ((msg : Bytes) → seen debug_level msg w ≡ 0)
      → zap.written std_out (sample_loop zap std_out clock pause n 0 w)
        ≡ zap.written std_out w ++ loop_lines zap std_out clock pause n 0
  written-sample_loop_fresh clock pause n w fresh = written-sample_loop clock pause n 0 w (record {
    repeated = fresh (codes "debug message") ∙ (ground arith);
    unseen = λ k l. fresh (sprintf_d k);
  })
