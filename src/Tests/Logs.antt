-- ===== src/Tests/Logs.antt =====
-- Tests of the zap examples of chapter13, with a library of their own: the line of an entry is its time and its message.
use networking_in_go.Logs.{
  Zap, IsLawful, Encoder, json_encoder, console_encoder, encoder_cfg, Entry, Options, debug_level,
  info_level, error_level,
}
use networking_in_go.Logs.Lines.{log_all, gather, line_at}
use networking_in_go.Logs.Tee.{uc_encoder_cfg, file_logger, tee_logger, written-tee_logger}
use networking_in_go.Logs.Sampled.{sampled, IsSampler, inner_core, sample_loop}
use networking_in_go.Logs.Sampled.Turns.{loop_lines, written-sample_loop_fresh}
use networking_in_go.Prelude.{
  ℕ, ◌+◌, ◌==◌, ℤ, int_leb, Bool, true, false, ◌&&◌, List, [], ◌∷◌, ◌++◌, ◌≡◌, refl, Bytes, codes,
  equal, equal_iff, equal_self, if◌then◌else◌, arith,
}

data Core : Type 0 where
  plain : Encoder → ℕ → ℤ → Core
  tee : Core → Core → Core
  sampler : Core → ℕ → ℕ → Core

record Logger : Type 0 where
  pub core : Core
  pub name : Bytes
  pub options : Options

record World : Type 0 where
  pub outs : ℕ → Bytes
  pub seen : ℤ → Bytes → ℕ

abbrev encode : Encoder → Entry → Bytes
encode enc e = e.time ∷ e.message ++ codes "\n"

abbrev put : Bool → ℕ → Bytes → World → World
put b i s w = record w { outs = λ j. if j == i && b then w.outs j ++ s else w.outs j }

-- The counts are by message.
abbrev count : Entry → World → World
count e w = record w {
  seen = λ level msg. if equal msg e.message then w.seen level msg + 1 else w.seen level msg;
}

abbrev write : Core → Entry → World → World
write (plain enc i level) e w = put (int_leb level e.level) i (encode enc e) w
write (tee c d) e w = write d e (write c e w)
write (sampler c first m) e w =
    let passed = write c e w in
    count e (record w {
      outs = if sampled first m (w.seen e.level e.message) then passed.outs else w.outs;
    })

abbrev zap : Zap
zap = record {
  Core = Core;
  Logger = Logger;
  World = World;
  new_core = plain;
  new_tee = tee;
  new_sampler = sampler;
  new = λ c o. record { core = c; name = []; options = o };
  named = λ l s. record l { name = s };
  wrap_core = λ l f. record l { core = f l.core };
  core = λ l. l.core;
  entry = λ l t level msg. record {
    time = t;
    level = level;
    name = l.name;
    message = msg;
    caller = l.options.add_caller;
    fields = l.options.with_fields;
  };
  write = write;
  encode = encode;
  print = λ i s w. record w { outs = λ j. if j == i then w.outs j ++ s else w.outs j };
  sleep = λ w. record w { seen = λ level msg. 0 };
  written = λ j w. w.outs j;
}

zap-IsLawful : IsLawful zap
zap-IsLawful = record {
  written-new_core = λ enc i level e w j. refl;
  write-new_tee = λ c d e w. refl;
  written-print = λ i s w j. refl;
  core-new = λ c o. refl;
  core-named = λ l s. refl;
  core-wrap_core = λ l f. refl;
  entry-new = λ c o t level msg. refl;
  entry-named = λ c o s t level msg. refl;
  entry-wrap_core = λ l f t level msg. refl;
}

abbrev seen : ℤ → Bytes → World → ℕ
seen level msg w = w.seen level msg

choose : (b : Bool) (p q : ℕ → Bytes) (j : ℕ) → (if b then p else q) j ≡ (if b then p j else q j)
choose true p q j = refl
choose false p q j = refl

zap-IsSampler : (c : Core) (first m : ℕ) → IsSampler zap seen c first m
zap-IsSampler c first m = record {
  written-sampler = λ e w j. choose (sampled first m (w.seen e.level e.message)) _ _ j;
  seen_same = λ e w. rw (equal_self e.message) refl;
  seen_other = λ e w level msg h.
      let other : equal msg e.message ≡ false = ground (arith, equal_iff msg e.message) in
      rw other refl;
  seen-sleep = λ w level msg. refl;
  written-sleep = λ w j. refl;
}

abbrev empty : World
empty = record { outs = λ j. []; seen = λ level msg. 0 }

abbrev entries : List (ℕ × ℤ × Bytes)
entries =
    (3, debug_level, codes "d") ∷ (5, info_level, codes "i") ∷ (8, error_level, codes "e") ∷ []

written-tee_logger_example :
    let l = file_logger zap 0 1 in
    let w = log_all zap (tee_logger zap 0 1) entries empty in
    (w.outs 0 ≡ gather (line_at zap (json_encoder encoder_cfg) info_level l) entries)
    × (w.outs 1 ≡ gather (line_at zap (console_encoder uc_encoder_cfg) debug_level l) entries)
written-tee_logger_example =
    written-tee_logger zap zap-IsLawful 0 1 entries empty (λ e. ground arith)

written-sample_loop_fresh_example :
    (sample_loop zap 1 (λ n. n) 5 10 0 empty).outs 1 ≡ loop_lines zap 1 (λ n. n) 5 10 0
written-sample_loop_fresh_example =
    written-sample_loop_fresh zap zap-IsLawful seen 1 (zap-IsSampler (inner_core zap 1) 1 3)
      (λ n. n) 5 10 empty (λ msg. refl)
