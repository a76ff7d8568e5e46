-- ===== src/Logs.antt =====
-- chapter13/encoder.go: the configuration of the encoders, and what the zap examples use of
-- go.uber.org/zap, which is a parameter.
pub mod Lines
pub mod Named
pub mod Tee
pub mod Sampled
use networking_in_go.Prelude.{
  ℕ, ◌+◌, ◌-◌, ◌%◌, ◌==◌, leb, ℤ, pos, negsuc, int_leb, Bool, true, false, ◌&&◌, ◌||◌, List, [],
  ◌∷◌, ◌++◌, ◌≡◌, Bytes, codes, equal, if◌then◌else◌, none, some, refl, inl, inr, Option, ◌≤◌, ◌<◌,
  zero, suc, ap, sym, ◌∙◌,
}

pub data LevelEncoder : Type 0 where
  lowercase_level_encoder capital_level_encoder : LevelEncoder

pub data CallerEncoder : Type 0 where
  short_caller_encoder : CallerEncoder

pub data TimeEncoder : Type 0 where
  iso8601_time_encoder : TimeEncoder

pub record EncoderConfig : Type 0 where
  pub message_key : Bytes
  pub name_key : Bytes
  pub level_key : Bytes
  pub encode_level : LevelEncoder
  pub caller_key : Bytes
  pub encode_caller : CallerEncoder
  pub time_key : Bytes
  pub encode_time : TimeEncoder

abbrev pub encoder_cfg : EncoderConfig
encoder_cfg = record {
  message_key = codes "message";
  name_key = codes "name";
  level_key = codes "level";
  encode_level = lowercase_level_encoder;
  caller_key = codes "caller";
  encode_caller = short_caller_encoder;
  time_key = codes "time";
  encode_time = iso8601_time_encoder;
}

pub data Encoder : Type 0 where
  json_encoder console_encoder : EncoderConfig → Encoder

abbrev pub debug_level : ℤ
debug_level = negsuc 0

abbrev pub info_level : ℤ
info_level = pos 0

abbrev pub error_level : ℤ
error_level = pos 2

-- What is logged: the time of the call, in nanoseconds, whether the caller is noted, and the fields by their keys.
pub record Entry : Type 0 where
  pub time : ℕ
  pub level : ℤ
  pub name : Bytes
  pub message : Bytes
  pub caller : Bool
  pub fields : List (Bytes × Bytes)

-- The options of `zap.New` that the examples give.
pub record Options : Type 0 where
  pub add_caller : Bool
  pub with_fields : List (Bytes × Bytes)

abbrev pub no_options : Options
no_options = record { add_caller = false; with_fields = [] }

-- The library. A writer is known by a number; `World` is what all writers have, and what samplers know.
pub record Zap : Type 1 where
  pub Core : Type 0
  pub Logger : Type 0
  pub World : Type 0
  pub new_core : Encoder → ℕ → ℤ → Core
  pub new_tee : Core → Core → Core
  -- For ticks of one second: how many entries of a kind are let pass, and each which one after them.
  pub new_sampler : Core → ℕ → ℕ → Core
  pub new : Core → Options → Logger
  pub named : Logger → Bytes → Logger
  pub wrap_core : Logger → (Core → Core) → Logger
  pub core : Logger → Core
  pub entry : Logger → ℕ → ℤ → Bytes → Entry  -- at a time
  pub write : Core → Entry → World → World
  pub encode : Encoder → Entry → Bytes
  -- `fmt.Print` to a writer, a second's sleep, and what a writer has got.
  pub print : ℕ → Bytes → World → World
  pub sleep : World → World
  pub written : ℕ → World → Bytes

-- A core writes what is at its level or above, a tee to both of its cores; a logger has a core, a name and
-- options.
pub record IsLawful (zap : Zap) : Type 0 where
  pub written-new_core :
      (enc : Encoder) (i : ℕ) (level : ℤ) (e : Entry) (w : zap.World) (j : ℕ)
      → zap.written j (zap.write (zap.new_core enc i level) e w) ≡ (
          if j == i && int_leb level e.level
          then zap.written j w ++ zap.encode enc e
          else zap.written j w)
  pub write-new_tee :
      (c d : zap.Core) (e : Entry) (w : zap.World)
      → zap.write (zap.new_tee c d) e w ≡ zap.write d e (zap.write c e w)
  pub written-print :
      (i : ℕ) (s : Bytes) (w : zap.World) (j : ℕ)
      → zap.written j (zap.print i s w) ≡ (if j == i then zap.written j w ++ s else zap.written j w)
  pub core-new : (c : zap.Core) (o : Options) → zap.core (zap.new c o) ≡ c
  pub core-named : (l : zap.Logger) (s : Bytes) → zap.core (zap.named l s) ≡ zap.core l
  pub core-wrap_core :
      (l : zap.Logger) (f : zap.Core → zap.Core) → zap.core (zap.wrap_core l f) ≡ f (zap.core l)
  pub entry-new :
      (c : zap.Core) (o : Options) (t : ℕ) (level : ℤ) (msg : Bytes)
      → zap.entry (zap.new c o) t level msg ≡ record {
        time = t;
        level = level;
        name = [];
        message = msg;
        caller = o.add_caller;
        fields = o.with_fields;
      }
  pub entry-named :
      (c : zap.Core) (o : Options) (s : Bytes) (t : ℕ) (level : ℤ) (msg : Bytes)
      → zap.entry (zap.named (zap.new c o) s) t level msg
        ≡ record (zap.entry (zap.new c o) t level msg) { name = s }
  pub entry-wrap_core :
      (l : zap.Logger) (f : zap.Core → zap.Core) (t : ℕ) (level : ℤ) (msg : Bytes)
      → zap.entry (zap.wrap_core l f) t level msg ≡ zap.entry l t level msg

-- `Debug`, `Info` and `Error` of a logger, at a time.
abbrev pub log : (zap : Zap) → zap.Logger → ℕ → ℤ → Bytes → zap.World → zap.World
log zap l t level msg w = zap.write (zap.core l) (zap.entry l t level msg) w
