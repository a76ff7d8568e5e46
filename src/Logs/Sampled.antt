-- ===== src/Logs/Sampled.antt =====
-- chapter13/sample.go: the example with a sampler, and the loop of its entries.
pub mod Turns
use networking_in_go.Go.Decimal.Printed.{sprintf_d}
use networking_in_go.Logs.{Zap, Entry, json_encoder, encoder_cfg, no_options, debug_level, log}
use networking_in_go.Prelude.{
  ℕ, zero, suc, ◌+◌, ◌-◌, ◌*◌, ◌%◌, ◌==◌, leb, ℤ, Bool, ◌||◌, ◌≡◌, ◌≢◌, Bytes, codes, if◌then◌else◌,
  none, some, [], ◌∷◌, true, false, refl, inl, inr, Option, List, ◌++◌, ◌≤◌, ◌<◌, ap, sym, ◌∙◌,
}

-- Whether an entry is let pass of whose kind so many were there before: the first ones, and each m-th after them.
unfoldable pub sampled : ℕ → ℕ → ℕ → Bool
sampled first m n = leb (n + 1) first || (n + 1 - first) % m == 0

-- The sampler in front of a core, which counts for each level and message the entries since the last sleep.
-- The entries between two sleeps lie in one tick.
pub record IsSampler (zap : Zap) (seen : ℤ → Bytes → zap.World → ℕ) (c : zap.Core) (first m : ℕ)
    : Type 0 where
  pub written-sampler :
      (e : Entry) (w : zap.World) (j : ℕ)
      → zap.written j (zap.write (zap.new_sampler c first m) e w) ≡ (
          if sampled first m (seen e.level e.message w)
          then zap.written j (zap.write c e w)
          else zap.written j w)
  pub seen_same :
      (e : Entry) (w : zap.World)
      → seen e.level e.message (zap.write (zap.new_sampler c first m) e w)
        ≡ seen e.level e.message w + 1
  pub seen_other :
      (e : Entry) (w : zap.World) (level : ℤ) (msg : Bytes)
      → msg ≢ e.message
      → seen level msg (zap.write (zap.new_sampler c first m) e w) ≡ seen level msg w
  pub seen-sleep : (w : zap.World) (level : ℤ) (msg : Bytes) → seen level msg (zap.sleep w) ≡ 0
  pub written-sleep : (w : zap.World) (j : ℕ) → zap.written j (zap.sleep w) ≡ zap.written j w

module _ (zap : Zap) (std_out : ℕ) where
  abbrev pub inner_core : zap.Core
  inner_core = zap.new_core (json_encoder encoder_cfg) std_out debug_level

  unfoldable pub sample_logger : zap.Logger
  sample_logger = zap.new (zap.new_sampler inner_core 1 3) no_options

  -- The pause of a second at a turn, `time.Sleep(time.Second)`.
  unfoldable pub pause_at : ℕ → ℕ → zap.World → zap.World
  pause_at pause i w = if i == pause then zap.sleep w else w

  -- A clock has the times of the calls, two in each turn.
  unfoldable pub sample_turn : (ℕ → ℕ) → ℕ → ℕ → zap.World → zap.World
  unfolding sample_logger pause_at
  sample_turn clock pause i w =
      log zap sample_logger (clock (2 * i + 1)) debug_level (codes "debug message")
        (log zap sample_logger (clock (2 * i)) debug_level (sprintf_d i) (pause_at pause i w))

  -- So many turns, from one on.
  unfoldable pub sample_loop : (ℕ → ℕ) → ℕ → ℕ → ℕ → zap.World → zap.World
  unfolding sample_turn
  sample_loop clock pause zero i w = w
  sample_loop clock pause (suc n) i w =
      sample_loop clock pause n (suc i) (sample_turn clock pause i w)

  -- Example_zapSampling.
  unfoldable pub example_sampling : (ℕ → ℕ) → zap.World → zap.World
  unfolding sample_loop
  example_sampling clock w = sample_loop clock 5 10 0 w
