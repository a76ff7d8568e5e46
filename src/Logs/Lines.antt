-- ===== src/Logs/Lines.antt =====
-- chapter13: what any number of entries leave with the writer of a logger.
use networking_in_go.Logs.{Zap, IsLawful, Encoder, Entry, log}
use networking_in_go.Prelude.{
  ℕ, ◌==◌, ℤ, int_leb, Bool, true, false, List, [], ◌∷◌, ◌++◌, ◌≡◌, ◌≢◌, refl, arith, Bytes,
  if◌then◌else◌, append_assoc, append-nil, ap, sym, ◌∙◌,
}

-- Entries are logged one after the other: their times, levels and messages.
unfoldable pub log_all : (zap : Zap) → zap.Logger → List (ℕ × ℤ × Bytes) → zap.World → zap.World
log_all zap l [] w = w
log_all zap l ((t, level, msg) ∷ es) w = log_all zap l es (log zap l t level msg w)

-- What one entry after the other gives.
unfoldable pub gather : (ℕ → ℤ → Bytes → Bytes) → List (ℕ × ℤ × Bytes) → Bytes
gather out [] = []
gather out ((t, level, msg) ∷ es) = out t level msg ++ gather out es

-- The line of an entry, if it is at a level or above.
abbrev pub line_at : (zap : Zap) → Encoder → ℤ → zap.Logger → ℕ → ℤ → Bytes → Bytes
line_at zap enc level l t level' msg =
    if int_leb level level' then zap.encode enc (zap.entry l t level' msg) else []

-- The entries of a logger have the level with which they are logged.
abbrev pub HasLevels : (zap : Zap) → zap.Logger → Type 0
HasLevels zap l = (t : ℕ) (level : ℤ) (msg : Bytes) → (zap.entry l t level msg).level ≡ level

pub if_append : (b : Bool) (s t : Bytes) → (if b then s ++ t else s) ≡ s ++ (if b then t else [])
if_append true s t = refl
if_append false s t = sym (append-nil s)

pub written-log_all :
    (zap : Zap) (l : zap.Logger) (j : ℕ) (out : ℕ → ℤ → Bytes → Bytes)
    → ((t : ℕ) (level : ℤ) (msg : Bytes) (w : zap.World)
        → zap.written j (log zap l t level msg w) ≡ zap.written j w ++ out t level msg)
    → (es : List (ℕ × ℤ × Bytes)) (w : zap.World)
    → zap.written j (log_all zap l es w) ≡ zap.written j w ++ gather out es
unfolding log_all gather
written-log_all zap l j out h [] w = sym (append-nil (zap.written j w))
written-log_all zap l j out h ((t, level, msg) ∷ es) w =
    written-log_all zap l j out h es (log zap l t level msg w)
    ∙ ap (λ s. s ++ gather out es) (h t level msg w)
    ∙ append_assoc (zap.written j w) (out t level msg) (gather out es)

module _ (zap : Zap) (law : IsLawful zap) where
  -- Its own writer gets the line of an entry, if it is at the level of the core or above.
  pub written_own :
      (enc : Encoder) (i : ℕ) (level : ℤ) (e : Entry) (w : zap.World)
      → zap.written i (zap.write (zap.new_core enc i level) e w)
        ≡ zap.written i w ++ (if int_leb level e.level then zap.encode enc e else [])
  written_own enc i level e w =
      let same : (i == i) ≡ true = ground arith in
      law.written-new_core enc i level e w i
      ∙ rw same (if_append (int_leb level e.level) (zap.written i w) (zap.encode enc e))

  pub written_other :
      (enc : Encoder) (i : ℕ) (level : ℤ) (e : Entry) (w : zap.World) (j : ℕ)
      → j ≢ i
      → zap.written j (zap.write (zap.new_core enc i level) e w) ≡ zap.written j w
  written_other enc i level e w j h =
      let other : (j == i) ≡ false = ground arith in
      law.written-new_core enc i level e w j ∙ rw other refl

  -- A logger of one core.
  pub log_own :
      (l : zap.Logger) (enc : Encoder) (i t : ℕ) (level level' : ℤ) (msg : Bytes) (w : zap.World)
      → zap.core l ≡ zap.new_core enc i level
      → (zap.entry l t level' msg).level ≡ level'
      → zap.written i (log zap l t level' msg w)
        ≡ zap.written i w ++ line_at zap enc level l t level' msg
  log_own l enc i t level level' msg w c h =
      ap (λ (d : zap.Core). zap.written i (zap.write d (zap.entry l t level' msg) w)) c
      ∙ written_own enc i level (zap.entry l t level' msg) w
      ∙ ap
          (λ (v : ℤ).
            zap.written i w
            ++ (if int_leb level v then zap.encode enc (zap.entry l t level' msg) else []))
          h
