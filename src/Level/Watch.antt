-- ===== src/Level/Watch.antt =====
-- chapter13/dynamic.go: the level against whether the file is there.
use networking_in_go.Logs.{debug_level}
use networking_in_go.Level.{
  Event, file_event, watch_error, closed_channel, Logger, send, watch, watch_level,
}
use networking_in_go.Prelude.{
  ℤ, if◌then◌else◌, arith, [], ◌∷◌, true, false, refl, List, ◌≡◌, Bool, ℕ, ◌+◌, ◌≤◌,
}

-- Whether the file is there, after the events.
pub present : Bool → List Event → Bool
present b [] = b
present b (closed_channel ∷ rest) = b
present b (watch_error msg ∷ rest) = present b rest
present b (file_event false create remove ∷ rest) = present b rest
present b (file_event true true remove ∷ rest) = present true rest
present b (file_event true false true ∷ rest) = present false rest
present b (file_event true false false ∷ rest) = present b rest

-- How often the file comes or goes.
pub changes : List Event → ℕ
changes [] = 0
changes (closed_channel ∷ rest) = 0
changes (watch_error msg ∷ rest) = changes rest
changes (file_event false create remove ∷ rest) = changes rest
changes (file_event true true remove ∷ rest) = changes rest + 1
changes (file_event true false true ∷ rest) = changes rest + 1
changes (file_event true false false ∷ rest) = changes rest

abbrev pub level_of : Bool → ℤ → ℤ
level_of b original = if b then debug_level else original

watch-present :
    (events : List Event) (original : ℤ) (b : Bool) (n : ℕ) (l : Logger)
    → l.level ≡ level_of b original
    → changes events ≤ n
    → (watch original events n l).0.level ≡ level_of (present b events) original
unfolding watch send present changes
watch-present [] original b n l h k = h
watch-present (closed_channel ∷ rest) original b n l h k = h
watch-present (watch_error msg ∷ rest) original b n l h k =
    watch-present rest original b n (record l { errors = l.errors + 1 }) h k
watch-present (file_event false create remove ∷ rest) original b n l h k =
    watch-present rest original b n l h k
watch-present (file_event true false false ∷ rest) original b n l h k =
    watch-present rest original b n l h k
watch-present (file_event true true remove ∷ rest) original b ℕ.zero l h k = absurd (omega arith)
watch-present (file_event true true remove ∷ rest) original b (ℕ.suc n) l h k =
    watch-present rest original true n (record l { level = debug_level }) refl (omega arith)
watch-present (file_event true false true ∷ rest) original b ℕ.zero l h k = absurd (omega arith)
watch-present (file_event true false true ∷ rest) original b (ℕ.suc n) l h k =
    watch-present rest original false n (record l { level = original }) refl (omega arith)

-- As long as each change of the file is waited for, the level is the debug level when the file has come
-- and the level from before when it has gone, or was never there.
pub watch_level-present :
    (events : List Event) (receives : ℕ) (l : Logger)
    → changes events ≤ receives
    → (watch_level events receives l).0.level ≡ level_of (present false events) l.level
unfolding watch_level
watch_level-present events receives l h = watch-present events l.level false receives l refl h
