-- ===== src/Level.antt =====
-- chapter13/dynamic.go: the goroutine that sets the logger's level by the file level.debug.
pub mod Watch
pub mod Example
use networking_in_go.Logs.{debug_level}
use networking_in_go.Prelude.{
  Bytes, ℤ, pos, negsuc, if◌then◌else◌, none, some, [], ◌∷◌, true, false, refl, inl, inr, Option,
  List, ◌≡◌, Bool, ℕ, ◌++◌, ◌+◌, ◌-◌, ◌≤◌, ◌<◌, zero, suc, ap, sym, ◌∙◌,
}

-- What the `select` takes: a file event, with whether its name is the file's and which of the two bits it
-- has, an error with its text, or the end of one of the channels.
pub data Event : Type 0 where
  file_event : Bool → Bool → Bool → Event
  watch_error : Bytes → Event
  closed_channel : Event

-- Why the goroutine has stopped. Blocked: nothing receives from `ready` any more.
pub data Stop : Type 0 where
  watching ended blocked : Stop

pub record Logger : Type 0 where
  pub level : ℤ
  pub errors : ℕ  -- how many were logged

-- `ready <- struct{}{}` behind a change, with how many receives are left; the rest of the loop.
send : ℕ → ℤ → Logger → (ℕ → Logger → Logger × Stop) → Logger × Stop
send ℕ.zero level l rest = (record l { level = level }, blocked)
send (ℕ.suc n) level l rest = rest n (record l { level = level })

-- The loop, for the level that the logger had before it.
pub watch : ℤ → List Event → ℕ → Logger → Logger × Stop
unfolding send
watch original [] n l = (l, watching)
watch original (closed_channel ∷ rest) n l = (l, ended)
watch original (watch_error msg ∷ rest) n l =
    watch original rest n (record l { errors = l.errors + 1 })
watch original (file_event false create remove ∷ rest) n l = watch original rest n l
watch original (file_event true true remove ∷ rest) n l = send n debug_level l (watch original rest)
watch original (file_event true false true ∷ rest) n l = send n original l (watch original rest)
watch original (file_event true false false ∷ rest) n l = watch original rest n l

-- `originalLevel := atomicLevel.Level()`.
unfoldable pub watch_level : List Event → ℕ → Logger → Logger × Stop
unfolding watch
watch_level events receives l = watch l.level events receives l
