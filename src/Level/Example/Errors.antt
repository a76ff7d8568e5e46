-- ===== src/Level/Example/Errors.antt =====
-- chapter13/dynamic.go: the lines that the watcher's errors leave among the others.
use networking_in_go.Logs.{error_level}
use networking_in_go.Level.{Event, file_event, watch_error, closed_channel, Logger}
use networking_in_go.Level.Example.{Line, log_line, print_error}
use networking_in_go.Prelude.{
  int_leb, Bool, Bool-cases, inl, inr, append-nil, Bytes, if◌then◌else◌, ℤ, [], ◌∷◌, false, refl,
  List, ◌≡◌, ◌++◌, ap, ◌∙◌,
}

-- The lines below the error level.
unfoldable pub below_errors : List Line → List Line
below_errors [] = []
below_errors ((level, msg) ∷ ls) =
    let rest = below_errors ls in if int_leb error_level level then rest else (level, msg) ∷ rest

below_errors-append :
    (out : List Line) (level : ℤ) (msg : Bytes)
    → below_errors (out ++ (level, msg) ∷ [])
      ≡ below_errors out ++ (if int_leb error_level level then [] else (level, msg) ∷ [])
unfolding below_errors
below_errors-append [] level msg = refl
below_errors-append ((v, m) ∷ out) level msg = elim (Bool-cases (int_leb error_level v)) [
  | inl e ↦ rw e (below_errors-append out level msg)
  | inr e ↦ rw e (ap (λ l. (v, m) ∷ l) (below_errors-append out level msg))
]

-- A line below the error level, and one at it.
pub below_errors-log_line :
    (enabled : ℤ → ℤ → Bool) (entry : ℤ) (msg : Bytes) (l : Logger) (out : List Line)
    → int_leb error_level entry ≡ false
    → below_errors (log_line enabled entry msg l out)
      ≡ (if enabled l.level entry then below_errors out ++ (entry, msg) ∷ [] else below_errors out)
unfolding log_line
below_errors-log_line enabled entry msg l out h = elim (Bool-cases (enabled l.level entry)) [
  | inl e ↦ rw e (below_errors-append out entry msg ∙ rw h refl)
  | inr e ↦ rw e refl
]

pub below_errors-print_error :
    (enabled : ℤ → ℤ → Bool) (e : Event) (l : Logger) (out : List Line)
    → below_errors (print_error enabled e l out) ≡ below_errors out
unfolding print_error log_line
below_errors-print_error enabled (file_event about create remove) l out = refl
below_errors-print_error enabled closed_channel l out = refl
below_errors-print_error enabled (watch_error msg) l out =
    elim (Bool-cases (enabled l.level error_level)) [
      | inl e ↦ rw e (below_errors-append out error_level msg ∙ append-nil (below_errors out))
      | inr e ↦ rw e refl
    ]
