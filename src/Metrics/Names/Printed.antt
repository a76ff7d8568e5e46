-- ===== src/Metrics/Names/Printed.antt =====
-- chapter13/instrument/server.go: which lines are printed.
use networking_in_go.Go.Fields.{split, join, Free}
use networking_in_go.Go.Fields.Split.{split-join}
use networking_in_go.Http.Middleware.{has_prefix}
use networking_in_go.Http.Middleware.Restrict.{has_prefix-append, has_prefix_sound}
use networking_in_go.Metrics.Names.{
  Flags, defaults, registered, register, JoinsNames, metrics_prefix, keep_lines, print_metrics,
}
use networking_in_go.Prelude.{
  Bytes, codes, All, Bool-cases, [], ◌∷◌, true, false, refl, inl, inr, List, ◌≡◌, ◌++◌, ap, sym,
  ◌∙◌, ◌⊎◌, subst, if◌then◌else◌, append_assoc, ◌==◌, arith,
}

-- A line of the response: a comment, a value of the program behind the name of a metric and its suffix, or a
-- value of a metric that another package has registered.
pub data Line : Type 0 where
  comment : Bytes → Line
  value : Bytes → Bytes → Line
  other : Bytes → Line

unfoldable pub text_of : Line → Bytes
text_of (comment s) = codes "# " ++ s
text_of (value name s) = name ++ s
text_of (other s) = s

unfoldable pub texts_of : List Line → List Bytes
texts_of [] = []
texts_of (l ∷ ls) = text_of l ∷ texts_of ls

-- The page: every line ends in a newline.
unfoldable pub page_of : List Line → Bytes
unfolding texts_of
page_of ls = join (texts_of ls ++ [] ∷ []) (codes "\n")

-- The texts of the program's values alone, and those of the other packages.
unfoldable pub values_of : List Line → List Bytes
values_of [] = []
values_of (comment s ∷ ls) = values_of ls
values_of (value name s ∷ ls) = (name ++ s) ∷ values_of ls
values_of (other s ∷ ls) = values_of ls

unfoldable pub others_of : List Line → List Bytes
others_of [] = []
others_of (comment s ∷ ls) = others_of ls
others_of (value name s ∷ ls) = others_of ls
others_of (other s ∷ ls) = s ∷ others_of ls

-- The name is one of these.
abbrev pub IsIn : Bytes → List Bytes → Type 0
IsIn name [] = ⊥
IsIn name (n ∷ names) = (name ≡ n) ⊎ IsIn name names

-- A value of the program has the name of one of its metrics, and one of another package another name.
abbrev pub IsListed : (Bytes → Bytes → Bytes → Bytes) → Line → Type 0
IsListed build_fq_name (comment s) = Unit
IsListed build_fq_name (value name s) = IsIn name (registered build_fq_name)
IsListed build_fq_name (other s) = has_prefix s (codes "web_server1") ≡ false

abbrev pub OneLine : Line → Type 0
OneLine l = Free b'\n' (text_of l)

-- Neither text begins with the other.
abbrev pub Apart : Bytes → Bytes → Type 0
Apart s t = (has_prefix s t ≡ false) × (has_prefix t s ≡ false)

All-IsIn :
    (P : Bytes → Type 0) (names : List Bytes) (name : Bytes)
    → All P names
    → IsIn name names
    → P name
All-IsIn P [] name h k = absurd k
All-IsIn P (n ∷ names) name h (inl e) = subst P (sym e) h.0
All-IsIn P (n ∷ names) name h (inr k) = All-IsIn P names name h.1 k

has_prefix_more : (s t p : Bytes) → has_prefix s p ≡ true → has_prefix (s ++ t) p ≡ true
has_prefix_more s t p h =
    let (r, e) = has_prefix_sound s p h in
    ap (λ z. has_prefix (z ++ t) p) e
    ∙ ap (λ z. has_prefix z p) (append_assoc p r t)
    ∙ has_prefix-append p (r ++ t)

has_prefix-Apart : (s t p : Bytes) → Apart s p → has_prefix (s ++ t) p ≡ false
unfolding has_prefix
has_prefix-Apart s t [] h = h.0
has_prefix-Apart [] t (b ∷ p) h = let k : true ≡ false = h.1 in cc
has_prefix-Apart (a ∷ s) t (b ∷ p) h = elim (Bool-cases (a == b)) [
  | inl e ↦
      let f : a ≡ b = ground arith in
      let g : (b == b) ≡ true = ground arith in
      rw e (has_prefix-Apart s t p (rw e at h.0, rw (f, g) at h.1))
  | inr e ↦ rw e refl
]

All-texts_of : (ls : List Line) → All OneLine ls → All (Free b'\n') (texts_of ls ++ [] ∷ [])
unfolding texts_of
All-texts_of [] h = (tt, tt)
All-texts_of (l ∷ ls) h = (h.0, All-texts_of ls h.1)

split-page_of :
    (ls : List Line) → All OneLine ls → split b'\n' (page_of ls) ≡ texts_of ls ++ [] ∷ []
unfolding page_of texts_of
split-page_of [] h = split-join b'\n' [] [] (All-texts_of [] h)
split-page_of (l ∷ ls) h =
    split-join b'\n' (text_of l) (texts_of ls ++ [] ∷ []) (All-texts_of (l ∷ ls) h)

-- The end of the page is no line of a metric.
no_prefix : (flags : Flags) → has_prefix [] (metrics_prefix flags) ≡ false
unfolding has_prefix metrics_prefix
no_prefix flags = starts flags.namespace
  where
    starts : (s : Bytes) → has_prefix [] (s ++ b'_' ∷ flags.subsystem) ≡ false
    starts [] = refl
    starts (b ∷ s) = refl

-- A metric's name does not begin with the prefix of these flags, nor is that prefix longer.
abbrev pub IsForeign : Flags → Type 0
IsForeign flags =
    Apart (codes "# ") (metrics_prefix flags) × Apart (codes "web_server1_") (metrics_prefix flags)

module _ {build_fq_name : Bytes → Bytes → Bytes → Bytes} (joins : JoinsNames build_fq_name) where
  prefixed :
      (name p : Bytes)
      → has_prefix (codes "web_server1_" ++ name) p ≡ true
      → has_prefix (build_fq_name (codes "web") (codes "server1") name) p ≡ true
  prefixed name p h =
      ap (λ s. has_prefix s p)
        (joins.joined (codes "web") (codes "server1") name (λ e. cc) (λ e. cc))
      ∙ h

  All-registered :
      (p : Bytes)
      → ((name : Bytes) → has_prefix (codes "web_server1_" ++ name) p ≡ true)
      → All (λ n. has_prefix n p ≡ true) (registered build_fq_name)
  unfolding registered register
  All-registered p h =
      let each = λ (name : Bytes). prefixed name p (h name) in
      (each _, (each _, (each _, (each _, tt))))

  registered_prefix :
      All (λ n. has_prefix n (codes "web_server1") ≡ true) (registered build_fq_name)
  unfolding has_prefix
  registered_prefix = All-registered (codes "web_server1") (λ name. refl)

  registered_stem : All (λ n. has_prefix n (codes "web_server1_") ≡ true) (registered build_fq_name)
  unfolding has_prefix
  registered_stem = All-registered (codes "web_server1_") (λ name. refl)

  keep_own :
      (ls : List Line)
      → All (IsListed build_fq_name) ls
      → keep_lines (metrics_prefix defaults) (texts_of ls ++ [] ∷ []) ≡ values_of ls
  unfolding keep_lines metrics_prefix texts_of text_of values_of has_prefix
  keep_own [] h = refl
  keep_own (comment s ∷ ls) h = keep_own ls h.1
  keep_own (value name s ∷ ls) h =
      let e =
        has_prefix_more name s (codes "web_server1")
          (All-IsIn _ (registered build_fq_name) name registered_prefix h.0) in
      rw e (ap (◌∷◌ (name ++ s)) (keep_own ls h.1))
  keep_own (other s ∷ ls) h = rw h.0 (keep_own ls h.1)

  drop_own :
      (flags : Flags) (ls : List Line)
      → IsForeign flags
      → All (IsListed build_fq_name) ls
      → keep_lines (metrics_prefix flags) (texts_of ls ++ [] ∷ [])
        ≡ keep_lines (metrics_prefix flags) (others_of ls)
  unfolding keep_lines texts_of text_of others_of
  drop_own flags [] f h = rw (no_prefix flags) refl
  drop_own flags (comment s ∷ ls) f h =
      rw (has_prefix-Apart (codes "# ") s (metrics_prefix flags) f.0) (drop_own flags ls f h.1)
  drop_own flags (value name s ∷ ls) f h =
      let (t, e) =
        has_prefix_sound name (codes "web_server1_")
          (All-IsIn _ (registered build_fq_name) name registered_stem h.0) in
      let k : has_prefix (name ++ s) (metrics_prefix flags) ≡ false =
        ap (λ z. has_prefix (z ++ s) (metrics_prefix flags)) e
        ∙ has_prefix-Apart (codes "web_server1_") (t ++ s) (metrics_prefix flags) f.1 in
      rw k (drop_own flags ls f h.1)
  drop_own flags (other s ∷ ls) f h =
      ap (λ rest. if has_prefix s (metrics_prefix flags) then s ∷ rest else rest)
        (drop_own flags ls f h.1)

  -- With the flags as they are by default, the lines that are printed are those of the program's metrics, in
  -- their order, of a page that has comments and the metrics of other packages too.
  pub print_metrics-values_of :
      (ls : List Line)
      → All (IsListed build_fq_name) ls
      → All OneLine ls
      → print_metrics defaults (page_of ls) ≡ values_of ls
  unfolding print_metrics
  print_metrics-values_of ls h k =
      ap (keep_lines (metrics_prefix defaults)) (split-page_of ls k) ∙ keep_own ls h

  -- With flags whose prefix is neither a beginning of "web_server1_" nor begins with it, nor so
  -- with the beginning of a comment, no line of the program's metrics is printed: of a page that has
  -- comments, the program's metrics and those of other packages, every line with its newline, what is
  -- printed are the lines of other packages that begin with the prefix. The program's metrics keep the
  -- names of the defaults, joined by underscores.
  pub print_metrics-IsForeign :
      (flags : Flags) (ls : List Line)
      → IsForeign flags
      → All (IsListed build_fq_name) ls
      → All OneLine ls
      → print_metrics flags (page_of ls) ≡ keep_lines (metrics_prefix flags) (others_of ls)
  unfolding print_metrics
  print_metrics-IsForeign flags ls f h k =
      ap (keep_lines (metrics_prefix flags)) (split-page_of ls k) ∙ drop_own flags ls f h
