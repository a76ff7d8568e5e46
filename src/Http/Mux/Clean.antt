-- ===== src/Http/Mux/Clean.antt =====
-- `http.ServeMux`: the paths that it leaves as they are.
use networking_in_go.Http.Exchange.{Exchange}
use networking_in_go.Http.Middleware.{has_prefix, clean, is_rooted, put_root}
use networking_in_go.Http.Mux.{rooted, clean_path, path_of}
use networking_in_go.Prelude.{
  ◌==◌, if◌then◌else◌, Bytes, codes, equal, arith, Bool-cases, [], ◌∷◌, true, false, refl, inl, inr,
  ◌≡◌, Bool, ℕ, ◌++◌, ap,
}

pub equal_snoc : (c : ℕ) (s t : Bytes) → equal (s ++ c ∷ []) (t ++ c ∷ []) ≡ equal s t
unfolding equal
equal_snoc c [] [] = ground arith
equal_snoc c [] (b ∷ []) = ground arith
equal_snoc c [] (b ∷ d ∷ t) = ground arith
equal_snoc c (a ∷ []) [] = ground arith
equal_snoc c (a ∷ d ∷ s) [] = ground arith
equal_snoc c (a ∷ s) (b ∷ t) = rw (equal_snoc c s t) refl

pub nil_differs : (c : ℕ) (path : Bytes) → equal [] (c ∷ path) ≡ false
unfolding equal
nil_differs c path = refl

rooted_slash : (path : Bytes) → (s : Bytes) × (rooted path ≡ b'/' ∷ s)
unfolding rooted has_prefix
rooted_slash [] = ([], refl)
rooted_slash (c ∷ s) = elim (Bool-cases (c == b'/')) [
  | inl e ↦ let f : c ≡ b'/' = ground arith in (s, rw (e, f) refl)
  | inr e ↦ (c ∷ s, rw e refl)
]

clean_slash : (path : Bytes) → (s : Bytes) × (clean (rooted path) ≡ b'/' ∷ s)
unfolding clean is_rooted put_root
clean_slash path = let (s, e) = rooted_slash path in (_, ap clean e)

keep_slash :
    (b : Bool) (s t : Bytes)
    → t ≡ b'/' ∷ s
    → (r : Bytes) × ((if b then t ++ codes "/" else t) ≡ b'/' ∷ r)
keep_slash true s t e = (s ++ codes "/", rw e refl)
keep_slash false s t e = (s, e)

-- A path that the multiplexer looks for begins with a slash.
pub clean_path_slash : (path : Bytes) → (s : Bytes) × (clean_path path ≡ b'/' ∷ s)
unfolding clean_path
clean_path_slash path = let (s, e) = clean_slash path in keep_slash _ s _ e

pub path_of_clean : (x : Exchange) → clean_path x.path ≡ x.path → path_of x ≡ x.path
unfolding path_of
path_of_clean x h = elim (Bool-cases (equal x.method (codes "CONNECT"))) [
  | inl e ↦ rw e refl
  | inr e ↦ rw e h
]

pub begins_rooted : (path s : Bytes) → path ≡ b'/' ∷ s → has_prefix path (codes "/") ≡ true
unfolding has_prefix
begins_rooted path s e = rw e refl
