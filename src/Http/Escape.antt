-- ===== src/Http/Escape.antt =====
-- The escapes of html/template, for a text between tags, and of html.EscapeString.
use networking_in_go.Prelude.{ℕ, [], ◌∷◌, ◌++◌, ◌≢◌, arith, Bytes, codes, ◌==◌, if◌then◌else◌, All}

-- html.EscapeString, one byte.
unfoldable pub escape_byte : ℕ → Bytes
escape_byte c =
    if c == b'&'
    then codes "&amp;"
    else if c == b'\''
    then codes "&#39;"
    else if c == b'<'
    then codes "&lt;"
    else if c == b'>'
    then codes "&gt;"
    else if c == b'"'
    then codes "&#34;"
    else c ∷ []

-- The template's escaper, one byte: a zero byte becomes U+FFFD, and + is escaped too.
unfoldable pub template_byte : ℕ → Bytes
template_byte c =
    if c == 0 then 0xef ∷ 0xbf ∷ 0xbd ∷ [] else if c == b'+' then codes "&#43;" else escape_byte c

unfoldable pub escape_string : Bytes → Bytes
unfolding escape_byte
escape_string [] = []
escape_string (c ∷ s) = escape_byte c ++ escape_string s

unfoldable pub template_escape : Bytes → Bytes
unfolding template_byte escape_byte
template_escape [] = []
template_escape (c ∷ s) = template_byte c ++ template_escape s

-- A byte that opens no tag and ends no attribute.
abbrev pub IsInert : ℕ → Type 0
IsInert c = (c ≢ b'<') × (c ≢ b'>') × (c ≢ b'"') × (c ≢ b'\'')

pub All-IsInert-append : (s t : Bytes) → All IsInert s → All IsInert t → All IsInert (s ++ t)
All-IsInert-append [] t hs ht = ht
All-IsInert-append (c ∷ s) t (h, hs) ht = (h, All-IsInert-append s t hs ht)

escape_byte-IsInert : (c : ℕ) → All IsInert (escape_byte c)
unfolding escape_byte
escape_byte-IsInert c = ground arith

template_byte-IsInert : (c : ℕ) → All IsInert (template_byte c)
unfolding template_byte escape_byte
template_byte-IsInert c = ground arith

pub escape_string-IsInert : (s : Bytes) → All IsInert (escape_string s)
unfolding escape_string
escape_string-IsInert [] = tt
escape_string-IsInert (c ∷ s) =
    All-IsInert-append (escape_byte c) (escape_string s) (escape_byte-IsInert c)
      (escape_string-IsInert s)

pub template_escape-IsInert : (s : Bytes) → All IsInert (template_escape s)
unfolding template_escape
template_escape-IsInert [] = tt
template_escape-IsInert (c ∷ s) =
    All-IsInert-append (template_byte c) (template_escape s) (template_byte-IsInert c)
      (template_escape-IsInert s)
