-- ===== src/Chunk/Html.antt =====
-- src/chunk.cpp: `strip_html`, which drops tags and script bodies and decodes the common entities.
pub mod Output
use chimera_ape.Base.{
  ℕ, ◌+◌, ◌-◌, Bool, true, false, not, ◌&&◌, ◌||◌, Option, none, some, List, [], ◌∷◌, ◌++◌, ltb,
  ◌==◌, if◌then◌else◌, Bytes, codes, starts_with, length, get_or, drop, tolower, while,
}

-- `strncasecmp(s, name, strlen(name)) == 0`
prefix_nocase : Bytes → Bytes → Bool
prefix_nocase [] s = true
prefix_nocase (n ∷ ns) [] = false
prefix_nocase (n ∷ ns) (c ∷ s) = tolower n == tolower c && prefix_nocase ns s

pub tag_is : Bytes → ℕ → Bytes → Bool
tag_is html i name =
    ltb (length name + 1) (length html - i) && prefix_nocase name (drop (i + 1) html)

abbrev entities : List (Bytes × ℕ)
entities =
    (codes "&amp;", b'&')
    ∷ (codes "&lt;", b'<')
    ∷ (codes "&gt;", b'>')
    ∷ (codes "&quot;", b'"')
    ∷ (codes "&#39;", 39)
    ∷ (codes "&nbsp;", b' ')
    ∷ []

-- The first entity that the text begins with: its byte, and its length.
pub entity_at : List (Bytes × ℕ) → Bytes → Option (ℕ × ℕ)
entity_at [] s = none
entity_at ((ent, ch) ∷ es) s = if starts_with ent s then some (ch, length ent) else entity_at es s

pub record HtmlState : Type 0 where
  pub i : ℕ
  pub in_tag : Bool
  pub in_script : Bool
  pub out : Bytes

-- At a `<` outside a tag: a script or style element begins, or any closing tag ends it.
pub open_tag : Bytes → HtmlState → HtmlState
open_tag html st =
    let opened =
      tag_is html st.i (codes "script") || tag_is html st.i (codes "style") || st.in_script in
    let closes = opened && ltb (st.i + 1) (length html) && get_or html (st.i + 1) 0 == b'/' in
    record st { in_script = if closes then false else opened; in_tag = true; i = st.i + 1 }

pub in_tag_byte : ℕ → HtmlState → HtmlState
in_tag_byte c st =
    if c == b'>'
    then record st { in_tag = false; out = st.out ++ b' ' ∷ []; i = st.i + 1 }
    else record st { i = st.i + 1 }

pub push_byte : ℕ → ℕ → HtmlState → HtmlState
push_byte c n st = record st { out = st.out ++ c ∷ []; i = st.i + n }

pub text_byte : Bytes → ℕ → HtmlState → HtmlState
text_byte html c st =
    if c == b'&'
    then elim (entity_at entities (drop st.i html)) [
      | none ↦ push_byte c 1 st
      | some (ch, n) ↦ push_byte ch n st
    ]
    else push_byte c 1 st

pub html_step : Bytes → HtmlState → HtmlState
html_step html st =
    let c = get_or html st.i 0 in
    if not st.in_tag && c == b'<'
    then open_tag html st
    else if st.in_tag
    then in_tag_byte c st
    else if st.in_script
    then record st { i = st.i + 1 }
    else text_byte html c st

abbrev pub html_start : HtmlState
html_start = record { i = 0; in_tag = false; in_script = false; out = [] }

-- Every round reads a byte at least, so the length bounds the rounds.
pub html_loop : Bytes → HtmlState
html_loop html = while (length html + 1) (λ st. ltb st.i (length html)) (html_step html) html_start

unfoldable pub strip_html : Bytes → Bytes
unfolding html_loop html_step text_byte push_byte in_tag_byte open_tag entity_at tag_is
    prefix_nocase starts_with tolower while
strip_html html = (html_loop html).out
