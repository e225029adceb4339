-- ===== src/Chunk/Html/Output.antt =====
-- What `strip_html` writes.
use chimera_ape.Base.{
  ℕ, ◌+◌, ◌-◌, ◌≤◌, ◌<◌, ◌≡◌, false, inl, inr, some, List, [], ◌∷◌, arith, ltb, ◌==◌, ltb→lt,
  if-cases, Option-cases, Bytes, length, length-append, get_or, drop, All, while_inv,
}
use chimera_ape.Chunk.Html.{
  entities, entity_at, HtmlState, open_tag, in_tag_byte, push_byte, text_byte, html_step,
  html_start, html_loop, strip_html,
}

-- A step that reads `n` bytes, one at least, and writes one at most.
record Reads (st next : HtmlState) : Type 0 where
  forward : st.i < next.i
  writes : length next.out + st.i ≤ length st.out + next.i

entity_at-pos :
    (es : List (Bytes × ℕ)) (s : Bytes) {c n : ℕ}
    → All (λ (e : Bytes × ℕ). 0 < length e.0) es
    → entity_at es s ≡ some (c, n)
    → 0 < n
unfolding entity_at
entity_at-pos [] s h e = ground arith
entity_at-pos ((ent, ch) ∷ es) s {c} {n} h e =
    ground (arith, entity_at-pos es s {c = c} {n = n} h.1)

push_byte-Reads : (c n : ℕ) (st : HtmlState) → 0 < n → Reads st (push_byte c n st)
unfolding push_byte
push_byte-Reads c n st pos = record {
  forward = omega arith;
  writes = omega (arith, length-append st.out (c ∷ []));
}

text_byte-Reads : (html : Bytes) (c : ℕ) (st : HtmlState) → Reads st (text_byte html c st)
unfolding text_byte
text_byte-Reads html c st =
    if-cases (Reads st) (c == b'&') _ _
      (λ _. elim (Option-cases (entity_at entities (drop st.i html))) [
        | inl e ↦ rw e (push_byte-Reads c 1 st (omega arith))
        | inr ((ch, n), e) ↦ rw e (
            push_byte-Reads ch n st
              (entity_at-pos entities (drop st.i html) {c = ch} {n = n} (omega arith) e))
      ])
      (λ _. push_byte-Reads c 1 st (omega arith))

html_step-Reads : (html : Bytes) (st : HtmlState) → Reads st (html_step html st)
unfolding html_step open_tag in_tag_byte
html_step-Reads html st =
    ground (arith, text_byte-Reads html (get_or html st.i 0) st, length-append st.out (b' ' ∷ []))

-- For every input the loop ends by its own test, having written a byte at most for each byte read.
pub length-html_loop :
    (html : Bytes)
    → (ltb (html_loop html).i (length html) ≡ false)
      × (length (strip_html html) ≤ (html_loop html).i)
unfolding strip_html html_loop
length-html_loop html =
    let (v, stop) =
      while_inv (λ (st : HtmlState). length st.out ≤ st.i) (λ st. length html - st.i)
        (λ st. ltb st.i (length html)) (html_step html)
        (λ st v e.
          let lt = ltb→lt st.i (length html) e in
          let r = html_step-Reads html st in (omega arith, omega arith))
        (length html + 1) html_start (omega arith) (omega arith) in
    (stop, v)
