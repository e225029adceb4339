-- ===== src/Http.antt =====
-- src/http.cpp: the HTTP/1.1 client. A connection is what the socket calls return, in order; a call
-- past the end of a list is one that times out.
pub mod HexNumber
pub mod Dechunk
pub mod Read
pub mod Request
use mathlib.Core.Option
use chimera_ape.Base.{
  ℕ, zero, suc, ◌+◌, ◌-◌, Bool, true, false, not, ◌&&◌, ◌||◌, Option, none, some, List, [], ◌∷◌,
  ◌++◌, map, ltb, leb, ◌==◌, if◌then◌else◌, Bytes, codes, bytes_eq, is_empty, starts_with, index_of,
  find, length, take, drop, stream, tolower,
}
use chimera_ape.Util.Decimal.{decimal}
use chimera_ape.Util.Strtol.{ℤ, pos, negsuc, strtol, int_of_text}

pub record HttpResponse : Type 0 where
  pub status : ℤ
  pub body : Bytes

-- What a `poll` and the `recv` after it come to: no data in time or an error, the end of the
-- stream, or bytes.
pub data Recv : Type 0 where
  failed : Recv
  closed : Recv
  got : Bytes → Recv

-- `sends` has the results of `poll` and `send`, 0 for a failure.
pub record Connection : Type 0 where
  pub opened : Bool
  pub sends : List ℕ
  pub recvs : List Recv

unfoldable pub send_all : ℕ → ℕ → List ℕ → Bool
send_all off n [] = not (ltb off n)
send_all off n (w ∷ ws) =
    let later = send_all (off + w) n ws in
    if ltb off n then (if w == 0 then false else later) else true

abbrev pub crlf : Bytes
crlf = 13 ∷ 10 ∷ []

abbrev pub blank_line : Bytes
blank_line = 13 ∷ 10 ∷ 13 ∷ 10 ∷ []

abbrev pub content_length : Bytes
content_length = codes "content-length:"

-- `want`: the total that a header block of `header_end` bytes announces.
abbrev add_header : ℕ → ℤ → ℤ
add_header header_end (pos n) = pos (n + header_end + 4)
add_header header_end (negsuc n) =
    if ltb n (header_end + 4) then pos (header_end + 4 - 1 - n) else negsuc (n - (header_end + 4))

abbrev unknown : ℤ
unknown = negsuc 0

unfoldable announced_in : Bytes → ℕ → ℤ
unfolding find starts_with strtol
announced_in head header_end = elim (find content_length head) [
  | none ↦ unknown
  | some cl ↦ add_header header_end (strtol 10 (drop (cl + 15) head))
]

unfoldable pub announced : Bytes → ℕ → ℤ
unfolding announced_in tolower
announced buf header_end = announced_in (map tolower (take header_end buf)) header_end

abbrev is_whole : ℤ → Bytes → Bool
is_whole (pos want) buf = leb want (length buf)
is_whole (negsuc n) buf = false

-- The blank line is looked for until it is found.
pub record ReadState : Type 0 where
  pub buf : Bytes
  pub want : ℤ
  pub header_end : Option ℕ

unfoldable pub append_bytes : Bytes → ReadState → ReadState
unfolding find announced
append_bytes bytes st =
    let buf = st.buf ++ bytes in
    elim st.header_end [
      | some h ↦ record st { buf = buf }
      | none ↦ elim (find blank_line buf) [
        | none ↦ record st { buf = buf }
        | some h ↦ record { buf = buf; want = announced buf h; header_end = some h }
      ]
    ]

unfoldable pub read_loop : List Recv → ReadState → Option Bytes
unfolding append_bytes
read_loop [] st = if is_whole st.want st.buf then some st.buf else none
read_loop (failed ∷ evs) st = if is_whole st.want st.buf then some st.buf else none
read_loop (closed ∷ evs) st = some st.buf
read_loop (got bytes ∷ evs) st =
    let later = read_loop evs (append_bytes bytes st) in
    if is_whole st.want st.buf then some st.buf else later

unfoldable pub read_response : List Recv → Option Bytes
unfolding read_loop
read_response evs = read_loop evs (record { buf = []; want = unknown; header_end = none })

unfoldable pub request_text : Bytes → ℕ → Bytes → Bytes → Bytes → Bytes → Bytes
unfolding decimal bytes_eq
request_text method port path body content_type host = stream (
    method
    ∷ codes " "
    ∷ path
    ∷ codes " HTTP/1.1"
    ∷ crlf
    ∷ codes "Host: "
    ∷ host
    ∷ codes ":"
    ∷ decimal port
    ∷ crlf
    ∷ codes "Connection: close"
    ∷ crlf
    ∷ (if not (is_empty body) || bytes_eq method (codes "POST")
        then stream (
            (if not (is_empty content_type)
              then stream (codes "Content-Type: " ∷ content_type ∷ crlf ∷ [])
              else [])
            ∷ codes "Content-Length: "
            ∷ decimal (length body)
            ∷ crlf
            ∷ [])
        else [])
    ∷ crlf
    ∷ body
    ∷ [])
