-- ===== src/Http/Request.antt =====
-- src/http.cpp: `http_request`, from the request's bytes to the parsed response.
use chimera_ape.Base.{
  ℕ, ◌+◌, Bool, true, false, ◌&&◌, Option, none, some, map, if◌then◌else◌, Bytes, codes, find,
  index_of, starts_with, length, take, drop, tolower,
}
use chimera_ape.Util.Strtol.{int_of_text}
use chimera_ape.Http.{HttpResponse, Connection, send_all, read_response, blank_line, request_text}
use chimera_ape.Http.Dechunk.{dechunk}

-- `head.find("transfer-encoding: chunked") != npos`
unfoldable pub is_chunked : Bytes → Bool
unfolding find starts_with tolower
is_chunked head = elim (find (codes "transfer-encoding: chunked") (map tolower head)) [
  | none ↦ false
  | some at ↦ true
]

-- `raw` from the status on, with the end of its header block.
unfoldable pub parse_response : Bytes → Option HttpResponse
unfolding index_of find starts_with is_chunked dechunk int_of_text
parse_response raw = elim (index_of b' ' raw) [
  | none ↦ none
  | some sp ↦ elim (find blank_line raw) [
    | none ↦ none
    | some he ↦
        let body = drop (he + 4) raw in
        some (record {
          status = int_of_text (drop (sp + 1) raw);
          body = if is_chunked (take he raw) then dechunk body else body;
        })
  ]
]

unfoldable pub parse_raw : Option Bytes → Option HttpResponse
unfolding parse_response
parse_raw none = none
parse_raw (some raw) = parse_response raw

unfoldable pub http_request :
    Connection → Bytes → ℕ → Bytes → Bytes → Bytes → Bytes → Option HttpResponse
unfolding send_all read_response request_text parse_raw
http_request conn method port path body content_type host =
    let request = request_text method port path body content_type host in
    if conn.opened && send_all 0 (length request) conn.sends
    then parse_raw (read_response conn.recvs)
    else none
