-- ===== src/Tests/Network.antt =====
-- Runs of src/http.cpp and src/extract.cpp.
use chimera_ape.Base.{
  ℕ, ◌≤◌, ◌≡◌, ◌≢◌, refl, sym, ◌∙◌, arith, Option, none, some, List, [], ◌∷◌, ◌++◌, Bytes, codes,
  bytes_eq, length, stream, ok, err, index_of, if◌then◌else◌, ◌>>=◌,
}
use chimera_ape.Util.Strtol.{pos, digit_value, magnitude}
use chimera_ape.Json.{Json, JsonLib, string, number, arr, obj, nil, cons, end, field}
use chimera_ape.Http.{closed, read_response}
use chimera_ape.Http.Dechunk.{SizeLine, last, chunk, dechunk, dechunk-Chunked}
use chimera_ape.Http.Read.{total, arriving, Ends, by_close, read_response-arriving}
use chimera_ape.Extract.{Extraction}
use chimera_ape.Extract.Parse.{extract_chunk, parse_extraction}
use chimera_ape.Extract.Parse.Clean.{Extracted, extract_chunk-Extracted}

abbrev crlf : Bytes
crlf = 13 ∷ 10 ∷ []

abbrev head : Bytes
head = codes "HTTP/1.1 200 OK" ++ crlf ++ codes "Content-Length: 2" ++ crlf ++ crlf

abbrev pieces : List Bytes
pieces = head ∷ codes "h" ∷ codes "i" ∷ []

pieces-Ends : Ends (stream pieces) (closed ∷ [])
pieces-Ends = by_close

pieces_size : total (stream pieces) ≡ pos 40
unfolding total
pieces_size = refl

pieces_enough : (n : ℕ) → total (stream pieces) ≡ pos n → length (stream pieces) ≤ n
pieces_enough n e = let q : pos 40 ≡ pos n = sym pieces_size ∙ e in ground (arith, q)

read_response-arriving_example :
    read_response (arriving pieces (closed ∷ [])) ≡ some (stream pieces)
read_response-arriving_example =
    read_response-arriving pieces (closed ∷ []) ((λ e. cc), ((λ e. cc), ((λ e. cc), tt)))
      pieces_enough pieces-Ends

abbrev hello : Bytes
hello = codes "hello"

five : SizeLine (length hello) (codes "5;x=1")
unfolding digit_value magnitude
five = record {
  digits = codes "5";
  extension = codes ";x=1";
  is_line = refl;
  has_digits = λ e. cc;
  are_hex = (omega arith, tt);
  value = refl;
  one_line = (refl, ((λ e. ground arith), ((λ e. ground arith), ((λ e. ground arith), tt))));
}

nothing : SizeLine 0 (codes "0")
unfolding digit_value magnitude
nothing = record {
  digits = codes "0";
  extension = [];
  is_line = refl;
  has_digits = λ e. cc;
  are_hex = (omega arith, tt);
  value = refl;
  one_line = tt;
}

hello_some : hello ≢ []
hello_some e = cc

dechunk-Chunked_example :
    dechunk (codes "5;x=1" ++ (crlf ++ (hello ++ (crlf ++ (codes "0" ++ (crlf ++ crlf))))))
    ≡ hello ++ []
dechunk-Chunked_example = dechunk-Chunked (chunk five hello_some (omega arith) (last crlf nothing))

-- An answer in fences, with an entity that is linked and one relation that is not.
abbrev text_field : Bytes → Bytes → Json ℕ
text_field k v = obj (field k (string v) end)

abbrev relation : Bytes → Json ℕ
relation object = obj (
    field (codes "confidence") (number 7) (
      field (codes "object") (string object) (
        field (codes "predicate") (string (codes "knows"))
          (field (codes "subject") (string (codes "Ada")) end))))

abbrev answer : Json ℕ
answer = obj (
    field (codes "entities")
      (arr (
        cons (text_field (codes "name") (codes "Ada"))
          (cons (text_field (codes "name") (codes "Bob")) nil)))
      (field (codes "relations")
        (arr (cons (relation (codes "Bob")) (cons (relation (codes "Eve")) nil))) end))

abbrev lib : JsonLib ℕ
lib = record {
  parse = λ text. if bytes_eq text (codes "{}") then ok answer else err (codes "bad");
  not_string = λ v. [];
  not_number = λ v. [];
  not_found = λ k. [];
  not_object = λ v. [];
}

-- The first answer is no JSON.
abbrev chat : Bytes → Bytes → Option Bytes
chat system user =
    if bytes_eq user (codes "text") then some (codes "sorry") else some (codes "ok: {}.")

abbrev relation_count : Option (Extraction ℕ) → ℕ
relation_count none = 9
relation_count (some x) = length x.relations

extract_run : relation_count (extract_chunk lib 0 chat (codes "text")) ≡ 1
unfolding extract_chunk bytes_eq index_of parse_extraction ◌>>=◌
extract_run = refl

extract_chunk-Extracted_example :
    Extracted lib 0 chat (codes "text") (extract_chunk lib 0 chat (codes "text"))
extract_chunk-Extracted_example = extract_chunk-Extracted lib 0 chat (codes "text")
