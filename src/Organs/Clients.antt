-- ===== src/Organs/Clients.antt =====
-- src/organs.cpp: the requests of the clients. The error of a result is the exception of `dump`,
-- which the code does not catch there.
use chimera_ape.Base.{
  ℕ, Bool, true, false, not, Option, none, some, List, [], ◌∷◌, ◌++◌, map, if◌then◌else◌, Bytes,
  codes, bytes_eq, is_empty, starts_with, length, Result, ok, ◌>>=◌,
}
use chimera_ape.Http.{HttpResponse}
use chimera_ape.Json.{Json, Items, nil, cons, end, field, string, number, arr, obj, value_string}
use chimera_ape.Organs.{Server, Hit}
use chimera_ape.Organs.Answers.{
  body_of, to_option, parsed, ◌>>-◌, chat_answer, embed_answer, media_answer, query_answer,
  info_answer,
}

abbrev json_type : Bytes
json_type = codes "application/json"

abbrev chat_path : Bytes
chat_path = codes "/v1/chat/completions"

abbrev embed_path : Bytes
embed_path = codes "/v1/embeddings"

module _ {D : Type 0} where
  abbrev array : List (Json D) → Json D
  array vs = arr (go vs)
    where
      go : List (Json D) → Items D
      go [] = nil
      go (v ∷ vs) = cons v (go vs)

  abbrev pair_of : Bytes → Json D → Bytes → Json D → Json D
  pair_of k v k' v' = obj (field k v (field k' v' end))

  abbrev message : Bytes → Json D → Json D
  message role content = pair_of (codes "content") content (codes "role") (string role)

  abbrev chat_request : List (Json D) → D → D → Json D
  chat_request messages temperature max_tokens = obj (
      field (codes "max_tokens") (number max_tokens) (
        field (codes "messages") (array messages)
          (field (codes "temperature") (number temperature) end)))

  abbrev pub embed_request : List Bytes → Json D
  embed_request inputs = obj (field (codes "input") (array (map string inputs)) end)

  -- An image by its data URL, a sound by its data and format.
  unfoldable pub media_part : Bytes → Bytes → Json D
  unfolding starts_with bytes_eq
  media_part mime media_b64 =
      if starts_with (codes "image/") mime
      then pair_of (codes "image_url")
          (obj (
            field (codes "url") (string (codes "data:" ++ mime ++ codes ";base64," ++ media_b64))
              end))
          (codes "type") (string (codes "image_url"))
      else pair_of (codes "input_audio")
          (pair_of (codes "data") (string media_b64) (codes "format")
            (string (if bytes_eq mime (codes "audio/mpeg") then codes "mp3" else codes "wav")))
          (codes "type") (string (codes "input_audio"))

  abbrev text_part : Bytes → Json D
  text_part user = pair_of (codes "text") (string user) (codes "type") (string (codes "text"))

  module _ (server : Server D) where
    unfoldable pub embed : List Bytes → Result (Option (List (List D)))
    unfolding embed_answer
    embed inputs = server.dump (embed_request inputs) >>= λ body.
        ok (embed_answer server (length inputs) (server.post embed_path body json_type))

    unfoldable pub chat : Bytes → Bytes → D → D → Result (Option Bytes)
    unfolding chat_answer
    chat system user temperature max_tokens =
        let messages =
          message (codes "system") (string system) ∷ message (codes "user") (string user) ∷ [] in
        server.dump (chat_request messages temperature max_tokens) >>= λ body.
        ok (chat_answer server (server.post chat_path body json_type))

    unfoldable pub chat_media : Bytes → Bytes → Bytes → D → D → Result (Option Bytes)
    unfolding chat_answer media_part
    chat_media user media_b64 mime temperature max_tokens =
        let content = array (text_part user ∷ media_part mime media_b64 ∷ []) in
        let messages = message (codes "user") content ∷ [] in
        server.dump (chat_request messages temperature max_tokens) >>= λ body.
        ok (chat_answer server (server.post chat_path body json_type))

    -- `media_marker_` once it is known.
    unfoldable pub marker_of : Bytes → Option Bytes
    unfolding parsed value_string
    marker_of cached =
        if not (is_empty cached)
        then some cached
        else body_of (server.get (codes "/props")) >>- λ body. parsed server body >>- λ j.
            to_option (value_string server.json j (codes "media_marker") []) >>- λ marker.
            if is_empty marker then none else some marker

    abbrev media_request : Bytes → Bytes → Json D
    media_request marker media_b64 = obj (
        field (codes "input")
          (pair_of (codes "multimodal_data") (array (string media_b64 ∷ [])) (codes "prompt_string")
            (string marker))
          end)

    unfoldable pub embed_media : Bytes → Bytes → Result (Option (List D))
    unfolding marker_of media_answer
    embed_media cached media_b64 = elim (marker_of cached) [
      | none ↦ ok none
      | some marker ↦ server.dump (media_request marker media_b64) >>= λ body.
          ok (media_answer server (server.post embed_path body json_type))
    ]

    abbrev accepted : Option HttpResponse → Bool
    accepted r = elim (body_of r) [ none ↦ false | some body ↦ true ]

    -- The graph server.
    abbrev pub graph_query : Bytes → Option Bytes
    graph_query sparql = body_of (server.post (codes "/") sparql (codes "application/sparql-query"))

    unfoldable pub graph_update : Bytes → Bytes → Bool
    graph_update sparql access_token =
        let path =
          codes "/"
          ++ (if is_empty access_token then [] else codes "?access-token=" ++ access_token) in
        accepted (server.post path sparql (codes "application/sparql-update"))

    -- The vector server.
    abbrev ids_of : List ℕ → Json D
    ids_of ids = array (map (λ i. number (server.numbers.of_count i)) ids)

    abbrev vectors_of : List (List D) → Json D
    vectors_of vecs = array (map (λ v. array (map number v)) vecs)

    unfoldable pub upsert : List ℕ → List (List D) → Result Bool
    upsert ids vecs =
        server.dump (pair_of (codes "ids") (ids_of ids) (codes "vectors") (vectors_of vecs))
        >>= λ body. ok (accepted (server.post (codes "/upsert") body json_type))

    -- An empty allowlist is left out, and the search is then over all vectors.
    abbrev query_request : List D → ℕ → List ℕ → Json D
    query_request vec k allowlist =
        let rest =
          field (codes "k") (number (server.numbers.of_count k))
            (field (codes "vectors") (vectors_of (vec ∷ [])) end) in
        obj
          (elim allowlist [ [] ↦ rest | i ∷ is ↦ field (codes "allowlist") (ids_of (i ∷ is)) rest ])

    unfoldable pub query : List D → ℕ → List ℕ → Result (Option (List (Hit D)))
    unfolding query_answer
    query vec k allowlist = server.dump (query_request vec k allowlist) >>= λ body.
        ok (query_answer server (server.post (codes "/query") body json_type))

    unfoldable pub remove : List ℕ → Result Bool
    remove ids = server.dump (obj (field (codes "ids") (ids_of ids) end)) >>= λ body.
        ok (accepted (server.post (codes "/remove") body json_type))

    unfoldable pub persist : Bool
    persist = accepted (server.post (codes "/persist") (codes "{}") json_type)

    unfoldable pub info : Option (ℕ × ℕ)
    unfolding info_answer
    info = info_answer server (server.get (codes "/info"))
