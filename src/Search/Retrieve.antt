-- ===== src/Search/Retrieve.antt =====
-- src/search.cpp: the retrieval of a search, from the query to the candidates. A step goes on with a
-- value, or the run ends with an exit code and what it printed, or with an exception.
pub mod Steps
use mathlib.Core.Option
use chimera_ape.Base.{
  ℕ, ◌+◌, Bool, true, false, not, Option, none, some, List, [], ◌∷◌, ◌++◌, map, if◌then◌else◌,
  Bytes, codes, bytes_eq, is_empty, Result, ok, err, stream,
}
use chimera_ape.Cli.{Options}
use chimera_ape.Json.{JsonLib}
use chimera_ape.Manifest.{Manifest}
use chimera_ape.Manifest.Ops.{chunk_by_vec_key, vec_keys_of_modality}
use chimera_ape.Organs.{Hit}
use chimera_ape.Util.Base64.{base64_encode}
use chimera_ape.Util.Strtol.{ℤ}
use chimera_ape.Walk.Names.{mime_of, modality_of}
use chimera_ape.Search.{salient_terms}
use chimera_ape.Search.Context.{show_int}
use chimera_ape.Search.Rank.{Scores, Candidate, Ranked, Row, score_terms, sort_scores}
use chimera_ape.Search.Rows.{rows_of}

pub data Step (A : Type 0) : Type 0 where
  goes : A → Step A
  exits : ℕ → Bytes → Step A
  throws : Bytes → Step A

infixl 5 ◌>>~◌
unfoldable pub ◌>>~◌ : {A B : Type 0} → Step A → (A → Step B) → Step B
goes a >>~ f = f a
exits code out >>~ f = exits code out
throws e >>~ f = throws e

abbrev pub lift : {A : Type 0} → Result A → Step A
lift (ok a) = goes a
lift (err e) = throws e

-- The value of an answer, or the end of the run with 1.
abbrev pub or_fail : {A : Type 0} → Option A → Step A
or_fail none = exits 1 []
or_fail (some a) = goes a

-- The clients of a search. The error of a result is the exception of a request that cannot be made.
pub record Clients (D : Type 0) : Type 0 where
  pub embed : List Bytes → Result (Option (List (List D)))
  pub embed_media : Bytes → Result (Option (List D))
  pub chat : Bytes → Bytes → Result (Option Bytes)
  pub chat_media : Bytes → Bytes → Bytes → Result (Option Bytes)
  pub nearest : List D → ℤ → List ℕ → Result (Option (List (Hit D)))
  pub ask : Bytes → Option Bytes

abbrev pub image_query_prompt : Bytes
image_query_prompt =
    codes
      "If this image contains readable text, transcribe it verbatim. Otherwise describe the scene concisely. Output only that."

abbrev pub audio_query_prompt : Bytes
audio_query_prompt =
    codes
      "Transcribe this audio verbatim. If not speech, describe the sound concisely. Output only that."

-- The query of one term.
unfoldable pub keyword_query : ℤ → Bytes → Bytes
unfolding show_int
keyword_query k term = stream (
    codes
      "PREFIX ch: <chimera://ontology#> SELECT ?chunk ?ql_score_t_var_text WHERE { ?t ql:contains-word \""
    ∷ term
    ∷ codes
        "*\" . ?t ql:contains-entity ?text . ?chunk ch:text ?text . } ORDER BY DESC(?ql_score_t_var_text) LIMIT "
    ∷ show_int k
    ∷ [])

-- What the query is after a file was looked at, and the ranking of its media vector.
pub record Query (D : Type 0) : Type 0 where
  pub text : Bytes
  pub media_ranked : Ranked D

module _ {D : Type 0} (c : Clients D) (o : Options) (m : Manifest) where
  -- The chunks of the hits that the manifest knows.
  unfoldable pub ranked_hits : List (Hit D) → Ranked D
  unfolding chunk_by_vec_key
  ranked_hits [] = []
  ranked_hits (h ∷ hits) =
      let rest = ranked_hits hits in
      elim (chunk_by_vec_key h.vec_key m) [ none ↦ rest | some cid ↦ (cid, h.score) ∷ rest ]

  abbrev pub hits_or_none : Option (List (Hit D)) → Ranked D
  hits_or_none none = []
  hits_or_none (some hits) = ranked_hits hits

  -- The query text with the text derived from an image or a sound.
  unfoldable pub derived_text : Option Bytes → Step Bytes
  derived_text derived =
      let text : Bytes = elim derived [ none ↦ [] | some t ↦ t ] in
      if not (is_empty text)
      then goes (if is_empty o.query then text else o.query ++ codes "\n" ++ text)
      else if is_empty o.query
      then exits 1 []
      else goes o.query

  abbrev pub media_hits : List ℕ → Option (List D) → Step (Ranked D)
  media_hits allow none = goes []
  media_hits allow (some mv) = lift (c.nearest mv o.k allow) >>~ λ hits. goes (hits_or_none hits)

  -- The vectors of the same modality, if there are any.
  unfoldable pub rank_media : Bytes → List ℕ → Step (Ranked D)
  unfolding ranked_hits
  rank_media b64 [] = goes []
  rank_media b64 (key ∷ keys) = lift (c.embed_media b64) >>~ media_hits (key ∷ keys)

  unfoldable pub media_query : Bytes → Bytes → Step (Query D)
  unfolding derived_text rank_media base64_encode mime_of vec_keys_of_modality bytes_eq
  media_query modality bytes =
      let b64 = base64_encode bytes in
      let prompt =
        if bytes_eq modality (codes "image") then image_query_prompt else audio_query_prompt in
      lift (c.chat_media prompt b64 (mime_of o.search_file)) >>~ λ derived.
      derived_text derived >>~ λ text.
      rank_media b64 (vec_keys_of_modality modality m) >>~ λ ranked.
      goes (record { text = text; media_ranked = ranked })

  -- `--file`, read whole: a text is the query itself.
  unfoldable pub file_query : Option Bytes → Step (Query D)
  unfolding media_query modality_of bytes_eq
  file_query none = exits 1 []
  file_query (some bytes) =
      if bytes_eq (modality_of o.search_file) (codes "text")
      then goes (record { text = bytes; media_ranked = [] })
      else media_query (modality_of o.search_file) bytes

  unfoldable pub query_of : (Bytes → Option Bytes) → Step (Query D)
  unfolding file_query
  query_of files =
      if not (is_empty o.search_file)
      then file_query (files o.search_file)
      else goes (record { text = o.query; media_ranked = [] })

  -- `(*qe)[0]`: the model gives a vector for the one text.
  abbrev pub first_vector : List (List D) → List D
  first_vector [] = []
  first_vector (v ∷ vs) = v

  -- The vectors of text chunks next to the query's. The query ends the run if it is not embedded; the
  -- search goes on without an answer of the vector store.
  unfoldable pub rank_vectors : Bytes → Step (Ranked D)
  unfolding ranked_hits vec_keys_of_modality
  rank_vectors query_text = lift (c.embed (query_text ∷ [])) >>~ or_fail >>~ λ qe.
      lift (c.nearest (first_vector qe) o.k (vec_keys_of_modality (codes "text") m)) >>~ λ hits.
      goes (hits_or_none hits)

  module _ (sc : Scores D) (lib : JsonLib D) where
    abbrev term_rows : Bytes → Option (List Row)
    term_rows term = Option.map (rows_of lib) (c.ask (keyword_query o.k term))

    unfoldable pub rank_keywords : Bytes → Ranked D
    unfolding score_terms sort_scores salient_terms rows_of keyword_query
    rank_keywords query_text =
        sort_scores sc (score_terms sc (map term_rows (salient_terms query_text 6)) [])
