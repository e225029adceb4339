-- ===== src/Search/Retrieve/Steps.antt =====
-- src/search.cpp: the exits of the retrieval.
use chimera_ape.Base.{
  ℕ, ◌≡◌, refl, not, Option, none, some, List, [], ◌∷◌, Bytes, is_empty, Result, ok, err, if-cases,
  bytes_eq, codes,
}
use chimera_ape.Cli.{Options}
use chimera_ape.Manifest.{Manifest}
use chimera_ape.Manifest.Ops.{vec_keys_of_modality}
use chimera_ape.Util.Base64.{base64_encode}
use chimera_ape.Walk.Names.{modality_of}
use chimera_ape.Search.Retrieve.{
  Step, goes, exits, throws, ◌>>~◌, lift, or_fail, Clients, media_hits, query_of, rank_vectors,
  derived_text, rank_media, media_query, file_query,
}

-- What holds of the value that a step goes on with, and of its exits.
abbrev pub AllStep : {A : Type 0} → (A → Type 0) → (ℕ → Bytes → Type 0) → Step A → Type 0
AllStep G X (goes a) = G a
AllStep G X (exits code out) = X code out
AllStep G X (throws e) = Unit

pub bind-AllStep :
    {A B : Type 0} (G : A → Type 0) (G' : B → Type 0) (X : ℕ → Bytes → Type 0) (r : Step A)
    (f : A → Step B)
    → AllStep G X r
    → ((a : A) → G a → AllStep G' X (f a))
    → AllStep G' X (r >>~ f)
unfolding ◌>>~◌
bind-AllStep G G' X (goes a) f h k = k a h
bind-AllStep G G' X (exits code out) f h k = h
bind-AllStep G G' X (throws e) f h k = tt

pub lift-AllStep :
    {A : Type 0} (X : ℕ → Bytes → Type 0) (r : Result A) → AllStep (λ a. r ≡ ok a) X (lift r)
lift-AllStep X (ok a) = refl
lift-AllStep X (err e) = tt

-- The value of a call.
pub lift-value :
    {A : Type 0} (X : ℕ → Bytes → Type 0) (r : Result A) → AllStep (λ a. lift r ≡ goes a) X (lift r)
lift-value X (ok a) = refl
lift-value X (err e) = tt

pub AllStep-map :
    {A : Type 0} (G G' : A → Type 0) (X : ℕ → Bytes → Type 0) (r : Step A)
    → AllStep G X r
    → ((a : A) → G a → G' a)
    → AllStep G' X r
AllStep-map G G' X (goes a) h k = k a h
AllStep-map G G' X (exits code out) h k = h
AllStep-map G G' X (throws e) h k = tt

abbrev pub Anything : {A : Type 0} → A → Type 0
Anything a = Unit

-- The run of a step that fails is over, with `X 1 []`.
module _ (X : ℕ → Bytes → Type 0) (fail : X 1 []) where
  pub or_fail-AllStep : {A : Type 0} (a : Option A) → AllStep Anything X (or_fail a)
  or_fail-AllStep none = fail
  or_fail-AllStep (some a) = tt

  pub lift_any : {A : Type 0} (r : Result A) → AllStep Anything X (lift r)
  lift_any (ok a) = tt
  lift_any (err e) = tt

  module _ {D : Type 0} (c : Clients D) (o : Options) (m : Manifest) where
    derived_text-AllStep :
        (derived : Option Bytes) → AllStep Anything X (derived_text c o m derived)
    unfolding derived_text
    derived_text-AllStep none =
        if-cases (AllStep Anything X) (is_empty o.query) _ _ (λ _. fail) (λ _. tt)
    derived_text-AllStep (some text) =
        if-cases (AllStep Anything X) (not (is_empty text)) _ _ (λ _. tt)
          (λ _. if-cases (AllStep Anything X) (is_empty o.query) _ _ (λ _. fail) (λ _. tt))

    media_hits-AllStep :
        (allow : List ℕ) (mv : Option (List D)) → AllStep Anything X (media_hits c o m allow mv)
    media_hits-AllStep allow none = tt
    media_hits-AllStep allow (some mv) =
        bind-AllStep Anything Anything X (lift (c.nearest mv o.k allow)) _
          (lift_any (c.nearest mv o.k allow)) (λ hits u. tt)

    rank_media-AllStep :
        (b64 : Bytes) (allow : List ℕ) → AllStep Anything X (rank_media c o m b64 allow)
    unfolding rank_media
    rank_media-AllStep b64 [] = tt
    rank_media-AllStep b64 (key ∷ keys) =
        bind-AllStep Anything Anything X (lift (c.embed_media b64)) _ (lift_any (c.embed_media b64))
          (λ mv u. media_hits-AllStep (key ∷ keys) mv)

    media_query-AllStep :
        (modality bytes : Bytes) → AllStep Anything X (media_query c o m modality bytes)
    unfolding media_query
    media_query-AllStep modality bytes =
        bind-AllStep Anything Anything X _ _ (lift_any _) λ derived u.
          bind-AllStep Anything Anything X (derived_text c o m derived) _
            (derived_text-AllStep derived)
            λ text v.
              bind-AllStep Anything Anything X
                (rank_media c o m (base64_encode bytes) (vec_keys_of_modality modality m)) _
                (rank_media-AllStep (base64_encode bytes) (vec_keys_of_modality modality m))
                (λ ranked x. tt)

    file_query-AllStep : (file : Option Bytes) → AllStep Anything X (file_query c o m file)
    unfolding file_query
    file_query-AllStep none = fail
    file_query-AllStep (some bytes) =
        if-cases (AllStep Anything X) (bytes_eq (modality_of o.search_file) (codes "text")) _ _
          (λ _. tt) (λ _. media_query-AllStep (modality_of o.search_file) bytes)

    pub query_of-AllStep :
        (files : Bytes → Option Bytes) → AllStep Anything X (query_of c o m files)
    unfolding query_of
    query_of-AllStep files =
        if-cases (AllStep Anything X) (not (is_empty o.search_file)) _ _
          (λ _. file_query-AllStep (files o.search_file)) (λ _. tt)

    pub rank_vectors-AllStep : (text : Bytes) → AllStep Anything X (rank_vectors c o m text)
    unfolding rank_vectors
    rank_vectors-AllStep text =
        bind-AllStep Anything Anything X _ _
          (bind-AllStep Anything Anything X (lift (c.embed (text ∷ []))) or_fail
            (lift_any (c.embed (text ∷ []))) (λ qe u. or_fail-AllStep qe))
          λ qe u. bind-AllStep Anything Anything X _ _ (lift_any _) (λ hits v. tt)
