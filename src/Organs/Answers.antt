-- ===== src/Organs/Answers.antt =====
-- src/organs.cpp: reading the servers' answers. A value that is missing or of another type throws,
-- and the callers turn that into `none`.
use mathlib.Core.Option
use chimera_ape.Base.{
  ℕ, zero, suc, Bool, true, false, ◌||◌, Option, none, some, List, [], ◌∷◌, map, ◌==◌,
  if◌then◌else◌, Bytes, codes, is_empty, length, get_elem?, Result, ok, err,
}
use chimera_ape.Http.{HttpResponse}
use chimera_ape.Util.Strtol.{ℤ, pos, negsuc}
use chimera_ape.Json.{null, Json, bool, number, arr, items, elements, find_key, value_string}
use chimera_ape.Organs.{Server, Hit}

abbrev is_200 : ℤ → Bool
is_200 (pos n) = n == 200
is_200 (negsuc n) = false

-- The body of an answer with status 200.
abbrev pub body_of : Option HttpResponse → Option Bytes
body_of none = none
body_of (some r) = if is_200 r.status then some r.body else none

abbrev pub to_option : {A : Type 0} → Result A → Option A
to_option (ok a) = some a
to_option (err e) = none

infixl 5 ◌>>-◌
unfoldable pub ◌>>-◌ : {A B : Type 0} → Option A → (A → Option B) → Option B
none >>- f = none
some a >>- f = f a

module _ {D : Type 0} where
  -- `at(i)`
  unfoldable pub at_index : ℕ → Json D → Option (Json D)
  at_index i (arr vs) = get_elem? (items vs) i
  at_index i v = none

  module _ (server : Server D) where
    unfoldable pub get_count : Json D → Option ℕ
    get_count (number d) = server.numbers.to_count d
    get_count v = none

    -- `get<std::vector<float>>`: an array of numbers; a Boolean is 0 or 1.
    unfoldable pub numbers_of : List (Json D) → Option (List D)
    numbers_of [] = some []
    numbers_of (number d ∷ vs) = Option.map (◌∷◌ d) (numbers_of vs)
    numbers_of (bool b ∷ vs) =
        Option.map (◌∷◌ (server.numbers.of_count (if b then 1 else 0))) (numbers_of vs)
    numbers_of (v ∷ vs) = none

    unfoldable pub get_vector : Json D → Option (List D)
    unfolding numbers_of
    get_vector (arr vs) = numbers_of (items vs)
    get_vector v = none

    -- The sum of the squares, from the left.
    unfoldable pub squares : D → List D → D
    squares acc [] = acc
    squares acc (v ∷ vs) = squares (server.numbers.plus acc (server.numbers.times v v)) vs

    abbrev scaled : D → List D → List D
    scaled inv vec = map (λ v. server.numbers.times v inv) vec

    -- Scaled to norm 1, unless it is zero.
    unfoldable pub renormalized : List D → List D
    unfolding squares
    renormalized vec =
        let n2 = squares server.numbers.zero vec in
        if server.numbers.is_positive n2 then scaled (server.numbers.inverse_root n2) vec else vec

    unfoldable pub parsed : Bytes → Option (Json D)
    parsed body = to_option (server.json.parse body)

    -- The message's content, or what the model thought if that is empty. A content that is `null`
    -- throws at the first `value`, so the test for it after that one is never true.
    unfoldable pub content_of : Json D → Option Bytes
    unfolding value_string
    content_of msg = to_option (value_string server.json msg (codes "content") []) >>- λ content.
        if is_empty content
        then to_option (value_string server.json msg (codes "reasoning_content") [])
        else some content

    -- `j.at("choices").at(0).at("message")`
    unfoldable pub chat_answer : Option HttpResponse → Option Bytes
    unfolding parsed find_key at_index content_of
    chat_answer response = body_of response >>- λ body. parsed body >>- λ j.
        find_key (codes "choices") j >>- λ choices.
        at_index 0 choices >>- λ first. find_key (codes "message") first >>- λ msg. content_of msg

    -- `out[idx] = …` for an index within the vector.
    unfoldable pub set_at : ℕ → List D → List (List D) → List (List D)
    set_at i v [] = []
    set_at zero v (x ∷ xs) = v ∷ xs
    set_at (suc i) v (x ∷ xs) = x ∷ set_at i v xs

    unfoldable pub place : Json D → List (List D) → Option (List (List D))
    unfolding find_key get_count get_vector renormalized set_at
    place item out = (find_key (codes "index") item >>- get_count) >>- λ idx.
        (find_key (codes "embedding") item >>- get_vector) >>- λ vec.
        some (set_at idx (renormalized vec) out)

    unfoldable pub place_all : List (Json D) → List (List D) → Option (List (List D))
    unfolding place
    place_all [] out = some out
    place_all (item ∷ more) out = place item out >>- place_all more

    abbrev pub replicate : ℕ → List (List D)
    replicate zero = []
    replicate (suc n) = [] ∷ replicate n

    abbrev pub any_empty : List (List D) → Bool
    any_empty [] = false
    any_empty (v ∷ vs) = if is_empty_vector v then true else any_empty vs
      where
        is_empty_vector : List D → Bool
        is_empty_vector [] = true
        is_empty_vector (_ ∷ _) = false

    -- The vectors of `n` inputs.
    unfoldable pub embed_answer : ℕ → Option HttpResponse → Option (List (List D))
    unfolding parsed find_key place_all
    embed_answer n response = body_of response >>- λ body. parsed body >>- λ j.
        find_key (codes "data") j >>- λ items.
        place_all (elements items) (replicate n) >>- λ out. if any_empty out then none else some out

    -- `j.at("data").at(0).at("embedding")`
    unfoldable pub media_answer : Option HttpResponse → Option (List D)
    unfolding parsed find_key at_index get_vector renormalized
    media_answer response = body_of response >>- λ body. parsed body >>- λ j.
        find_key (codes "data") j >>- λ items. at_index 0 items >>- λ first.
        find_key (codes "embedding") first >>- λ v. Option.map renormalized (get_vector v)

    -- Ids and scores, as far as both go.
    unfoldable pub hits_of : List (Json D) → List (Json D) → Option (List (Hit D))
    unfolding get_count
    hits_of (i ∷ ids) (number d ∷ scores) = get_count i >>- λ key.
        hits_of ids scores >>- λ hits. some (record { vec_key = key; score = d } ∷ hits)
    hits_of (i ∷ ids) (s ∷ scores) = none
    hits_of ids scores = some []

    abbrev size : Json D → ℕ
    size v = length (elements v)

    unfoldable pub hits_at : Json D → Json D → Option (List (Hit D))
    unfolding hits_of
    hits_at (arr ids) (arr scores) = hits_of (items ids) (items scores)
    hits_at ids scores = if size ids == 0 || size scores == 0 then some [] else none

    unfoldable pub query_answer : Option HttpResponse → Option (List (Hit D))
    unfolding parsed find_key at_index hits_at
    query_answer response = body_of response >>- λ body. parsed body >>- λ j.
        (find_key (codes "ids") j >>- at_index 0) >>- λ ids.
        (find_key (codes "scores") j >>- at_index 0) >>- λ scores. hits_at ids scores

    abbrev dim_of : Json D → Option ℕ
    dim_of null = some 0
    dim_of v = get_count v

    -- The dimension, 0 if it is not set, and the number of vectors.
    unfoldable pub info_answer : Option HttpResponse → Option (ℕ × ℕ)
    unfolding parsed find_key get_count
    info_answer response = body_of response >>- λ body. parsed body >>- λ j.
        (find_key (codes "dim") j >>- dim_of) >>- λ dim.
        (find_key (codes "count") j >>- get_count) >>- λ count. some (dim, count)
