-- ===== src/Organs/Placement.antt =====
-- src/organs.cpp: the vectors that `LlamaClient::embed` places.
use mathlib.Core.Path.{subst}
use chimera_ape.Base.{
  codes, ℕ, zero, suc, ◌≡◌, ◌≢◌, ◌⊎◌, ◌∙◌, inl, inr, refl, ap, arith, false, Option, none, some,
  List, [], ◌∷◌, Bytes, if◌then◌else◌, length, All, if-cases, Result, ok, err, ◌>>=◌,
}
use chimera_ape.Http.{HttpResponse}
use chimera_ape.Json.{Json, elements}
use chimera_ape.Organs.{Server}
use chimera_ape.Organs.Answers.{
  ◌>>-◌, renormalized, set_at, place, place_all, replicate, any_empty, embed_answer,
}
use chimera_ape.Organs.Clients.{embed, embed_request}

-- The value, if there is one, satisfies `P`.
abbrev AllSome : {A : Type 0} → (A → Type 0) → Option A → Type 0
AllSome P none = Unit
AllSome P (some a) = P a

then-AllSome :
    {A B : Type 0} (Q : B → Type 0) (o : Option A) (f : A → Option B)
    → ((a : A) → AllSome Q (f a))
    → AllSome Q (o >>- f)
unfolding ◌>>-◌
then-AllSome Q none f k = tt
then-AllSome Q (some a) f k = k a

bind-AllSome :
    {A B : Type 0} (P : A → Type 0) (Q : B → Type 0) (o : Option A) (f : A → Option B)
    → AllSome P o
    → ((a : A) → P a → AllSome Q (f a))
    → AllSome Q (o >>- f)
unfolding ◌>>-◌
bind-AllSome P Q none f h k = tt
bind-AllSome P Q (some a) f h k = k a h

bind-ok :
    {A B : Type 0} (r : Result A) (f : A → B) {b : B}
    → (r >>= λ a. ok (f a)) ≡ ok b
    → (a : A) × (f a ≡ b)
unfolding ◌>>=◌
bind-ok (ok a) f h = (a, cc)
bind-ok (err e) f h = absurd cc

module _ {D : Type 0} (server : Server D) where
  -- A vector as it comes from the server, renormalised.
  abbrev pub IsRenormalized : List D → Type 0
  IsRenormalized v = (raw : List D) × (v ≡ renormalized server raw)

  abbrev IsPlaced : List D → Type 0
  IsPlaced v = (v ≡ []) ⊎ IsRenormalized v

  -- One slot for each input, filled or not.
  abbrev Slots : ℕ → List (List D) → Type 0
  Slots n out = (length out ≡ n) × All IsPlaced out

  set_at-Slots :
      (i : ℕ) (v : List D) (n : ℕ) (out : List (List D))
      → IsPlaced v
      → Slots n out
      → Slots n (set_at server i v out)
  unfolding set_at
  set_at-Slots i v n [] hv h = h
  set_at-Slots zero v n (x ∷ out) hv (len, all) = (len, (hv, all.1))
  set_at-Slots (suc i) v n (x ∷ out) hv (len, all) =
      let later = set_at-Slots i v (length out) out hv (refl, all.1) in
      (ap suc later.0 ∙ len, (all.0, later.1))

  place-AllSome :
      (n : ℕ) (item : Json D) (out : List (List D))
      → Slots n out
      → AllSome (Slots n) (place server item out)
  unfolding place
  place-AllSome n item out h = then-AllSome (Slots n) _ _ λ idx.
      then-AllSome (Slots n) _ _
        λ vec. set_at-Slots idx (renormalized server vec) n out (inr (vec, refl)) h

  place_all-AllSome :
      (n : ℕ) (more : List (Json D)) (out : List (List D))
      → Slots n out
      → AllSome (Slots n) (place_all server more out)
  unfolding place_all
  place_all-AllSome n [] out h = h
  place_all-AllSome n (item ∷ more) out h =
      bind-AllSome (Slots n) (Slots n) _ _ (place-AllSome n item out h) (place_all-AllSome n more)

  replicate-Slots : (n : ℕ) → Slots n (replicate server n)
  replicate-Slots zero = (refl, tt)
  replicate-Slots (suc n) = let later = replicate-Slots n in (ap suc later.0, (inl refl, later.1))

  -- A vector for each input, none of them empty.
  abbrev pub Filled : ℕ → List (List D) → Type 0
  Filled n out = (length out ≡ n) × All (λ v. (v ≢ []) × IsRenormalized v) out

  filled :
      (out : List (List D))
      → All IsPlaced out
      → any_empty server out ≡ false
      → All (λ v. (v ≢ []) × IsRenormalized v) out
  filled [] h e = tt
  filled ([] ∷ out) h e = absurd (ground arith)
  filled ((x ∷ v) ∷ out) h e =
      ((λ f. cc, elim h.0 [ inl f ↦ absurd cc | inr r ↦ r ]), filled out h.1 e)

  checked-AllSome :
      (n : ℕ) (out : List (List D))
      → Slots n out
      → AllSome (Filled n) (if any_empty server out then none else some out)
  checked-AllSome n out h =
      if-cases (AllSome (Filled n)) (any_empty server out) none (some out) (λ e. tt)
        (λ e. (h.0, filled out h.1 e))

  embed_answer-AllSome :
      (n : ℕ) (response : Option HttpResponse) → AllSome (Filled n) (embed_answer server n response)
  unfolding embed_answer
  embed_answer-AllSome n response = then-AllSome (Filled n) _ _ λ body.
      then-AllSome (Filled n) _ _ λ j. then-AllSome (Filled n) _ _ λ items.
        bind-AllSome (Slots n) (Filled n) _ _
          (place_all-AllSome n (elements items) (replicate server n) (replicate-Slots n))
          (checked-AllSome n)

  AllSome_elim :
      {A : Type 0} (P : A → Type 0) (o : Option A) {a : A} → AllSome P o → o ≡ some a → P a
  AllSome_elim P none h e = absurd cc
  AllSome_elim P (some b) {a = a} h e = subst P {x = b} {y = a} (cc) h

  -- Whatever the server answers, an embedding that is returned has one vector for each input, and
  -- each of them is not empty and is a renormalised vector of the answer.
  pub embed-Filled :
      (inputs : List Bytes) {out : List (List D)}
      → embed server inputs ≡ ok (some out)
      → Filled (length inputs) out
  unfolding embed
  embed-Filled inputs h =
      let (body, e) = bind-ok (server.dump (embed_request inputs)) _ h in
      AllSome_elim (Filled (length inputs)) _
        (embed_answer-AllSome (length inputs)
          (server.post (codes "/v1/embeddings") body (codes "application/json")))
        e
