-- ===== src/Ingest/Document/Embed.antt =====
-- The batches of an embedding lose no text and keep the order.
use chimera_ape.Base.{
  ℕ, zero, suc, ◌≤◌, ◌≡◌, refl, ◌∙◌, ap, Option, some, List, [], ◌∷◌, ◌++◌, arith, Bytes, map,
  length, take, drop, length-drop, take-append-drop,
}
use chimera_ape.Hash.{Hashes}
use chimera_ape.Ingest.Document.{Services, embed_all, embed_batch}

map-append_lem {ℓ κ} :
    {A : Type ℓ} {B : Type κ} (f : A → B) (xs ys : List A) → map f xs ++ map f ys ≡ map f (xs ++ ys)
map-append_lem f [] ys = refl
map-append_lem f (x ∷ xs) ys = ap (◌∷◌ (f x)) (map-append_lem f xs ys)

module _ {F D : Type 0} (files : Bytes → Option Bytes) (h : Hashes) (s : Services F D) where
  pub embed_all_from :
      (vector : Bytes → List F)
      → ((ts : List Bytes) → s.embed ts ≡ some (map vector ts))
      → (fuel : ℕ) (ts : List Bytes) → length ts ≤ fuel
      → embed_all files h s fuel ts ≡ some (map vector ts)
  unfolding embed_all
  embed_all_from vector each fuel [] le = refl
  embed_all_from vector each zero (t ∷ ts) le = absurd (omega arith)
  embed_all_from vector each (suc fuel) (t ∷ ts) le =
      let shorter : length (drop embed_batch (t ∷ ts)) ≤ fuel = omega (arith, length-drop 15 ts) in
      rw
        (
          embed_all,
          each (take embed_batch (t ∷ ts)),
          embed_all_from vector each fuel (drop embed_batch (t ∷ ts)) shorter,
        )
        (ap some (
          map-append_lem vector (take embed_batch (t ∷ ts)) (drop embed_batch (t ∷ ts))
          ∙ ap (map vector) (take-append-drop embed_batch (t ∷ ts))))

  -- If the model embeds each text on its own, the batches together are the vectors of all texts in
  -- their order, one for each; the number of texts is fuel enough.
  pub embed_all_lem :
      (vector : Bytes → List F)
      → ((ts : List Bytes) → s.embed ts ≡ some (map vector ts))
      → (ts : List Bytes) → embed_all files h s (length ts) ts ≡ some (map vector ts)
  embed_all_lem vector each ts = embed_all_from vector each (length ts) ts (omega arith)
