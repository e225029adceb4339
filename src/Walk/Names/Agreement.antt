-- ===== src/Walk/Names/Agreement.antt =====
-- The modality of a path and its type agree.
use chimera_ape.Base.{
  ◌≡◌, refl, Bool, true, false, ◌&&◌, ◌||◌, [], ◌∷◌, arith, if-cases, Bytes, codes, bytes_eq,
  starts_with, All, inl, inr, Bool-cases, not,
}
use chimera_ape.Walk.Names.{
  Assoc, mime_table, find_or, is_ext, mime_of_ext, mime_of, image, audio, modality_of_ext,
  modality_of, ext_of,
}

abbrev IsMedia : Bytes → Type 0
IsMedia mime =
    (starts_with (codes "image/") mime ≡ false) × (starts_with (codes "audio/") mime ≡ false)

-- What the type says of the modality.
abbrev pub Agrees : Bytes → Bytes → Type 0
Agrees mime modality =
    (starts_with (codes "image/") mime ≡ bytes_eq modality image)
    × (starts_with (codes "audio/") mime ≡ bytes_eq modality audio)

find_or-IsMedia :
    (d k : Bytes) (m : Assoc)
    → IsMedia d
    → All (λ (e : Bytes × Bytes). IsMedia e.1) m
    → IsMedia (find_or d k m)
unfolding find_or
find_or-IsMedia d k [] h hs = h
find_or-IsMedia d k ((j, v) ∷ m) h hs =
    if-cases IsMedia (bytes_eq j k) _ _ (λ _. hs.0) (λ _. find_or-IsMedia d k m h hs.1)

-- A test of `IsMedia` on the types of a table.
abbrev no_media : Assoc → Bool
no_media [] = true
no_media ((k, v) ∷ m) =
    not (starts_with (codes "image/") v) && not (starts_with (codes "audio/") v) && no_media m

no_media-All : (m : Assoc) → no_media m ≡ true → All (λ (e : Bytes × Bytes). IsMedia e.1) m
no_media-All [] e = tt
no_media-All ((k, v) ∷ m) e = ((ground arith, ground arith), no_media-All m (ground arith))

mime_table-IsMedia : All (λ (e : Bytes × Bytes). IsMedia e.1) mime_table
unfolding starts_with
mime_table-IsMedia = no_media-All mime_table refl

Agrees-mime_of_ext : (e : Bytes) → Agrees (mime_of_ext e) (modality_of_ext e)
unfolding mime_of_ext modality_of_ext bytes_eq starts_with
Agrees-mime_of_ext e = elim (Bool-cases (is_ext e (codes "png"))) [
  | inl png ↦ rw png (refl, refl)
  | inr p ↦ elim (Bool-cases (is_ext e (codes "jpg") || is_ext e (codes "jpeg"))) [
    | inl jpg ↦ rw (p, jpg) (refl, refl)
    | inr j ↦ elim (Bool-cases (is_ext e (codes "wav"))) [
      | inl wav ↦ rw (p, j, wav) (refl, refl)
      | inr w ↦ elim (Bool-cases (is_ext e (codes "mp3"))) [
        | inl mp3 ↦ rw (p, j, w, mp3) (refl, refl)
        | inr m ↦
            rw (p, j, w, m)
              (find_or-IsMedia (codes "text/plain") e mime_table (refl, refl) mime_table-IsMedia)
      ]
    ]
  ]
]

-- The type of every path starts with `image/` exactly when its modality is image, and with `audio/`
-- exactly when its modality is audio.
pub mime_of-modality_of : (path : Bytes) → Agrees (mime_of path) (modality_of path)
unfolding mime_of modality_of
mime_of-modality_of path = Agrees-mime_of_ext (ext_of path)
