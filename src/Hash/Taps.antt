-- ===== src/Hash/Taps.antt =====
-- The taps of a file lie within it and apart, and every file that opens has an identifier.
use chimera_ape.Base.{
  ℕ, zero, suc, ◌+◌, ◌*◌, ◌/◌, ◌-◌, ◌≡◌, ◌<◌, ◌≤◌, refl, Bool, true, false, some, inl, inr, List,
  [], ◌∷◌, arith, leb, Bool-cases, Bytes, length, take, drop, length-drop, All, ◌%◌, ◌^◌,
}
use chimera_ape.Util.Hex.{to_hex, IsHexDigit, to_hex-IsHexDigit}
use chimera_ape.Hash.{
  Hashes, tap, whole_limit, read_at, le_bytes, be_bytes, taps, offsets, samples, triple_tap,
}

read_at-some :
    (f : Bytes) (off n : ℕ) → off + n ≤ length f → read_at f off n ≡ some (take n (drop off f))
unfolding read_at
read_at-some f off n h = ground (arith, length-drop off f)

-- Every offset leaves room for a tap.
abbrev Fits : ℕ → List ℕ → Type 0
Fits size = All (λ off. off + tap ≤ size)

-- The pieces of a file at the offsets.
abbrev pieces : Bytes → List ℕ → List Bytes
pieces f [] = []
pieces f (off ∷ offs) = take tap (drop off f) ∷ pieces f offs

taps-some : (f : Bytes) (offs : List ℕ) → Fits (length f) offs → taps f offs ≡ some (pieces f offs)
unfolding taps
taps-some f [] h = refl
taps-some f (off ∷ offs) h = rw (taps, read_at-some f off tap h.0) (rw (taps-some f offs h.1))

offsets-Fits : (size : ℕ) → whole_limit < size → Fits size (offsets size)
unfolding offsets
offsets-Fits size h = (omega arith, (omega arith, (omega arith, tt)))

-- Of a file over 192 KiB the first, the middle and the last 64 KiB are read in full: the middle piece
-- begins half a piece before the middle of the file, after the first one ends and at least a piece
-- before the last one does.
pub samples-Apart :
    (f : Bytes)
    → 196608 < length f
    → (samples f
        ≡ some (
            take 65536 f
            ∷ take 65536 (drop (length f / 2 - 32768) f)
            ∷ take 65536 (drop (length f - 65536) f)
            ∷ []))
      × (65536 ≤ length f / 2 - 32768)
      × (length f / 2 - 32768 + 65536 ≤ length f - 65536)
unfolding samples offsets
samples-Apart f h =
    let big : leb (length f) whole_limit ≡ false = ground arith in
    (
      rw big (taps-some f (offsets (length f)) (offsets-Fits (length f) h)),
      omega arith,
      omega arith,
    )

be_bytes-lt : (n h : ℕ) → All (λ x. x < 256) (be_bytes n h)
unfolding be_bytes
be_bytes-lt zero h = tt
be_bytes-lt (suc n) h = (mod_lt (h / 2 ^ (8 * n)), be_bytes-lt n h)
  where
    mod_lt : (a : ℕ) → a % 2 ^ 8 < 256
    mod_lt a = omega arith

-- A file is sampled whole or by taps, and never comes up short.
samples-some : (f : Bytes) → (ps : List Bytes) × (samples f ≡ some ps)
unfolding samples
samples-some f = elim (Bool-cases (leb (length f) whole_limit)) [
  | inl small ↦ rw small (_, refl)
  | inr big ↦
      rw (big, taps-some f (offsets (length f)) (offsets-Fits (length f) (ground arith))) (_, refl)
]

-- Every file that opens has an identifier and it is all hexadecimal digits, if BLAKE3 returns bytes.
pub triple_tap-IsHexDigit :
    (h : Hashes)
    → ((ps : List Bytes) → All (λ x. x < 256) (h.blake3 ps))
    → (paranoid : Bool) (f : Bytes)
    → (id : Bytes) × (triple_tap h paranoid (some f) ≡ some id) × All IsHexDigit id
unfolding triple_tap
triple_tap-IsHexDigit h bytes true f = (_, refl, to_hex-IsHexDigit _ (bytes _))
triple_tap-IsHexDigit h bytes false f =
    let (ps, e) = samples-some f in
    let n = h.xxh3_high64 (le_bytes 8 (length f) ∷ ps) in
    rw e (to_hex (be_bytes 8 n), refl, to_hex-IsHexDigit (be_bytes 8 n) (be_bytes-lt 8 n))
