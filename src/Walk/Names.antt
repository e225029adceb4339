-- ===== src/Walk/Names.antt =====
-- src/walk.cpp: extensions, and the types and modalities that they stand for.
pub mod Agreement
use mathlib.Core.Option
use chimera_ape.Base.{
  ℕ, suc, ◌+◌, Bool, false, ◌&&◌, ◌||◌, Option, none, some, List, [], ◌∷◌, map, ltb, ◌==◌,
  if◌then◌else◌, Bytes, codes, bytes_eq, drop, tolower,
}

-- `s.find_last_of(c)`
unfoldable pub last_index_of : ℕ → Bytes → Option ℕ
last_index_of c [] = none
last_index_of c (x ∷ xs) = elim (last_index_of c xs) [
  | some k ↦ some (suc k)
  | none ↦ if x == c then some 0 else none
]

abbrev is_before : ℕ → Option ℕ → Bool
is_before dot none = false
is_before dot (some slash) = ltb dot slash

abbrev ext_at : Bytes → Option ℕ → Option ℕ → Bytes
ext_at path none slash = []
ext_at path (some dot) slash = if is_before dot slash then [] else map tolower (drop (dot + 1) path)

unfoldable pub ext_of : Bytes → Bytes
unfolding last_index_of tolower
ext_of path = ext_at path (last_index_of b'.' path) (last_index_of b'/' path)

abbrev pub Assoc : Type 0
Assoc = List (Bytes × Bytes)

-- `kMime`
abbrev mime_table : Assoc
mime_table =
    (codes "md", codes "text/markdown")
    ∷ (codes "markdown", codes "text/markdown")
    ∷ (codes "html", codes "text/html")
    ∷ (codes "htm", codes "text/html")
    ∷ (codes "csv", codes "text/csv")
    ∷ (codes "json", codes "application/json")
    ∷ (codes "txt", codes "text/plain")
    ∷ (codes "py", codes "text/x-python")
    ∷ (codes "c", codes "text/x-c")
    ∷ (codes "h", codes "text/x-c")
    ∷ (codes "cpp", codes "text/x-c++")
    ∷ (codes "hpp", codes "text/x-c++")
    ∷ (codes "cc", codes "text/x-c++")
    ∷ (codes "rs", codes "text/x-rust")
    ∷ (codes "go", codes "text/x-go")
    ∷ (codes "js", codes "text/x-javascript")
    ∷ (codes "ts", codes "text/x-typescript")
    ∷ (codes "java", codes "text/x-java")
    ∷ (codes "sh", codes "text/x-shellscript")
    ∷ (codes "toml", codes "text/x-toml")
    ∷ (codes "yaml", codes "text/x-yaml")
    ∷ (codes "yml", codes "text/x-yaml")
    ∷ (codes "xml", codes "text/xml")
    ∷ (codes "sql", codes "text/x-sql")
    ∷ (codes "rb", codes "text/x-ruby")
    ∷ (codes "tex", codes "text/x-tex")
    ∷ []

pub find_or : Bytes → Bytes → Assoc → Bytes
find_or d k [] = d
find_or d k ((j, v) ∷ m) = if bytes_eq j k then v else find_or d k m

abbrev pub is_ext : Bytes → Bytes → Bool
is_ext e x = bytes_eq e x

pub mime_of_ext : Bytes → Bytes
mime_of_ext e =
    if is_ext e (codes "png")
    then codes "image/png"
    else if is_ext e (codes "jpg") || is_ext e (codes "jpeg")
    then codes "image/jpeg"
    else if is_ext e (codes "wav")
    then codes "audio/wav"
    else if is_ext e (codes "mp3")
    then codes "audio/mpeg"
    else find_or (codes "text/plain") e mime_table

unfoldable pub mime_of : Bytes → Bytes
unfolding ext_of mime_of_ext find_or bytes_eq
mime_of path = mime_of_ext (ext_of path)

abbrev pub text : Bytes
text = codes "text"

abbrev pub image : Bytes
image = codes "image"

abbrev pub audio : Bytes
audio = codes "audio"

pub modality_of_ext : Bytes → Bytes
modality_of_ext e =
    if is_ext e (codes "png") || is_ext e (codes "jpg") || is_ext e (codes "jpeg")
    then image
    else if is_ext e (codes "wav") || is_ext e (codes "mp3")
    then audio
    else text

unfoldable pub modality_of : Bytes → Bytes
unfolding ext_of modality_of_ext bytes_eq
modality_of path = modality_of_ext (ext_of path)

-- `kBinaryExt`
abbrev binary_exts : List Bytes
binary_exts =
    codes "png"
    ∷ codes "jpg"
    ∷ codes "jpeg"
    ∷ codes "gif"
    ∷ codes "webp"
    ∷ codes "ico"
    ∷ codes "bmp"
    ∷ codes "tiff"
    ∷ codes "pdf"
    ∷ codes "zip"
    ∷ codes "gz"
    ∷ codes "bz2"
    ∷ codes "xz"
    ∷ codes "zst"
    ∷ codes "tar"
    ∷ codes "7z"
    ∷ codes "rar"
    ∷ codes "exe"
    ∷ codes "dll"
    ∷ codes "so"
    ∷ codes "dylib"
    ∷ codes "a"
    ∷ codes "o"
    ∷ codes "bin"
    ∷ codes "dat"
    ∷ codes "db"
    ∷ codes "sqlite"
    ∷ codes "wasm"
    ∷ codes "mp3"
    ∷ codes "mp4"
    ∷ codes "wav"
    ∷ codes "ogg"
    ∷ codes "flac"
    ∷ codes "avi"
    ∷ codes "mkv"
    ∷ codes "mov"
    ∷ codes "ttf"
    ∷ codes "otf"
    ∷ codes "woff"
    ∷ codes "woff2"
    ∷ codes "gguf"
    ∷ codes "ape"
    ∷ codes "tvim"
    ∷ codes "pyc"
    ∷ codes "class"
    ∷ codes "jar"
    ∷ []

unfoldable pub is_one_of : Bytes → List Bytes → Bool
is_one_of e [] = false
is_one_of e (b ∷ bs) = bytes_eq e b || is_one_of e bs

unfoldable pub is_binary_ext : Bytes → Bool
unfolding ext_of is_one_of bytes_eq
is_binary_ext path = is_one_of (ext_of path) binary_exts
