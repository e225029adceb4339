-- ===== src/Base/Ctype.antt =====
-- The character classes of <cctype>, in the C locale.
use Prim.Native.Nat.{ℕ, ◌+◌}
use mathlib.Core.Bool.{Bool, ◌&&◌, ◌||◌}
use chimera_ape.Base.Tests.{leb, ◌==◌, if◌then◌else◌}

unfoldable pub isspace : ℕ → Bool
isspace c = (leb 9 c && leb c 13) || c == 32

unfoldable pub isupper : ℕ → Bool
isupper c = leb b'A' c && leb c b'Z'

unfoldable pub isdigit : ℕ → Bool
isdigit c = leb b'0' c && leb c b'9'

unfoldable pub isalnum : ℕ → Bool
unfolding isupper isdigit
isalnum c = isdigit c || isupper c || (leb b'a' c && leb c b'z')

unfoldable pub tolower : ℕ → ℕ
unfolding isupper
tolower c = if isupper c then c + 32 else c
