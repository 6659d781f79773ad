-- ===== src/Lockfile/Pnpm/Keys.antt =====
-- `pnpmKey` of internal/lockfile/pnpm.go reads back the name and the version that an entry key is
-- made of.
use keyholders.Base.{ℕ, ◌≡◌, Bool, true, false, ◌==◌, ◌||◌, [], ◌∷◌, ◌++◌, Option, none, some, Text}
use keyholders.Base.Cutting.{Lacks}
use keyholders.Lockfile.Words.{starts_with_digit}
use keyholders.Lockfile.Words.Trim.{Without, is_margin}

-- The bytes that do not stand in a name or a version: spaces, quotes and the opening bracket.
abbrev pub is_foreign : ℕ → Bool
is_foreign c = is_margin c || c == b'('

-- A name does not start with a slash, and has an `@` at most in front.
abbrev pub IsName : Text → Type 0
IsName [] = ⊥
IsName (c ∷ s) = ((c == b'/') ≡ false) × Without is_foreign (c ∷ s) × Lacks b'@' s

abbrev pub IsVersion : Text → Type 0
IsVersion v = (starts_with_digit v ≡ true) × Without is_foreign v × Lacks b'@' v × Lacks b'/' v

-- The brackets that pnpm hangs on a key.
abbrev pub peers_text : Option Text → Text
peers_text none = []
peers_text (some peers) = b'(' ∷ (peers ++ b')' ∷ [])

abbrev pub IsPeers : Option Text → Type 0
IsPeers none = Unit
IsPeers (some peers) = Without is_margin peers
