-- ===== src/Lockfile/Pnpm.antt =====
-- internal/lockfile/pnpm.go: the keys of the section `packages:`.
pub mod Keys
use keyholders.Base.{
  ℕ, suc, Bool, true, false, ◌==◌, ltb, ◌||◌, not, if◌then◌else◌, List, [], ◌∷◌, Option, none, some,
  Text, bytes, Read, trim_space, trim_byte, cut, cut_last, has_prefix,
}
use keyholders.Lockfile.Words.{trim_quotes, trim_suffix, has_suffix, starts_with_digit, at_margin}
use keyholders.Lockfile.Pins.{Pin, Format, Lockfile, normalise}
use keyholders.Semver.Version.{is_empty}

-- The test that ends `pnpmKey`; the name is not empty.
abbrev pub checked : Text → Text → Option (Text × Text)
checked name version = if starts_with_digit version then some (name, version) else none

-- The separator of lockfile version 5.
abbrev pub by_slash : Option (Text × Text) → Option (Text × Text)
by_slash (some (c ∷ name, version)) = checked (c ∷ name) version
by_slash o = none

abbrev pub by_at : Text → Option (Text × Text) → Option (Text × Text)
by_at key (some (c ∷ name, version)) = checked (c ∷ name) version
by_at key o = by_slash (cut_last b'/' key)

unfoldable pub pnpm_key : Text → Option (Text × Text)
pnpm_key key =
    let bare = trim_byte b'/' (trim_quotes (trim_space (trim_suffix b':' key))) in
    let identity = (cut b'(' bare).0 in
    if is_empty bare then none else by_at identity (cut_last b'@' identity)

unfoldable pub indent : Text → ℕ
indent [] = 0
indent (c ∷ s) = let n = indent s in if c == b' ' || c == 9 then suc n else 0

-- The loop over the lines, with the flag for the section.
unfoldable pub pnpm_pins : Bool → List Text → List Pin
pnpm_pins in_packages [] = []
pnpm_pins in_packages (line ∷ lines) =
    let rest = pnpm_pins in_packages lines in
    let section = pnpm_pins (has_prefix (bytes "packages:") line) lines in
    let trimmed = trim_space line in
    if is_empty trimmed
    then rest
    else if at_margin line
    then section
    else if not in_packages
    then rest
    else if ltb 2 (indent line) || not (has_suffix (bytes ":") trimmed)
    then rest
    else elim (pnpm_key trimmed) [
      | none ↦ rest
      | some (name, version) ↦
          record { name = name; version = version; direct = false; dev = false } ∷ rest
    ]

-- The lines that the scanner gives, or its error.
unfoldable pub parse_pnpm : Read (List Text) → Read Lockfile
parse_pnpm (Read.failed e) = Read.failed e
parse_pnpm (Read.got lines) =
    Read.got
      (normalise (record { project = []; format = Format.pnpm; pins = pnpm_pins false lines }))
