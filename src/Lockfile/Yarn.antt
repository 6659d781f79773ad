-- ===== src/Lockfile/Yarn.antt =====
-- internal/lockfile/yarn.go: entry headers and the versions below them, in both dialects.
pub mod Headers
use keyholders.Base.{
  ℕ, Bool, true, false, ◌==◌, ◌||◌, if◌then◌else◌, List, [], ◌∷◌, ◌++◌, Option, none, some, Text,
  bytes, text_eq, Read, trim_space, trim_byte, cut, has_prefix, drop,
}
use keyholders.Lockfile.Words.{trim_quotes, trim_suffix, at_margin}
use keyholders.Lockfile.Pins.{Pin, Format, Lockfile, normalise}
use keyholders.Semver.Version.{is_empty}

abbrev with_scope : Text × Option Text → Text × Option Text
with_scope (name, rest) = (b'@' ∷ name, rest)

-- A leading `@` is no separator; without another one there is no descriptor.
unfoldable pub split_descriptor : Text → Text × Option Text
split_descriptor [] = ([], none)
split_descriptor (c ∷ s) = if c == b'@' then with_scope (cut b'@' s) else cut b'@' (c ∷ s)

abbrev pub is_local : Text → Bool
is_local descriptor =
    has_prefix (bytes "workspace:") descriptor
    || (has_prefix (bytes "link:") descriptor
        || (has_prefix (bytes "portal:") descriptor || has_prefix (bytes "file:") descriptor))

-- `npm:` with a name and a range names the package that is installed.
abbrev pub aliased : Text → Text × Option Text → Text
aliased name (real, some range) = real
aliased name (range, none) = name

abbrev pub name_of : Text × Option Text → Text
name_of (name, none) = []
name_of (name, some descriptor) =
    if is_empty name || has_prefix (bytes "__") name
    then []
    else if is_local descriptor
    then []
    else if has_prefix (bytes "npm:") descriptor
    then aliased name (split_descriptor (drop 4 descriptor))
    else name

unfoldable pub yarn_entry_name : Text → Text
yarn_entry_name header =
    name_of (split_descriptor (trim_quotes (trim_space ((cut b',' (trim_suffix b':' header)).0))))

unfoldable pub yarn_version : Text → Option Text
yarn_version line =
    let version = trim_quotes (trim_space (trim_byte b':' (trim_space (drop 7 line)))) in
    if has_prefix (bytes "version") line
    then if is_empty version || text_eq version (bytes "0.0.0-use.local")
      then none
      else some version
    else none

abbrev pub is_comment : Text → Bool
is_comment trimmed = is_empty trimmed || has_prefix (bytes "#") trimmed

abbrev pub pin_of : Text → Text → Pin
pin_of name version = record { name = name; version = version; direct = false; dev = false }

-- The loop over the lines, with the name of the entry that has no version yet.
unfoldable pub yarn_pins : Text → List Text → List Pin
yarn_pins pending [] = []
yarn_pins pending (line ∷ lines) =
    let rest = yarn_pins pending lines in
    let trimmed = trim_space line in
    let entry = yarn_pins (yarn_entry_name trimmed) lines in
    let done = yarn_pins [] lines in
    if is_comment trimmed
    then rest
    else if at_margin line
    then entry
    else if is_empty pending
    then rest
    else elim (yarn_version trimmed) [ none ↦ rest | some version ↦ pin_of pending version ∷ done ]

unfoldable pub parse_yarn : Read (List Text) → Read Lockfile
parse_yarn (Read.failed e) = Read.failed e
parse_yarn (Read.got lines) =
    Read.got (normalise (record { project = []; format = Format.yarn; pins = yarn_pins [] lines }))
