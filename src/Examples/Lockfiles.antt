-- ===== src/Examples/Lockfiles.antt =====
-- internal/lockfile on entries of the three formats.
use keyholders.Base.{
  ◌≡◌, refl, Bool, true, false, List, [], ◌∷◌, some, Text, bytes, text_eq, In, is_space, cut,
  cut_last, has_prefix, trim_byte, trim_space,
}
use keyholders.Lockfile.Words.{trim_start, trim_end, trim_suffix}
use keyholders.Lockfile.Pins.{Pin, Format, Lockfile, key, merge_pin, add_pin, normalise}
use keyholders.Lockfile.Pins.Merged.{gathered, normalise-gathered}
use keyholders.Lockfile.Pnpm.{pnpm_key}
use keyholders.Lockfile.Yarn.{split_descriptor, yarn_entry_name, yarn_version, yarn_pins}

abbrev pin : Text → Text → Bool → Bool → Pin
pin name version direct dev = record { name = name; version = version; direct = direct; dev = dev }

abbrev core : Text
core = bytes "@babel/core"

-- A version 5 key with a peer: the last `@` is that of the peer.
pnpm_key-peer :
    pnpm_key (bytes "/react-dom/17.0.2_react@17.0.2:")
    ≡ some (bytes "react-dom/17.0.2_react", bytes "17.0.2")
unfolding pnpm_key trim_byte trim_space is_space trim_start trim_end trim_suffix cut cut_last
pnpm_key-peer = refl

-- A range with spaces, in quotes.
abbrev range : Text
range = bytes ">=7.27 <8"

abbrev yarn_text : List Text
yarn_text =
    bytes "# yarn lockfile v1"
    ∷ bytes "\"@babel-baseline/cli@npm:@babel/cli@7.27.1\":"
    ∷ bytes "  version: 7.27.1"
    ∷ bytes "lodash@^4.17.20, lodash@^4.17.21:"
    ∷ bytes "  version \"4.17.21\""
    ∷ []

yarn_pins-run :
    yarn_pins [] yarn_text
    ≡ pin (bytes "@babel/cli") (bytes "7.27.1") false false
      ∷ pin (bytes "lodash") (bytes "4.17.21") false false
      ∷ []
unfolding yarn_pins yarn_entry_name yarn_version split_descriptor trim_byte trim_space is_space
    trim_start trim_end trim_suffix cut has_prefix text_eq
yarn_pins-run = refl

abbrev twice : Lockfile
twice = record {
  project = bytes "p";
  format = Format.npm;
  pins =
      pin (bytes "a") (bytes "1.0.0") false true
      ∷ pin [] (bytes "2.0.0") true false
      ∷ pin (bytes "a") (bytes "1.0.0") true false
      ∷ [];
}

normalise-run : (normalise twice).pins ≡ pin (bytes "a") (bytes "1.0.0") true false ∷ []
unfolding normalise add_pin merge_pin text_eq
normalise-run = refl

normalise-gathered_example :
    ((q : Pin) → In q (normalise twice).pins → gathered (key q) twice.pins ≡ some (q.direct, q.dev))
    × ((k : Text) (direct dev : Bool)
        → gathered k twice.pins ≡ some (direct, dev)
        → (q : Pin) × In q (normalise twice).pins
          × (key q ≡ k)
          × (q.direct ≡ direct)
          × (q.dev ≡ dev))
normalise-gathered_example = normalise-gathered twice
