-- ===== src/Lockfile/Pins.antt =====
-- internal/lockfile/lockfile.go: pins, and the order and the merging of equal ones.
pub mod Merged
use mathlib.Core.List.{foldl}
use keyholders.Base.{
  Bool, ◌&&◌, ◌||◌, if◌then◌else◌, List, [], ◌∷◌, ◌++◌, Text, text_eq, text_lt, sort_by,
}
use keyholders.Semver.Version.{is_empty}

pub record Pin : Type 0 where
  pub name : Text
  pub version : Text
  pub direct : Bool
  pub dev : Bool

pub data Format : Type 0 where
  npm : Format
  pnpm : Format
  yarn : Format

pub record Lockfile : Type 0 where
  pub project : Text
  pub format : Format
  pub pins : List Pin

abbrev pub key : Pin → Text
key p = p.name ++ b'@' ∷ p.version

-- The body of the loop: the map from keys to indices is the position of the pin with the key.
unfoldable pub merge_pin : List Pin → Pin → List Pin
merge_pin [] p = p ∷ []
merge_pin (q ∷ out) p =
    let rest = merge_pin out p in
    if text_eq (key q) (key p)
    then record {
      name = q.name;
      version = q.version;
      direct = q.direct || p.direct;
      dev = q.dev && p.dev;
    }
      ∷ out
    else q ∷ rest

unfoldable pub add_pin : List Pin → Pin → List Pin
add_pin out p = if is_empty p.name then out else if is_empty p.version then out else merge_pin out p

-- The callback of the sort.
abbrev pub pin_before : Pin → Pin → Bool
pin_before a b =
    if text_eq a.name b.name then text_lt a.version b.version else text_lt a.name b.name

abbrev pub normal_pins : List Pin → List Pin
normal_pins pins = sort_by pin_before (foldl add_pin [] pins)

unfoldable pub normalise : Lockfile → Lockfile
normalise l = record { project = l.project; format = l.format; pins = normal_pins l.pins }
