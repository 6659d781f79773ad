-- ===== src/Query/Rows.antt =====
-- What internal/query reads off the records of the graph client, whose driver is not code of the
-- program: the values of a property map, and the path of a record.
use keyholders.Base.{
  ℕ, Bool, true, false, ◌==◌, if◌then◌else◌, List, [], Option, some, Text, Table, bytes, lookup,
}
use keyholders.Query.Interval.{Interval, always}

-- A property: `other` is any type that the program does not read.
pub data Value : Type 0 where
  text : Text → Value
  int : ℕ → Value
  bool : Bool → Value
  other : Value

abbrev pub Props : Type 0
Props = Table Value

-- The value of the key `path`: no value, a value of some other type (with that type's name), or a
-- path with its nodes and its relationships.
pub data Row : Type 0 where
  missing : Row
  not_path : Text → Row
  path : List Props → List Props → Row

abbrev text_of : Option Value → Text
text_of (some (Value.text s)) = s
text_of o = []

abbrev int_of : Option Value → ℕ
int_of (some (Value.int n)) = n
int_of o = 0

abbrev bool_of : Option Value → Bool
bool_of (some (Value.bool b)) = b
bool_of o = false

abbrev is_bool : Option Value → Bool
is_bool (some (Value.bool b)) = true
is_bool o = false

-- A missing key and a value of another type read as the zero value.
abbrev pub string_prop : Props → Text → Text
string_prop props key = text_of (lookup key props)

abbrev pub int_prop : Props → Text → ℕ
int_prop props key = int_of (lookup key props)

abbrev pub bool_prop : Props → Text → Bool
bool_prop props key = bool_of (lookup key props)

-- An edge without a window is valid whenever anything is.
unfoldable pub interval_of : Props → Interval
interval_of props = if int_prop props (bytes "valid_to") == 0 then always else record {
  from = int_prop props (bytes "valid_from");
  to = int_prop props (bytes "valid_to");
}

pub record VersionAttrs : Type 0 where
  pub urn : Text
  pub published_at : ℕ
  pub published_by : Text
  pub has_provenance : Bool
  pub has_install_script : Bool
  pub deprecated : Bool
  pub annotated : Bool

-- A boolean under `has_provenance` is what tells a version that was looked at.
unfoldable pub version_attrs : Props → VersionAttrs
version_attrs props = record {
  urn = string_prop props (bytes "urn");
  published_at = int_prop props (bytes "published_at");
  published_by = string_prop props (bytes "published_by");
  has_provenance = bool_prop props (bytes "has_provenance");
  has_install_script = bool_prop props (bytes "has_install_script");
  deprecated = bool_prop props (bytes "deprecated");
  annotated = is_bool (lookup (bytes "has_provenance") props);
}
