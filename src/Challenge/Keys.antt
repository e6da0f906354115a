-- ===== src/Challenge/Keys.antt =====
-- The value-based identity of flags and hints (internal/controller/challenge/flagshints.go): three
-- texts joined by NUL characters.
pub mod Identity
use Prim.Native.String.{◌++◌ as append}
use ctfd_crossplane_provider.Prelude.{String, ℤ, Option, none, some, if◌then◌else◌, ◌==◌, string_eq}
use ctfd_crossplane_provider.Strconv.Digits.{itoa}

-- defaultFlagType
abbrev pub default_flag_type : String
default_flag_type = "static"

unfoldable pub flag_type_or_default : String → String
flag_type_or_default t = if t == "" then default_flag_type else t

abbrev pub deref_string : Option String → String
deref_string none = ""
deref_string (some s) = s

-- Three texts with a NUL between them.
abbrev pub joined : String → String → String → String
joined a b c = append a (append "\0" (append b (append "\0" c)))

unfoldable pub flag_key : String → String → String → String
unfolding flag_type_or_default
flag_key content type options = joined content (flag_type_or_default type) options

unfoldable pub hint_key : String → Option String → ℤ → String
unfolding itoa
hint_key content title cost = joined content (deref_string title) (itoa cost)
