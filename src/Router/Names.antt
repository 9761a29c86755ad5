-- ===== src/Router/Names.antt =====
-- Names of endpoints. A name that begins with a slash is a pattern: the text behind the slash.
use Prim.Native.Char.{code}
use Prim.Native.String.{String}
use uav_router.Base.{Bool, false, ◌==◌}

-- `name[0]=='/'`
abbrev pub is_pattern : String → Bool
is_pattern String.[] = false
is_pattern (String.◌∷◌ c s) = code c == 47

-- `name.substr(1)`
abbrev pub pattern_of : String → String
pattern_of String.[] = String.[]
pattern_of (String.◌∷◌ c s) = s
