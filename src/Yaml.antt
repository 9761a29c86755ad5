-- ===== src/Yaml.antt =====
-- A node of the configuration as the library that parses it hands it to the program (YAML::Node): its
-- kind and its parts. Keys are texts. `cfg[key]` is a node that is not defined where there is none.
use Prim.Native.String.{String}
use text.Mathlib.Text.{◌==◌}
use uav_router.Base.{Bool, true, false, if◌then◌else◌}

mutual
  pub data Node : Type 0 where
    undefined : Node
    null : Node
    scalar : String → Node
    sequence : Nodes → Node
    mapping : Entries → Node

  pub data Nodes : Type 0 where
    nil : Nodes
    cons : Node → Nodes → Nodes

  pub data Entries : Type 0 where
    none_left : Entries
    entry : String → Node → Entries → Entries

-- the value of the first entry with the key
abbrev pub lookup : String → Entries → Node
lookup key none_left = undefined
lookup key (entry k v es) = let rest = lookup key es in if k == key then v else rest

-- `cfg[key]`
abbrev pub child : String → Node → Node
child key undefined = undefined
child key null = undefined
child key (scalar s) = undefined
child key (sequence ns) = undefined
child key (mapping es) = lookup key es

-- `if (cfg)`
abbrev pub is_defined : Node → Bool
is_defined undefined = false
is_defined null = true
is_defined (scalar s) = true
is_defined (sequence ns) = true
is_defined (mapping es) = true
