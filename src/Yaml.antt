-- ===== src/Yaml.antt =====
-- The two trees that ruamel.yaml gives the sources: the loaded values that the routes change, and the
-- composed nodes with their marks. ruamel itself is the record `Yaml`. Keys of mappings are scalars
-- and are read as texts; other scalars than strings (numbers, dates) are kept as their text.
pub mod Plain
use hactl_companion.Base.{ℕ, Bool, false, Option, Text}

-- How a scalar is written: ruamel's `ScalarString` subclasses, and a node's `style`.
pub data Style : Type 0 where
  bare single double literal folded : Style

pub record Key : Type 0 where
  pub style : Style
  pub text : Text

mutual
  pub data Value : Type 0 where
    null : Value
    atom : Text → Value
    str : Style → Text → Value
    -- A tagged scalar such as `!secret home_lat`: its tag, and its text.
    tagged : Text → Text → Value
    seq : Items → Value
    map : Fields → Value

  pub data Items : Type 0 where
    nil : Items
    cons : Value → Items → Items

  pub data Fields : Type 0 where
    end : Fields
    field : Key → Value → Fields → Fields

-- A step of a path into a tree: a mapping's key or a list's index.
pub data Seg : Type 0 where
  key : Text → Seg
  index : ℕ → Seg

pub record Mark : Type 0 where
  pub offset : ℕ
  pub column : ℕ

pub record Scalar : Type 0 where
  pub start_mark : Mark
  pub end_mark : Mark
  pub style : Style
  pub value : Text

mutual
  pub data Node : Type 0 where
    scalar : Scalar → Node
    sequence : Mark → Bool → Nodes → Node
    mapping : Mark → Bool → Pairs → Node

  pub data Nodes : Type 0 where
    no_nodes : Nodes
    node : Node → Nodes → Nodes

  pub data Pairs : Type 0 where
    no_pairs : Pairs
    pair : Scalar → Node → Pairs → Pairs

-- `node.start_mark`.
unfoldable pub start_mark : Node → Mark
start_mark (scalar s) = s.start_mark
start_mark (sequence m flow ns) = m
start_mark (mapping m flow ps) = m

-- `node.flow_style`; a scalar has none.
unfoldable pub flow_style : Node → Bool
flow_style (scalar s) = false
flow_style (sequence m flow ns) = flow
flow_style (mapping m flow ps) = flow

-- What `yaml.dump` writes, and what it has written when it raises.
pub data Dumped : Type 0 where
  done : Text → Dumped
  failed : Text → Dumped

-- `compose`: `none` is a `YAMLError`, `some none` the result None. `load`: `none` is any exception.
pub record Yaml : Type 0 where
  pub compose : Text → Option (Option Node)
  pub load : Text → Option Value
  pub dump : Value → Dumped
