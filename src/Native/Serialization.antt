-- ===== src/Native/Serialization.antt =====
-- native/serialization.ts and native/codecs/base.ts: the tree of serialization kinds. The payload
-- of a prefix belongs to the types Variant, Dynamic and JSON and is not part of the state here.
use chwire.Prelude.{ℕ, zero, suc, List, [], ◌∷◌}
use chwire.Prelude.Outcome.{Exec, return, ◌>>=◌}
use chwire.Io.Reader.{BufferReader, read_u8}

mutual
  pub data SerializationNode : Type 0 where
    node : ℕ → Nodes → SerializationNode

  pub data Nodes : Type 0 where
    none : Nodes
    more : SerializationNode → Nodes → Nodes

abbrev pub default_dense_node : SerializationNode
default_dense_node = node 0 Nodes.none

-- `SerializationKind.Sparse`
abbrev pub sparse : ℕ
sparse = 1

abbrev pub kind : SerializationNode → ℕ
kind (node k children) = k

abbrev pub children : SerializationNode → Nodes
children (node k nodes) = nodes

pub record DeserializerState : Type 0 where
  pub serialization_node : SerializationNode

abbrev pub default_deserializer_state : DeserializerState
default_deserializer_state = record { serialization_node = default_dense_node }

-- `children[index] ?? DEFAULT_DENSE_NODE`
abbrev pub child_node : Nodes → ℕ → SerializationNode
child_node Nodes.none index = default_dense_node
child_node (more n nodes) zero = n
child_node (more n nodes) (suc index) = child_node nodes index

unfoldable pub child_state : DeserializerState → ℕ → DeserializerState
child_state state index = record {
  serialization_node = child_node (children state.serialization_node) index;
}

unfoldable pub read_kinds : Exec BufferReader SerializationNode
read_kinds = do kind ← read_u8; return (node kind Nodes.none)

unfoldable pub read_kinds1 :
    Exec BufferReader SerializationNode → Exec BufferReader SerializationNode
read_kinds1 child = do kind ← read_u8; c ← child; return (node kind (more c Nodes.none))

unfoldable pub read_kinds2 :
    Exec BufferReader SerializationNode
    → Exec BufferReader SerializationNode
    → Exec BufferReader SerializationNode
read_kinds2 child_a child_b = do
  kind ← read_u8
  a ← child_a
  b ← child_b
  return (node kind (more a (more b Nodes.none)))

pub read_kinds_loop : List (Exec BufferReader SerializationNode) → Exec BufferReader Nodes
read_kinds_loop [] = return Nodes.none
read_kinds_loop (child ∷ rest) = do c ← child; nodes ← read_kinds_loop rest; return (more c nodes)

unfoldable pub read_kinds_many :
    List (Exec BufferReader SerializationNode) → Exec BufferReader SerializationNode
unfolding read_kinds_loop
read_kinds_many readers = do
  kind ← read_u8
  nodes ← read_kinds_loop readers
  return (node kind nodes)
