-- ===== src/Graph/Types.antt =====
-- Nodes and edges: internal/graph/store.go and the tables of internal/store/schema.sql. Texts are lists of
-- code points. Node types, edge types and statuses are strings in Go: the constants, the empty string
-- where a function looks for it, and one constructor for every other string.
use wachd.Base.{ℕ, List, [], ◌∷◌, Option, Bool, true, false, ◌==◌, ◌&&◌}
use wachd.Oncall.Types.{Uuid}

-- A JSON value. A number is its text; the fields of an object stand in the order in which Go's map
-- iteration meets them, which is any.
mutual
  pub data Json : Type 0 where
    null : Json
    string : List ℕ → Json
    number : List ℕ → Json
    boolean : Bool → Json
    array : Items → Json
    object : Fields → Json

  pub data Items : Type 0 where
    no_items : Items
    item : Json → Items → Items

  pub data Fields : Type 0 where
    no_fields : Fields
    field : List ℕ → Json → Fields → Fields

pub data Status : Type 0 where
  unset : Status
  pending : Status
  permanent : Status
  unknown_status : Status

pub data NodeType : Type 0 where
  untyped : NodeType
  incident : NodeType
  deployment : NodeType
  service : NodeType
  alert : NodeType
  unknown_type : NodeType

pub data EdgeType : Type 0 where
  caused_by : EdgeType
  affects : EdgeType
  similar_to : EdgeType
  triggered : EdgeType
  unknown_edge : EdgeType

-- Times of creation and of change are in nanoseconds.
pub record Node : Type 0 where
  pub id : Uuid
  pub team_id : Uuid
  pub node_type : NodeType
  pub status : Status
  pub label : List ℕ
  pub external_id : Option (List ℕ)
  pub properties : Json
  pub created_at : ℕ
  pub updated_at : ℕ

-- The weight is a float64 in units of 2^-1074 (Graph/Float), and 0 where it is not positive.
pub record Edge : Type 0 where
  pub id : Uuid
  pub team_id : Uuid
  pub from_node_id : Uuid
  pub to_node_id : Uuid
  pub edge_type : EdgeType
  pub status : Status
  pub weight : ℕ
  pub properties : Json
  pub created_at : ℕ
  pub updated_at : ℕ

abbrev pub is_permanent : Status → Bool
is_permanent permanent = true
is_permanent unset = false
is_permanent pending = false
is_permanent unknown_status = false

-- CHECK (status IN ('pending', 'permanent'))
abbrev pub is_status : Status → Bool
is_status pending = true
is_status permanent = true
is_status unset = false
is_status unknown_status = false

-- CHECK (type IN ('incident', 'deployment', 'service', 'alert'))
abbrev pub is_node_type : NodeType → Bool
is_node_type untyped = false
is_node_type unknown_type = false
is_node_type incident = true
is_node_type deployment = true
is_node_type service = true
is_node_type alert = true

-- CHECK (type IN ('caused_by', 'affects', 'similar_to', 'triggered'))
abbrev pub is_edge_type : EdgeType → Bool
is_edge_type unknown_edge = false
is_edge_type caused_by = true
is_edge_type affects = true
is_edge_type similar_to = true
is_edge_type triggered = true

abbrev node_code : NodeType → ℕ
node_code untyped = 0
node_code incident = 1
node_code deployment = 2
node_code service = 3
node_code alert = 4
node_code unknown_type = 5

abbrev edge_code : EdgeType → ℕ
edge_code caused_by = 0
edge_code affects = 1
edge_code similar_to = 2
edge_code triggered = 3
edge_code unknown_edge = 4

-- Equality of the strings, on the constants.
abbrev pub same_node_type : NodeType → NodeType → Bool
same_node_type a b = node_code a == node_code b

abbrev pub same_edge_type : EdgeType → EdgeType → Bool
same_edge_type a b = edge_code a == edge_code b

abbrev pub same_text : List ℕ → List ℕ → Bool
same_text [] [] = true
same_text [] (s ∷ ss) = false
same_text (r ∷ rs) [] = false
same_text (r ∷ rs) (s ∷ ss) = r == s && same_text rs ss
