-- ===== src/Graph/Calls/Valid.antt =====
-- The constraints of the tables hold after every sequence of calls.
use wachd.Oncall.Types.{Uuid, Uuid}
use wachd.Base.{
  ◌++◌, any-append, arith, refl, Bool, true, false, List, [], ◌∷◌, ◌++◌, ◌≡◌, All, Bool-cases, inl,
  inr, ◌==◌, ◌∙◌,
}
use wachd.Graph.Types.{Node, Edge}
use wachd.Table.{update, delete}
use wachd.Table.Change.{All-delete, All-update, All-append, any-delete, any-update, All-map}
use wachd.Graph.Calls.Cases.{put_node-cases, put_edge-cases, promote-cases, remove-cases}
use wachd.Graph.Calls.{
  put_node, put_edge, promote, remove, Call, run_call, run_calls, put_node, put_edge, promote,
  remove,
}
use wachd.Graph.Rows.{
  is_promoted, promoted_nodes, make_permanent_edge, make_permanent_node, merge_node, merge_edge,
  is_node, touches, promoted_nodes, same_relation, prepared, prepared_edge, Graph, same_identity,
  has_ends,
}

-- An edge joins two different nodes, which its team has.
abbrev pub IsJoined : List Node → Edge → Type 0
IsJoined nodes e = (has_ends nodes e ≡ true) × ((e.from_node_id == e.to_node_id) ≡ false)

-- No two nodes of the list have one team, type and external id.
abbrev pub HasOneEach : List Node → Type 0
HasOneEach [] = Unit
HasOneEach (n ∷ nodes) = All (λ r. same_identity r n ≡ false) nodes × HasOneEach nodes

abbrev pub IsValid : Graph → Type 0
IsValid g = HasOneEach g.nodes × All (IsJoined g.nodes) g.edges

HasOneEach-append :
    (n : Node) (l : List Node)
    → All (λ r. same_identity n r ≡ false) l
    → HasOneEach l
    → HasOneEach (l ++ n ∷ [])
HasOneEach-append n [] new one = (tt, tt)
HasOneEach-append n (r ∷ l) new one =
    (All-append _ l (n ∷ []) one.0 (new.0, tt), HasOneEach-append n l new.1 one.1)

-- A change that leaves team, type and external id.
module _ (test : Node → Bool) (change : Node → Node)
    (left : (a b : Node) → same_identity (change a) b ≡ same_identity a b)
    (right : (a b : Node) → same_identity a (change b) ≡ same_identity a b) where
  HasOneEach-update : (l : List Node) → HasOneEach l → HasOneEach (update test change l)
  HasOneEach-update [] one = tt
  HasOneEach-update (n ∷ l) one = elim (Bool-cases (test n)) [
    | inl b ↦ rw b (
      All-update test change l (λ r h. right r n ∙ h) (λ r h. right (change r) n ∙ left r n ∙ h)
          one.0,
      HasOneEach-update l one.1,
    )
    | inr b ↦
        rw b (
          All-update test change l (λ r h. h) (λ r h. left r n ∙ h) one.0,
          HasOneEach-update l one.1,
        )
  ]

HasOneEach-delete : (test : Node → Bool) (l : List Node) → HasOneEach l → HasOneEach (delete test l)
HasOneEach-delete test [] one = tt
HasOneEach-delete test (n ∷ l) one = elim (Bool-cases (test n)) [
  | inl b ↦ rw b (HasOneEach-delete test l one.1)
  | inr b ↦ rw b (All-delete test l (λ r t h. h) one.0, HasOneEach-delete test l one.1)
]

has_ends-append :
    (nodes more : List Node) (e : Edge)
    → has_ends nodes e ≡ true
    → has_ends (nodes ++ more) e ≡ true
has_ends-append nodes more e h = ground (
  arith,
  any-append (is_node e.team_id e.from_node_id) nodes more,
  any-append (is_node e.team_id e.to_node_id) nodes more,
)

has_ends-delete :
    (team_id node_id : Uuid) (nodes : List Node) (e : Edge)
    → touches team_id node_id e ≡ false
    → has_ends nodes e ≡ true
    → has_ends (delete (is_node team_id node_id) nodes) e ≡ true
has_ends-delete team_id node_id nodes e t h = ground (
  arith,
  any-delete (is_node e.team_id e.from_node_id) (is_node team_id node_id) nodes
      (λ n p. ground arith),
  any-delete (is_node e.team_id e.to_node_id) (is_node team_id node_id) nodes (λ n p. ground arith),
)

-- A change that leaves team and id.
module _ (test : Node → Bool) (change : Node → Node)
    (same : (team_id node_id : Uuid) (n : Node)
      → is_node team_id node_id (change n) ≡ is_node team_id node_id n) where
  has_ends-update :
      (nodes : List Node) (e : Edge) → has_ends (update test change nodes) e ≡ has_ends nodes e
  has_ends-update nodes e = rw (
    any-update (is_node e.team_id e.from_node_id) test change nodes (same e.team_id e.from_node_id),
    any-update (is_node e.team_id e.to_node_id) test change nodes (same e.team_id e.to_node_id),
  )

  All-IsJoined-update :
      (nodes : List Node) (l : List Edge)
      → All (IsJoined nodes) l
      → All (IsJoined (update test change nodes)) l
  All-IsJoined-update nodes l = All-map l (λ e j. (has_ends-update nodes e ∙ j.0, j.1))

run_call-IsValid : (c : Call) (g : Graph) → IsValid g → IsValid (run_call c g)
unfolding run_call
run_call-IsValid (put_node now new_id team_id n) g v =
    let row = prepared now new_id team_id n in
    put_node-cases IsValid g v now new_id team_id n
      (
        HasOneEach-update (same_identity row) (merge_node now row) (λ a c. refl) (λ a c. refl)
            g.nodes v.0,
        All-IsJoined-update (same_identity row) (merge_node now row) (λ t i m. refl) g.nodes g.edges
            v.1,
      )
      (λ new. (
        HasOneEach-append row g.nodes new v.0,
        All-map g.edges (λ f j. (has_ends-append g.nodes (row ∷ []) f j.0, j.1)) v.1,
      ))
run_call-IsValid (put_edge now new_id team_id e) g v =
    let row = prepared_edge now new_id team_id e in
    put_edge-cases IsValid g v now new_id team_id e
      (v.0, All-update (same_relation row) (merge_edge now row) g.edges (λ x j. j) (λ x j. j) v.1)
      (λ ends apart.
        (v.0, All-append (IsJoined g.nodes) g.edges (row ∷ []) v.1 ((ends, apart), tt)))
run_call-IsValid (promote now team_id node_id) g v = promote-cases IsValid g v now team_id node_id (
  HasOneEach-update (is_node team_id node_id) (make_permanent_node now) (λ a c. refl) (λ a c. refl)
      g.nodes v.0,
  All-update (is_promoted team_id node_id (promoted_nodes now team_id node_id g.nodes))
      (make_permanent_edge now) g.edges (λ e j. j) (λ e j. j)
      (All-IsJoined-update (is_node team_id node_id) (make_permanent_node now) (λ t i n. refl)
        g.nodes g.edges v.1),
)
run_call-IsValid (remove team_id node_id) g v = remove-cases IsValid g v team_id node_id (
  HasOneEach-delete (is_node team_id node_id) g.nodes v.0,
  All-delete (touches team_id node_id) g.edges
      (λ e t j. (has_ends-delete team_id node_id g.nodes e t j.0, j.1)) v.1,
)

-- The edges that the tables hold after any calls join two different nodes of their own team, and of the
-- nodes no two have one team, type and external id, when this held before.
pub run_calls-IsValid : (calls : List Call) (g : Graph) → IsValid g → IsValid (run_calls calls g)
unfolding run_calls
run_calls-IsValid [] g v = v
run_calls-IsValid (c ∷ calls) g v = run_calls-IsValid calls _ (run_call-IsValid c g v)
