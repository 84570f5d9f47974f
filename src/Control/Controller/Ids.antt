-- ===== src/Control/Controller/Ids.antt =====
-- Looking a node up by its id, in the lists that the mutations make.
use sonicbrew.Base.{
  ℕ, ◌<◌, ◌≡◌, refl, Option, none, some, List, [], ◌∷◌, ◌++◌, ◌==◌, if◌then◌else◌, arith, ◌≢◌,
}
use sonicbrew.Session.Graph.{NodeSnapshot, SnapshotEdge}
use sonicbrew.Control.Store.{find_node, other_nodes, other_edges}
use sonicbrew.Control.Controller.{max_id}

pub find_node-max_id :
    (nodes : List NodeSnapshot) (i : ℕ) → max_id nodes < i → find_node i nodes ≡ none
unfolding find_node max_id
find_node-max_id [] i h = refl
find_node-max_id (n ∷ nodes) i h = ground (arith, find_node-max_id nodes i)

abbrev pub or_else : {A : Type 0} → Option A → Option A → Option A
or_else none b = b
or_else (some a) b = some a

pub find_node-append :
    (nodes : List NodeSnapshot) (n : NodeSnapshot) (i : ℕ)
    → find_node i (nodes ++ n ∷ [])
      ≡ or_else (find_node i nodes) (if n.id == i then some n else none)
unfolding find_node
find_node-append [] n i = refl
find_node-append (m ∷ nodes) n i = ground (arith, find_node-append nodes n i)

pub find_node-other_nodes :
    (nodes : List NodeSnapshot) (i j : ℕ)
    → find_node j (other_nodes i nodes) ≡ (if i == j then none else find_node j nodes)
unfolding find_node other_nodes
find_node-other_nodes [] i j = ground arith
find_node-other_nodes (n ∷ nodes) i j = ground (arith, find_node-other_nodes nodes i j)

-- No edge touches the node.
abbrev pub Untouched : ℕ → List SnapshotEdge → Type 0
Untouched i [] = Unit {0}
Untouched i (e ∷ edges) = (e.source.0 ≢ i) × (e.target.0 ≢ i) × Untouched i edges

pub Untouched-other_edges : (i : ℕ) (edges : List SnapshotEdge) → Untouched i (other_edges i edges)
unfolding other_edges
Untouched-other_edges i [] = tt
Untouched-other_edges i (e ∷ edges) = ground (arith, Untouched-other_edges i edges)
