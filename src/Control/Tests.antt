-- ===== src/Control/Tests.antt =====
-- The properties of crates/control-api at concrete inputs, and runs of the code.
use sonicbrew.Base.{
  ℕ, ◌≡◌, refl, ap, none, some, List, [], ◌∷◌, ◌++◌, ◌==◌, if◌then◌else◌, arith, Bool,
}
use sonicbrew.Base.HashMap
use sonicbrew.Session.Graph.{
  TopologySnapshot, input, output, NodeSnapshot, Mutation, add_node, remove_node, add_link,
  remove_link,
}
use sonicbrew.Session.Redb.{memory}
use sonicbrew.Session.Wal
use sonicbrew.Session.Wal.Recovery.{fresh}
use sonicbrew.Session.Tests.Numbers.{json}
use sonicbrew.Control.Text.{node_label, trims_to_nothing}
use sonicbrew.Control.Params.{gain, kind_name}
use sonicbrew.Control.Store.{
  AudioGraph, LocalSessionStore, engine_store, find_node, other_nodes, other_edges, remove_at,
}
use sonicbrew.Control.Types.{NodeSpec, ok}
use sonicbrew.Control.Controller.{
  GraphController, topology, node_at, create_node, delete_node, list_nodes, list_links, new,
  agreed_kind, max_id, build_ports,
}
use sonicbrew.Control.Controller.Ids.{Untouched}
use sonicbrew.Control.Controller.Invariant.{IsRegistered, create_node-IsRegistered}
use sonicbrew.Control.Controller.Listing.{info_from, list_nodes-create_node}
use sonicbrew.Control.Controller.Links.{delete_node-Untouched}

label_of_a_node : node_label 1205 ≡ "node-1205"
unfolding node_label
label_of_a_node = refl

blank : trims_to_nothing " \t" ≡ Bool.true
unfolding trims_to_nothing
blank = refl

-- A graph in memory; a node replaces the one with its id.
abbrev pub put_node : NodeSnapshot → List NodeSnapshot → List NodeSnapshot
put_node n [] = n ∷ []
put_node n (m ∷ ms) = let rest = put_node n ms in if m.id == n.id then n ∷ ms else m ∷ rest

pub put_node_absent :
    (n : NodeSnapshot) (ms : List NodeSnapshot)
    → find_node n.id ms ≡ none
    → put_node n ms ≡ ms ++ n ∷ []
unfolding find_node
put_node_absent n [] h = refl
put_node_absent n (m ∷ ms) h = ground (arith, put_node_absent n ms)

abbrev pub in_memory : TopologySnapshot → Mutation → TopologySnapshot
in_memory s (add_node n) = record s { nodes = put_node n s.nodes }
in_memory s (remove_node id) = record {
  nodes = other_nodes id s.nodes;
  edges = other_edges id s.edges;
}
in_memory s (add_link e) = record s { edges = s.edges ++ e ∷ [] }
in_memory s (remove_link i) = record s { edges = remove_at i s.edges }

abbrev pub graph : AudioGraph
graph = record {
  apply = in_memory;
  node = λ s id. find_node id s.nodes;
  node-find_node = λ s id. refl;
  apply-add_node = λ s n h. ap (λ ns. record s { nodes = ns }) (put_node_absent n s.nodes h);
  apply-remove_node = λ s id. refl;
  apply-add_link = λ s e. refl;
  apply-remove_link = λ s i. refl;
}

abbrev pub store : LocalSessionStore graph
store = engine_store graph memory json

abbrev pub Controller : Type 0
Controller = GraphController ℕ graph store

abbrev pub start : Controller
start = new ℕ graph store (record { engine = fresh memory json in_memory; faults = [] })

start-IsRegistered : IsRegistered ℕ graph store start
unfolding HashMap.get
start-IsRegistered = record {
  labels = λ i h. refl;
  kinds = λ i h. refl;
  params = λ i h. refl;
  agree = λ i p h. absurd (ground (arith, h));
}

abbrev pub spec : NodeSpec ℕ
spec = record { label = "vol"; inputs = 2; outputs = 1; kind = none; params = some (gain 3) }

abbrev pub one : Controller
one = (create_node ℕ graph store start spec).1

pub one-IsRegistered : IsRegistered ℕ graph store one
unfolding max_id
one-IsRegistered =
    create_node-IsRegistered ℕ graph store start spec (omega arith) start-IsRegistered

list_nodes-create_node_example :
    let (result, c') = create_node ℕ graph store start spec in
    (result ≡ ok 1)
    × (list_nodes ℕ graph store c'
        ≡ list_nodes ℕ graph store start ++ info_from ℕ graph store 1 (some "gain") spec ∷ [])
    × (list_links ℕ graph store c' ≡ list_links ℕ graph store start)
unfolding max_id trims_to_nothing agreed_kind kind_name
list_nodes-create_node_example =
    list_nodes-create_node ℕ graph store start spec (some "gain") (omega arith) start-IsRegistered
      refl refl refl

abbrev node_one : NodeSnapshot
node_one = record { id = 1; inputs = build_ports 2 input; outputs = build_ports 1 output }

node_of_one : node_at ℕ graph store one 1 ≡ some node_one
unfolding create_node max_id trims_to_nothing agreed_kind kind_name find_node Wal.apply_mutation
node_of_one = refl

delete_node-Untouched_example :
    let (result, c') = delete_node ℕ graph store one 1 in
    (result ≡ ok tt)
    × ((i : ℕ)
        → node_at ℕ graph store c' i ≡ (if 1 == i then none else node_at ℕ graph store one i))
    × Untouched 1 (topology ℕ graph store c').edges
    × IsRegistered ℕ graph store c'
unfolding create_node max_id trims_to_nothing agreed_kind kind_name Wal.apply_mutation
delete_node-Untouched_example =
    delete_node-Untouched ℕ graph store one 1 node_one refl node_of_one one-IsRegistered
