-- ===== src/Control/Rest/Tests.antt =====
-- The REST handlers of crates/control-api/src/lib.rs on the single-node engine in memory.
use sonicbrew.Base.{ℕ, ◌≡◌, refl, none, some, List, [], ◌∷◌, map, arith}
use sonicbrew.Session.Wal
use sonicbrew.Session.Wal.Recovery.{fresh}
use sonicbrew.Session.Redb.{memory}
use sonicbrew.Session.Tests.Numbers.{json}
use sonicbrew.Control.Params.{kind_name}
use sonicbrew.Control.Text.{trims_to_nothing}
use sonicbrew.Control.Store.{find_node, other_nodes, other_edges}
use sonicbrew.Control.Controller.{
  agreed_kind, build_ports, create_node, delete_node, link_ports, max_id,
}
use sonicbrew.Control.Controller.Invariant.{IsRegistered}
use sonicbrew.Control.Rest.{
  Request, get_topology, post_node, post_link, delete_nodes, LinkRequest, Response, handle, serve,
  create_link, status_for, topology_info,
}
use sonicbrew.Control.Rest.Unchanged.{topology_info-handle}
use sonicbrew.Control.Rest.InStep.{serve-IsRegistered}
use sonicbrew.Control.Tests.{graph, store, start, one, spec, in_memory}

abbrev statuses : List (Response ℕ) → List ℕ
statuses = map (λ r. r.status)

abbrev self_link : LinkRequest
self_link = record { source = 1; source_port = none; target = 1; target_port = some 1 }

abbrev bad_link : LinkRequest
bad_link = record { source = 1; source_port = some 1; target = 1; target_port = none }

-- A node with two inputs and one output; a link to itself; a port that it does not have; its end.
abbrev requests : List (Request ℕ)
requests =
    post_node spec
    ∷ post_link self_link
    ∷ post_link bad_link
    ∷ delete_nodes 1
    ∷ delete_nodes 1
    ∷ get_topology
    ∷ []

served : statuses (serve ℕ graph store requests start).0 ≡ 201 ∷ 201 ∷ 400 ∷ 204 ∷ 404 ∷ 200 ∷ []
unfolding serve handle create_link status_for create_node delete_node link_ports agreed_kind
    kind_name trims_to_nothing max_id build_ports find_node other_nodes other_edges
    Wal.apply_mutation
served = refl

serve-IsRegistered_example : IsRegistered ℕ graph store (serve ℕ graph store requests start).1
unfolding serve handle create_link status_for create_node delete_node link_ports agreed_kind
    kind_name trims_to_nothing max_id build_ports find_node other_nodes other_edges
    Wal.apply_mutation
serve-IsRegistered_example =
    serve-IsRegistered ℕ graph memory json requests
      (record { engine = fresh memory json in_memory; faults = [] })
      (
        tt,
        omega arith,
        (
          tt,
          omega arith,
          (tt, omega arith, (tt, omega arith, (tt, omega arith, (tt, omega arith, tt)))),
        ),
      )

topology_info-handle_example :
    topology_info ℕ graph store (handle ℕ graph store (post_link bad_link) one).1
    ≡ topology_info ℕ graph store one
unfolding handle create_link link_ports status_for find_node create_node agreed_kind kind_name
    trims_to_nothing max_id build_ports Wal.apply_mutation
topology_info-handle_example =
    topology_info-handle ℕ graph memory json one (post_link bad_link) tt (omega arith)
