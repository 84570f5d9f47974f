-- ===== src/Engine/Tests.antt =====
-- The properties of crates/audio-engine at concrete inputs, and runs of the code.
use sonicbrew.Base.{
  ℕ, ◌≡◌, refl, ap, sym, Bool, true, false, some, none, Option, List, [], ◌∷◌, ◌++◌, length, ◌==◌,
  if◌then◌else◌, ◌≢◌, arith,
}
use sonicbrew.Base.HashMap
use sonicbrew.Session.Graph.{TopologySnapshot, NodeSnapshot, SnapshotEdge}
use sonicbrew.Engine.{
  BuiltNode, plain, sink, done, GraphCrate, build_graph, add_all, link_all, rebuild_once, step,
}
use sonicbrew.Engine.Build.{done_injective, built_nodes, relinked, place, build_graph-relinked}
use sonicbrew.Engine.Reload.{
  System, Steps, start, next, mutates, sends, registers, receives, reads, deposits, reading,
  polling, building, exited, steps-Renders,
}

-- A graph that only keeps what was registered.
record Kept : Type 0 where
  pub slots : List (BuiltNode ℕ ℕ)
  pub links : List SnapshotEdge

abbrev keep : Kept → BuiltNode ℕ ℕ → ℕ × Kept
keep g b = (length g.slots, record g { slots = g.slots ++ b ∷ [] })

abbrev crate : GraphCrate ℕ ℕ
crate = record {
  Graph = Kept;
  GraphError = Unit {0};
  GraphConfig = Unit {0};
  ProcessContext = Unit {0};
  new = record { slots = []; links = [] };
  add_node = λ g n. keep g (plain n);
  add_sink = λ g n. keep g (sink n);
  link = λ g from to.
      done (record g { links = g.links ++ record { source = from; target = to } ∷ [] });
  compile = λ g config. done g;
  process_cycle = λ g ctx. g;
  flush_sinks = λ g. g;
  slots = λ g. g.slots;
  links = λ g. g.links;
  slots-new = refl;
  links-new = refl;
  add_node_id = λ g n. refl;
  slots-add_node = λ g n. refl;
  links-add_node = λ g n. refl;
  add_sink_id = λ g n. refl;
  slots-add_sink = λ g n. refl;
  links-add_sink = λ g n. refl;
  slots-link = λ g from to h. sym (ap (λ k. k.slots) (done_injective h));
  links-link = λ g from to h. sym (ap (λ k. k.links) (done_injective h));
  slots-compile = λ g config h. sym (ap (λ k. k.slots) (done_injective h));
  links-compile = λ g config h. sym (ap (λ k. k.links) (done_injective h));
  slots-process_cycle = λ g ctx. refl;
  links-process_cycle = λ g ctx. refl;
  slots-flush_sinks = λ g. refl;
  links-flush_sinks = λ g. refl;
}

-- A source and a sink, under ids that leave gaps and do not rise.
abbrev node : ℕ → NodeSnapshot
node id = record { id = id; inputs = []; outputs = [] }

abbrev topology : TopologySnapshot
topology = record {
  nodes = node 5 ∷ node 2 ∷ [];
  edges = record { source = (5, 0); target = (2, 1) } ∷ [];
}

abbrev factory : ℕ → Option (BuiltNode ℕ ℕ)
factory id = if id == 5 then some (plain 50) else if id == 2 then some (sink 20) else none

abbrev graph : Kept
graph = record {
  slots = plain 50 ∷ sink 20 ∷ [];
  links = record { source = (0, 0); target = (1, 1) } ∷ [];
}

builds : build_graph crate topology tt factory ≡ done graph
unfolding build_graph add_all link_all HashMap.get HashMap.insert
builds = refl

build_graph-relinked_example :
    (built_nodes crate factory topology.nodes ≡ some graph.slots)
    × (relinked (λ id. place id topology.nodes 0) topology.edges ≡ some graph.links)
build_graph-relinked_example = build_graph-relinked crate topology tt factory graph builds

-- The registries know nothing, or the two nodes.
abbrev registries : Bool → ℕ → Option (BuiltNode ℕ ℕ)
registries false id = none
registries true id = factory id

-- The task starts on an empty topology; the topology changes while the task builds, and the registries
-- before the event is received.
abbrev nothing : TopologySnapshot
nothing = record { nodes = []; edges = [] }

abbrev spawned : System crate tt registries
spawned = record {
  topology = nothing;
  unsent = 0;
  pending = 0;
  registries = false;
  built_with = false;
  task = reading;
  engine = record { graph = crate.new; slot = none };
}

abbrev settled : System crate tt registries
settled = record spawned {
  topology = topology;
  registries = true;
  built_with = true;
  task = polling;
  engine = record { graph = crate.new; slot = some graph };
}

differ : (t : TopologySnapshot) → building t ≢ exited
differ t h = ground (arith, h)

run : Steps crate tt registries spawned settled
unfolding rebuild_once build_graph add_all link_all HashMap.get HashMap.insert
run =
    next
      (next
        (next
          (next
            (next
              (next (next (next start (reads refl)) (mutates topology (differ nothing)))
                (sends refl))
              (deposits refl))
            (registers true))
          (receives refl refl))
        (reads refl))
      (deposits refl)

steps-Renders_example :
    let e = step crate tt settled.engine in
    (crate.slots e.graph ≡ graph.slots) × (crate.links e.graph ≡ graph.links)
steps-Renders_example = steps-Renders crate tt registries tt graph refl run refl refl refl builds
