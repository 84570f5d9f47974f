-- ===== src/Engine/Reload.antt =====
-- The rebuild task of crates/audio-engine/src/lib.rs beside the store and the engine: three threads whose
-- steps interleave. The task takes an event, reads the topology, builds a graph and puts it in the slot. What
-- the factory answers depends on registries that others fill, with no event.
use sonicbrew.Base.{ℕ, suc, ◌+◌, ◌≡◌, refl, sym, ◌∙◌, ◌≢◌, Option, none, some, arith}
use mathlib.Core.Path.{subst}
use sonicbrew.Session.Graph.{TopologySnapshot}
use sonicbrew.Engine.{
  done, GraphCrate, NodeFactory, build_graph, rebuild_once, GraphEngine, swap, step,
}

-- What the task is at: polling, about to read the topology, or building from the one that it read.
pub data Task : Type 0 where
  polling reading : Task
  building : TopologySnapshot → Task
  exited : Task

module _ {Node Sink : Type 0} (crate : GraphCrate Node Sink) (config : crate.GraphConfig)
    {Registries : Type 0} (factory : Registries → NodeFactory crate) where
  -- The store's topology, its changes whose events are not sent and the events that the task has not
  -- received, the registries, those that the last build was made with, the task, and the engine.
  pub record System : Type 0 where
    pub topology : TopologySnapshot
    pub unsent : ℕ
    pub pending : ℕ
    pub registries : Registries
    pub built_with : Registries
    pub task : Task
    pub engine : GraphEngine crate

  -- The loop of `spawn_rebuild_task`, the store and the engine, a step at a time.
  pub data Step : System → System → Type 0 where
    mutates :
        {s : System} (t : TopologySnapshot)
        → s.task ≢ exited
        → Step s (record s { topology = t; unsent = suc s.unsent })
    sends :
        {s : System} {n : ℕ}
        → s.unsent ≡ suc n
        → Step s (record s { unsent = n; pending = suc s.pending })
    registers : {s : System} (r : Registries) → Step s (record s { registries = r })
    receives :
        {s : System} {n : ℕ}
        → s.task ≡ polling
        → s.pending ≡ suc n
        → Step s (record s { pending = n; task = reading })
    lags :
        {s : System} {n : ℕ} (k : ℕ)
        → s.task ≡ polling
        → s.pending ≡ n + k
        → Step s (record s { pending = n; task = reading })
    finds_empty : {s : System} → s.task ≡ polling → s.pending ≡ 0 → Step s s
    closes :
        {s : System}
        → s.task ≡ polling
        → s.unsent ≡ 0
        → s.pending ≡ 0
        → Step s (record s { task = exited })
    reads : {s : System} → s.task ≡ reading → Step s (record s { task = building s.topology })
    deposits :
        {s : System} {t : TopologySnapshot}
        → s.task ≡ building t
        → Step s (record s {
          task = polling;
          built_with = s.registries;
          engine = record s.engine {
            slot = rebuild_once crate config (factory s.registries) t s.engine.slot;
          };
        })
    cycles :
        {s : System} (ctx : crate.ProcessContext)
        → Step s (record s { engine = step crate ctx s.engine })

  pub data Steps : System → System → Type 0 where
    start : {s : System} → Steps s s
    next : {s t u : System} → Steps s t → Step t u → Steps s u

  -- The graph that the engine runs, or swaps in after the cycle.
  abbrev pub newest : GraphEngine crate → crate.Graph
  newest e = swap crate e.graph e.slot

  -- It has the nodes and links of the graph that the topology builds with the registries, if it builds.
  abbrev pub Renders : Registries → TopologySnapshot → GraphEngine crate → Type 0
  Renders r t e =
      (g : crate.Graph)
      → build_graph crate t config (factory r) ≡ done g
      → (crate.slots (newest e) ≡ crate.slots g) × (crate.links (newest e) ≡ crate.links g)

  abbrev pub UpToDate : Task → System → Type 0
  UpToDate polling s = Renders s.built_with s.topology s.engine
  UpToDate reading s = Unit {0}
  UpToDate (building t) s = t ≡ s.topology
  UpToDate exited s = Renders s.built_with s.topology s.engine

  -- Once every event is received, what the task is at belongs to the store's topology.
  abbrev pub Invariant : System → Type 0
  Invariant s = s.unsent ≡ 0 → s.pending ≡ 0 → UpToDate s.task s

  parts-swap :
      (ctx : crate.ProcessContext) (g : crate.Graph) (slot : Option crate.Graph)
      → let cycled = crate.flush_sinks (crate.process_cycle g ctx) in
        (crate.slots (swap crate cycled slot) ≡ crate.slots (swap crate g slot))
        × (crate.links (swap crate cycled slot) ≡ crate.links (swap crate g slot))
  parts-swap ctx g none = (
    crate.slots-flush_sinks _ ∙ crate.slots-process_cycle g ctx,
    crate.links-flush_sinks _ ∙ crate.links-process_cycle g ctx,
  )
  parts-swap ctx g (some h) = (refl, refl)

  step-Renders :
      (r : Registries) (t : TopologySnapshot) (ctx : crate.ProcessContext) (e : GraphEngine crate)
      → Renders r t e
      → Renders r t (step crate ctx e)
  unfolding step
  step-Renders r t ctx e h g built =
      let (slots, links) = parts-swap ctx e.graph e.slot in
      (slots ∙ (h g built).0, links ∙ (h g built).1)

  deposit-Renders :
      (r : Registries) (t : TopologySnapshot) (e : GraphEngine crate)
      → Renders r t (record e { slot = rebuild_once crate config (factory r) t e.slot })
  unfolding rebuild_once
  deposit-Renders r t e g built = rw built (refl, refl)

  UpToDate-step :
      (k : Task) (s : System) (ctx : crate.ProcessContext)
      → UpToDate k s
      → UpToDate k (record s { engine = step crate ctx s.engine })
  UpToDate-step polling s ctx h = step-Renders s.built_with s.topology ctx s.engine h
  UpToDate-step reading s ctx h = tt
  UpToDate-step (building t) s ctx h = h
  UpToDate-step exited s ctx h = step-Renders s.built_with s.topology ctx s.engine h

  UpToDate-registers :
      (k : Task) (s : System) (r : Registries)
      → UpToDate k s
      → UpToDate k (record s { registries = r })
  UpToDate-registers polling s r h = h
  UpToDate-registers reading s r h = tt
  UpToDate-registers (building t) s r h = h
  UpToDate-registers exited s r h = h

  Step-Invariant : {s s' : System} → Step s s' → Invariant s → Invariant s'
  Step-Invariant (mutates t open_yet) h all_sent none_left = absurd (omega (arith, all_sent))
  Step-Invariant (sends some_unsent) h all_sent none_left = absurd (omega (arith, none_left))
  Step-Invariant (registers {s} r) h all_sent none_left =
      UpToDate-registers s.task s r (h all_sent none_left)
  Step-Invariant (receives at some_left) h all_sent none_left = tt
  Step-Invariant (lags k at some_left) h all_sent none_left = tt
  Step-Invariant (finds_empty at none_now) h all_sent none_left = h all_sent none_left
  Step-Invariant (closes {s} at sent none_now) h all_sent none_left =
      subst (λ k. UpToDate k s) at (h all_sent none_left)
  Step-Invariant (reads at) h all_sent none_left = refl
  Step-Invariant (deposits {s} {t} at) h all_sent none_left =
      subst
        (λ u. Renders s.registries u (record s.engine {
          slot = rebuild_once crate config (factory s.registries) t s.engine.slot;
        }))
        (subst (λ k. UpToDate k s) at (h all_sent none_left))
        (deposit-Renders s.registries t s.engine)
  Step-Invariant (cycles {s} ctx) h all_sent none_left =
      UpToDate-step s.task s ctx (h all_sent none_left)

  steps-Invariant : {s s' : System} → Steps s s' → Invariant s → Invariant s'
  steps-Invariant start h = h
  steps-Invariant (next run last) h = Step-Invariant last (steps-Invariant run h)

  -- From the start of the rebuild task, and however the store's changes, the task's steps and the
  -- engine's cycles interleave with changes of the registries: whenever the task polls with no event left
  -- to send or to receive, one cycle later the engine runs a graph with the nodes and links that the
  -- store's topology builds with the registries of the last build, if it builds with them. Registries
  -- that changed after the last build are not in the graph.
  pub steps-Renders :
      {s s' : System} (ctx : crate.ProcessContext) (g : crate.Graph)
      → s.task ≡ reading
      → Steps s s'
      → s'.task ≡ polling
      → s'.unsent ≡ 0
      → s'.pending ≡ 0
      → build_graph crate s'.topology config (factory s'.built_with) ≡ done g
      → let e = step crate ctx s'.engine in
        (crate.slots e.graph ≡ crate.slots g) × (crate.links e.graph ≡ crate.links g)
  unfolding step
  steps-Renders {s} {s'} ctx g spawned run at all_sent none_left built =
      let begins : Invariant s = λ sent_yet none_yet. subst (λ k. UpToDate k s) (sym spawned) tt in
      let current = subst (λ k. UpToDate k s') at (steps-Invariant run begins all_sent none_left) in
      step-Renders s'.built_with s'.topology ctx s'.engine current g built
