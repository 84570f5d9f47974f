-- ===== src/Control/Preset/Tests.antt =====
-- An import of a preset of crates/control-api at concrete inputs.
use sonicbrew.Base.{◌≡◌, refl}
use sonicbrew.Session.Wal
use sonicbrew.Control.Text.{trims_to_nothing}
use sonicbrew.Control.Params.{kind_name}
use sonicbrew.Control.Store.{find_node}
use sonicbrew.Control.Types.{ok}
use sonicbrew.Control.Controller.{create_node, list_nodes, list_links, agreed_kind, max_id}
use sonicbrew.Control.Controller.Invariant.{IsRegistered}
use sonicbrew.Control.Preset.{import_preset, export_preset}
use sonicbrew.Control.Preset.RoundTrip.{import_preset-export_preset}
use sonicbrew.Control.Tests.{graph, store, one, one-IsRegistered}
use sonicbrew.Base.{ℕ}

import_preset-export_preset_example :
    let (result, d) = import_preset ℕ graph store one (export_preset ℕ graph store one) in
    (result ≡ ok tt)
    × (list_nodes ℕ graph store d ≡ list_nodes ℕ graph store one)
    × (list_links ℕ graph store d ≡ list_links ℕ graph store one)
    × IsRegistered ℕ graph store d
unfolding create_node max_id trims_to_nothing agreed_kind kind_name find_node Wal.apply_mutation
import_preset-export_preset_example =
    import_preset-export_preset ℕ graph store one one one-IsRegistered (refl, tt) one-IsRegistered
      tt refl
