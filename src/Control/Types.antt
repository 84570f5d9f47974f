-- ===== src/Control/Types.antt =====
-- What the operations of crates/control-api/src/lib.rs take, return and report.
use sonicbrew.Base.{ℕ, Option, String}
use sonicbrew.Session.Wal.{StoreError}
use sonicbrew.Control.Params.{NodeParams}

-- What a `BadRequest` and a `NotFound` name.
pub data Problem : Type 0 where
  empty_label : Problem
  params_mismatch : String → String → Problem
  from_port_range to_port_range : ℕ → ℕ → ℕ → Problem

pub data Missing : Type 0 where
  node link source_node destination_node : ℕ → Missing

pub data ControlError : Type 0 where
  unimplemented : ControlError
  bad_request : Problem → ControlError
  graph : StoreError → ControlError
  link_not_persisted : ControlError
  not_found : Missing → ControlError

pub data Result {ℓ} (A : Type ℓ) : Type ℓ where
  ok : A → Result A
  err : ControlError → Result A

unfoldable pub store_err_to_control : StoreError → ControlError
store_err_to_control e = graph e

module _ (F : Type 0) where
  pub record NodeInfo : Type 0 where
    pub id : ℕ
    pub label : String
    pub inputs : ℕ
    pub outputs : ℕ
    pub kind : Option String
    pub params : Option (NodeParams F)

  pub record NodeSpec : Type 0 where
    pub label : String
    pub inputs : ℕ
    pub outputs : ℕ
    pub kind : Option String
    pub params : Option (NodeParams F)

-- `LinkInfo`, with `from` and `to` as its source and target.
pub record LinkInfo : Type 0 where
  pub id : ℕ
  pub source : ℕ
  pub source_port : ℕ
  pub target : ℕ
  pub target_port : ℕ
