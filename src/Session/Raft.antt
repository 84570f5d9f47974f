-- ===== src/Session/Raft.antt =====
-- The `openraft` types that crates/session-store stores, as its code builds and matches them. `M` is
-- openraft's `Membership`, which the code only stores.
use sonicbrew.Base.{ℕ, Option}
use sonicbrew.Session.Graph.{Mutation}

-- `LogId<u64>`, with the two fields of its leader id.
pub record LogId : Type 0 where
  pub term : ℕ
  pub node_id : ℕ
  pub index : ℕ

pub data EntryPayload (M : Type 0) : Type 0 where
  blank : EntryPayload M
  normal : Mutation → EntryPayload M
  membership : M → EntryPayload M

pub record Entry (M : Type 0) : Type 0 where
  pub log_id : LogId
  pub payload : EntryPayload M

-- `StoredMembership`
pub record StoredMembership (M : Type 0) : Type 0 where
  pub log_id : Option LogId
  pub config : M

pub data StorageError : Type 0 where
  io : StorageError
  deserialize : StorageError

pub data Result {ℓ} (A : Type ℓ) : Type ℓ where
  ok : A → Result A
  err : StorageError → Result A

infixl 5 ◌>>=◌
abbrev pub ◌>>=◌ {ℓ κ} : {A : Type ℓ} {B : Type κ} → Result A → (A → Result B) → Result B
ok a >>= f = f a
err e >>= f = err e
