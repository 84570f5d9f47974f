-- ===== src/Session/Tests/Numbers.antt =====
-- A format of plain numbers, at which the witnesses instantiate the serializers that
-- crates/session-store takes from serde.
use sonicbrew.Base.{
  Bool, true, false, ltb, ℕ, zero, suc, ap, ◌≡◌, refl, Option, none, some, List, [], ◌∷◌, length,
  ◌⊎◌, inl, inr,
}
use sonicbrew.Base.Maybe.{◌>>=◌}
use sonicbrew.Session.Graph.{
  PortDir, PortMeta, SampleFmt, f32, input, output, NodeSnapshot, SnapshotEdge, Mutation, add_node,
  remove_node, add_link, remove_link, TopologySnapshot,
}
use sonicbrew.Session.Raft.{LogId, Entry, EntryPayload, blank, normal, membership, StoredMembership}
use sonicbrew.Session.Redb.{Bytes, Serde}
use sonicbrew.Session.LogStore.{Bincode}
use sonicbrew.Session.StateMachine.{Codecs, PersistedState, PersistedSnapshot}

-- A writer that puts a value before other bytes, and its reader.
pub record Coder (A : Type 0) : Type 0 where
  write : A → Bytes → Bytes
  read : Bytes → Option (A × Bytes)
  read-write : (a : A) (rest : Bytes) → read (write a rest) ≡ some (a, rest)

abbrev read_number : Bytes → Option (ℕ × Bytes)
read_number [] = none
read_number (n ∷ rest) = some (n, rest)

abbrev number : Coder ℕ
number = record { write = λ n rest. n ∷ rest; read = read_number; read-write = λ n rest. refl }

module _ {A B : Type 0} (a : Coder A) (b : Coder B) where
  abbrev read_pair : Bytes → Option ((A × B) × Bytes)
  read_pair bytes = do (x, rest) ← a.read bytes; (y, rest') ← b.read rest; some ((x, y), rest')

  abbrev pair : Coder (A × B)
  pair = record {
    write = λ (x, y) rest. a.write x (b.write y rest);
    read = read_pair;
    read-write = λ (x, y) rest. rw (a.read-write x (b.write y rest), b.read-write y rest) refl;
  }

  abbrev write_either : A ⊎ B → Bytes → Bytes
  write_either (inl x) rest = 0 ∷ a.write x rest
  write_either (inr y) rest = 1 ∷ b.write y rest

  abbrev read_tagged : ℕ → Bytes → Option ((A ⊎ B) × Bytes)
  read_tagged zero rest = do (x, rest') ← a.read rest; some (inl x, rest')
  read_tagged (suc n) rest = do (y, rest') ← b.read rest; some (inr y, rest')

  abbrev read_either : Bytes → Option ((A ⊎ B) × Bytes)
  read_either [] = none
  read_either (tag ∷ rest) = read_tagged tag rest

  pub read-write_either :
      (s : A ⊎ B) (rest : Bytes) → read_either (write_either s rest) ≡ some (s, rest)
  read-write_either (inl x) rest = rw (a.read-write x rest) refl
  read-write_either (inr y) rest = rw (b.read-write y rest) refl

  abbrev either : Coder (A ⊎ B)
  either = record { write = write_either; read = read_either; read-write = read-write_either }

module _ {A B : Type 0} (a : Coder A) where
  -- A type that converts to one with a coder and back.
  abbrev by_way_of : (to : B → A) (from : A → B) → ((y : B) → from (to y) ≡ y) → Coder B
  by_way_of to from h = record {
    write = λ y rest. a.write (to y) rest;
    read = λ bytes. (do (x, rest) ← a.read bytes; some (from x, rest));
    read-write = λ y rest. rw (a.read-write (to y) rest, h y) refl;
  }

module _ {A : Type 0} (a : Coder A) where
  abbrev write_all : List A → Bytes → Bytes
  write_all [] rest = rest
  write_all (x ∷ xs) rest = a.write x (write_all xs rest)

  abbrev read_all : ℕ → Bytes → Option (List A × Bytes)
  read_all zero bytes = some ([], bytes)
  read_all (suc n) bytes = do
    (x, rest) ← a.read bytes
    (xs, rest') ← read_all n rest
    some (x ∷ xs, rest')

  pub read-write_all :
      (xs : List A) (rest : Bytes) → read_all (length xs) (write_all xs rest) ≡ some (xs, rest)
  read-write_all [] rest = refl
  read-write_all (x ∷ xs) rest =
      rw (a.read-write x (write_all xs rest), read-write_all xs rest) refl

  abbrev read_counted : Bytes → Option (List A × Bytes)
  read_counted [] = none
  read_counted (n ∷ rest) = read_all n rest

  abbrev many : Coder (List A)
  many = record {
    write = λ xs rest. length xs ∷ write_all xs rest;
    read = read_counted;
    read-write = read-write_all;
  }

  abbrev pub serde : Serde A
  serde = record {
    serialize = λ x. a.write x [];
    deserialize = λ bytes. (do (x, rest) ← a.read bytes; some x);
    deserialize-serialize = λ x. rw (a.read-write x []) refl;
  }

abbrev port_dir : Coder PortDir
port_dir =
    by_way_of (either number number) (elim [ input ↦ inl 0 | output ↦ inr 0 ])
      (elim [ (inl _) ↦ input | (inr _) ↦ output ]) (elim [ input ↦ refl | output ↦ refl ])

abbrev port_meta_of : PortDir × ℕ → PortMeta
port_meta_of (d, n) = record { direction = d; channels = n; sample_format = f32 }

pub f32_only : (f : SampleFmt) → f32 ≡ f
f32_only f32 = refl

pub port_meta_back : (p : PortMeta) → port_meta_of (p.direction, p.channels) ≡ p
port_meta_back p = ap (λ f. record p { sample_format = f }) (f32_only p.sample_format)

abbrev port_meta : Coder PortMeta
port_meta =
    by_way_of (pair port_dir number) (λ p. (p.direction, p.channels)) port_meta_of port_meta_back

abbrev node_snapshot : Coder NodeSnapshot
node_snapshot =
    by_way_of (pair number (pair (many port_meta) (many port_meta)))
      (λ n. (n.id, (n.inputs, n.outputs)))
      (λ (i, (ins, outs)). record { id = i; inputs = ins; outputs = outs }) (λ n. refl)

abbrev snapshot_edge : Coder SnapshotEdge
snapshot_edge =
    by_way_of (pair (pair number number) (pair number number)) (λ e. (e.source, e.target))
      (λ (s, t). record { source = s; target = t }) (λ e. refl)

abbrev mutation : Coder Mutation
mutation =
    by_way_of (either (either node_snapshot number) (either snapshot_edge number))
      (elim [
        | (add_node n) ↦ inl (inl n)
        | (remove_node i) ↦ inl (inr i)
        | (add_link e) ↦ inr (inl e)
        | (remove_link i) ↦ inr (inr i)
      ])
      (elim [
        | (inl (inl n)) ↦ add_node n
        | (inl (inr i)) ↦ remove_node i
        | (inr (inl e)) ↦ add_link e
        | (inr (inr i)) ↦ remove_link i
      ])
      (elim [
        | (add_node n) ↦ refl
        | (remove_node i) ↦ refl
        | (add_link e) ↦ refl
        | (remove_link i) ↦ refl
      ])

abbrev optional : {A : Type 0} → Coder A → Coder (Option A)
optional a =
    by_way_of (either number a) (elim [ none ↦ inl 0 | (some x) ↦ inr x ])
      (elim [ (inl _) ↦ none | (inr x) ↦ some x ]) (elim [ none ↦ refl | (some x) ↦ refl ])

abbrev log_id : Coder LogId
log_id =
    by_way_of (pair number (pair number number)) (λ i. (i.term, (i.node_id, i.index)))
      (λ (t, (n, i)). record { term = t; node_id = n; index = i }) (λ i. refl)

abbrev entry_payload : Coder (EntryPayload ℕ)
entry_payload =
    by_way_of (either number (either mutation number))
      (elim [ blank ↦ inl 0 | (normal m) ↦ inr (inl m) | (membership c) ↦ inr (inr c) ])
      (elim [ (inl _) ↦ blank | (inr (inl m)) ↦ normal m | (inr (inr c)) ↦ membership c ])
      (elim [ blank ↦ refl | (normal m) ↦ refl | (membership c) ↦ refl ])

abbrev entry : Coder (Entry ℕ)
entry =
    by_way_of (pair log_id entry_payload) (λ e. (e.log_id, e.payload))
      (λ (i, p). record { log_id = i; payload = p }) (λ e. refl)

abbrev topology : Coder TopologySnapshot
topology =
    by_way_of (pair (many node_snapshot) (many snapshot_edge)) (λ t. (t.nodes, t.edges))
      (λ (ns, es). record { nodes = ns; edges = es }) (λ t. refl)

abbrev stored_membership : Coder (StoredMembership ℕ)
stored_membership =
    by_way_of (pair (optional log_id) number) (λ m. (m.log_id, m.config))
      (λ (i, c). record { log_id = i; config = c }) (λ m. refl)

abbrev state : Coder (PersistedState ℕ)
state =
    by_way_of (pair (pair topology (optional log_id)) (pair stored_membership number))
      (λ s. ((s.topology, s.last_applied), (s.last_membership, s.next_mutation_id)))
      (λ ((t, l), (m, n)). record {
        topology = t;
        last_applied = l;
        last_membership = m;
        next_mutation_id = n;
      })
      (λ s. refl)

abbrev snapshot : Coder (PersistedSnapshot ℕ)
snapshot =
    by_way_of
      (pair (pair (optional log_id) stored_membership) (pair (pair number number) (many number)))
      (λ s. ((s.meta.last_log_id, s.meta.last_membership), (s.meta.snapshot_id, s.payload)))
      (λ ((l, m), (i, p)). record {
        meta = record { last_log_id = l; last_membership = m; snapshot_id = i };
        payload = p;
      })
      (λ s. refl)

-- serde_json for a mutation
abbrev pub json : Serde Mutation
json = serde mutation

abbrev pub codecs : Codecs ℕ
codecs = record { state = serde state; topology = serde topology; snapshot = serde snapshot }

-- A log id takes up 24 places.
abbrev pub read_log_id : Bool → Bytes → Option LogId
read_log_id true bytes = none
read_log_id false bytes = do (i, rest) ← log_id.read bytes; some i

abbrev pub bincode : Bincode ℕ ℕ
bincode = record {
  entry = serde entry;
  vote = serde number;
  committed = serde (optional log_id);
  deserialize_log_id = λ bytes. read_log_id (ltb (length bytes) 24) bytes;
}

-- A graph that takes nodes and links in the order in which they come, and removes nothing.
abbrev pub grow : TopologySnapshot → Mutation → TopologySnapshot
grow t (add_node n) = record t { nodes = n ∷ t.nodes }
grow t (add_link e) = record t { edges = e ∷ t.edges }
grow t (remove_node i) = t
grow t (remove_link i) = t
