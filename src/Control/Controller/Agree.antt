-- ===== src/Control/Controller/Agree.antt =====
-- The kinds and parameters that crates/control-api/src/lib.rs registers, and the id of a new node.
use sonicbrew.Base.{
  ℕ, ◌+◌, ◌<◌, ◌≡◌, refl, ap, ◌∙◌, Bool-cases, Option, none, some, List, ◌==◌, if◌then◌else◌, arith,
  String, ◌⊎◌, inl, inr, min,
}
use text.Mathlib.TextEquality.{eq_iff}
use sonicbrew.Base.HashMap
use sonicbrew.Base.HashMap.{HashMap, get-insert, get-remove}
use sonicbrew.Session.Graph.{NodeSnapshot}
use sonicbrew.Control.Text.{same_text}
use sonicbrew.Control.Params.{NodeParams, kind_name}
use sonicbrew.Control.Store.{find_node}
use sonicbrew.Control.Types.{ControlError, Result, ok, err}
use sonicbrew.Control.Controller.{agreed_kind, max_id, usize_max, insert_some}
use sonicbrew.Control.Controller.Ids.{find_node-max_id}

-- What a declared kind and given parameters agree on.
pub agreed_kind-ok :
    {F : Type 0} (kind : Option String) (params : NodeParams F) (agreed : Option String)
    → agreed_kind kind (some params) ≡ ok agreed
    → agreed ≡ some (kind_name params)
unfolding agreed_kind
agreed_kind-ok none params agreed h = ground (arith, h)
agreed_kind-ok (some expected) params agreed h =
    elim (Bool-cases (same_text expected (kind_name params))) [
      | inl e ↦ ground (arith, rw e at h, (eq_iff expected (kind_name params)).0 e)
      | inr e ↦ absurd (ground (arith, rw e at h))
    ]

pub get-insert_some :
    {V : Type 0} (id j : ℕ) (v : Option V) (m : HashMap V)
    → HashMap.get j (insert_some id v m)
      ≡ (if id == j then elim v [ none ↦ HashMap.get j m | some x ↦ some x ] else HashMap.get j m)
get-insert_some id j none m = elim (Bool-cases (id == j)) [ inl e ↦ rw e refl | inr e ↦ rw e refl ]
get-insert_some id j (some v) m = get-insert id j v m

pub new_agree :
    {F : Type 0} (kind : Option String) (params : Option (NodeParams F)) (q : NodeParams F)
    (k : Option String) {o : Option (NodeParams F)}
    → o ≡ none
    → ((p : NodeParams F) → params ≡ some p → kind ≡ some (kind_name p))
    → (elim params as (λ _. Option (NodeParams F)) [ none ↦ o | some x ↦ some x ]) ≡ some q
    → (elim kind as (λ _. Option String) [ none ↦ k | some x ↦ some x ]) ≡ some (kind_name q)
new_agree kind none q k absent agreed h = absurd (ground (arith, absent, h))
new_agree kind (some p) q k absent agreed h =
    rw (agreed p refl) (ap (λ o. elim o [ none ↦ none | some x ↦ some (kind_name x) ]) h)

-- The fresh id of a new node.
abbrev pub next_id : List NodeSnapshot → ℕ
next_id ns = min (max_id ns + 1) usize_max

pub find_node-next_id :
    (ns : List NodeSnapshot) → max_id ns < usize_max → find_node (next_id ns) ns ≡ none
find_node-next_id ns room = find_node-max_id ns (next_id ns) (omega arith)

pub agreed_cases :
    (r : Result (Option String))
    → ((kind : Option String) × (r ≡ ok kind)) ⊎ ((e : ControlError) × (r ≡ err e))
agreed_cases (ok kind) = inl (kind, refl)
agreed_cases (err e) = inr (e, refl)

pub agreed_of :
    {F : Type 0} (kind : Option String) (params : Option (NodeParams F)) (agreed : Option String)
    → agreed_kind kind params ≡ ok agreed
    → (p : NodeParams F) → params ≡ some p
    → agreed ≡ some (kind_name p)
agreed_of kind none agreed h p e = absurd (ground (arith, e))
agreed_of kind (some q) agreed h p e =
    agreed_kind-ok kind q agreed h
    ∙ ap (λ o. elim o [ none ↦ none | some x ↦ some (kind_name x) ]) e
