-- ===== src/Schema/Manifest/Agents/Fits.antt =====
-- What an agent that is read with no violation is like.
use canyonos.Prelude.{
  ℕ, suc, ◌≡◌, refl, sym, ◌∙◌, subst, true, false, String, List, [], ◌∷◌, Option, none, some, arith,
  contains, All,
}
use canyonos.Prelude.Int.{ℤ, pos, ◌≤ℤ◌}
use canyonos.Value.{Value, null, dict, Fields}
use canyonos.Schema.{Place, Host, Checked, ◌>>=◌}
use canyonos.Schema.Clean.{Clean, bind-Clean}
use canyonos.Schema.Readers.{IsPort, integer-AtLeast, port-IsPort}
use canyonos.Schema.Functions.{stub_global_names, with_some}
use canyonos.Schema.Functions.Names.{AreNew, IsFunction, functions-AreFunctions, identifier-IsName}
use canyonos.Schema.Manifest.{
  AgentSpec, AgentType, agent, database, Kind, code_agent, database_agent, Common,
}
use canyonos.Schema.Manifest.Agents.{
  common, agent_type, agent_name, kind, code_kind, database_kind, assemble, agent_entry,
  agents_from, specs_of, indexed_agent, agent_place, is_one,
}

module _ (host : Host) where
  -- What the type of an agent asks of it: a name that can be a class and functions that can be its
  -- methods, or a single container on a port.
  abbrev pub KindFits : String → ℤ → Kind → Type 0
  KindFits name replicas (code_agent c) =
      (host.identifier name ≡ true)
      × (contains stub_global_names name ≡ false)
      × AreNew (λ f. f.name) (IsFunction host) [] c.functions
  KindFits name replicas (database_agent d) = (replicas ≡ pos 1) × IsPort d.db_port

  abbrev pub Fits : AgentSpec → Type 0
  Fits a = (pos 1 ≤ℤ a.replicas) × KindFits a.name a.replicas a.kind

  assemble-some :
      (c : Common) (o : Option String) (k : Option Kind) {a : AgentSpec}
      → assemble host c o k ≡ some a
      → (o ≡ some a.name) × (c.replicas ≡ a.replicas) × (k ≡ some a.kind)
  assemble-some c none k h = cc
  assemble-some c (some n) none h = cc
  assemble-some c (some n) (some k) h = ground (arith, h)

  common_replicas :
      (t : Option AgentType) (node : Fields) (p : Place)
      → pos 1 ≤ℤ (common host t node p).value.replicas
  unfolding common ◌>>=◌
  common_replicas t node p = integer-AtLeast node "replicas" p (pos 1) (pos 1) (omega arith)

  code_kind-Fits :
      (node : Fields) (p : Place) (n : String) (r : ℤ)
      → (host.identifier n ≡ true) × (contains stub_global_names n ≡ false)
      → KindFits n r (code_kind host node p).value
  unfolding code_kind ◌>>=◌
  code_kind-Fits node p n r h = (h.0, h.1, functions-AreFunctions host node p)

  database_kind-Fits :
      (node : Fields) (p : Place) (n : String) (r : ℤ)
      → r ≡ pos 1
      → KindFits n r (database_kind host node p r).value
  unfolding database_kind ◌>>=◌
  database_kind-Fits node p n r h = (h, port-IsPort node "db_port" p (pos 5432) (omega arith))

  is_one-eq : (r : ℤ) → is_one host r ≡ true → r ≡ pos 1
  is_one-eq r h = ground arith

  kind_single :
      (node : Fields) (p : Place) (r : ℤ) → Clean (kind host (some database) node p r) → r ≡ pos 1
  unfolding kind database_kind
  kind_single node p r h =
      let k = bind-Clean _ _ (bind-Clean _ _ h).0 in is_one-eq r (ground (arith, k.0))

  -- The kind that is read fits the name and the count that are read.
  kind-Fits :
      (t : Option AgentType) (node : Fields) (p : Place) (n : String) (r : ℤ) {k : Kind}
      → Clean (kind host t node p r)
      → (agent_name host t node p).value ≡ some n
      → (kind host t node p r).value ≡ some k
      → KindFits n r k
  unfolding kind agent_name ◌>>=◌
  kind-Fits none node p n r h e q = cc
  kind-Fits (some agent) node p n r {k} h e q =
      let i = identifier-IsName host node "name" p true stub_global_names e in
      let same : (code_kind host node p).value ≡ k = cc in
      subst (λ x. KindFits n r x) same (code_kind-Fits node p n r i)
  kind-Fits (some database) node p n r {k} h e q =
      let same : (database_kind host node p r).value ≡ k = cc in
      subst (λ x. KindFits n r x) same (database_kind-Fits node p n r (kind_single node p r h))

  module _ (node : Fields) (p : Place) where
    -- What `_agent` reads of an entry.
    abbrev read_type : Option AgentType
    read_type = (agent_type host node p).value

    abbrev read_common : Common
    read_common = (common host read_type node p).value

    abbrev read_kind : Checked (Option Kind)
    read_kind = kind host read_type node p read_common.replicas

    entry-Clean : Clean (agent_entry host (dict node) p) → Clean read_kind
    unfolding agent_entry
    entry-Clean h =
        let t = bind-Clean _ _ h in
        let keys = bind-Clean _ _ t.1 in let c = bind-Clean _ _ keys.1 in (bind-Clean _ _ c.1).0

    entry-value :
        (agent_entry host (dict node) p).value
        ≡ assemble host read_common read_common.name read_kind.value
    unfolding agent_entry ◌>>=◌
    entry-value = refl

    entry-Fits :
        {a : AgentSpec}
        → Clean read_kind
        → assemble host read_common read_common.name read_kind.value ≡ some a
        → Fits a
    unfolding common ◌>>=◌
    entry-Fits {a} h e =
        let r = assemble-some read_common read_common.name read_kind.value e in
        let k = kind-Fits read_type node p a.name read_common.replicas h r.0 r.2 in
        (
          subst (λ z. pos 1 ≤ℤ z) r.1 (common_replicas read_type node p),
          subst (λ z. KindFits a.name z a.kind) r.1 k,
        )

  agent_entry-Fits :
      (v : Value) (p : Place) {a : AgentSpec}
      → Clean (agent_entry host v p)
      → (agent_entry host v p).value ≡ some a
      → Fits a
  agent_entry-Fits (dict node) p h e =
      entry-Fits node p (entry-Clean node p h) (sym (entry-value node p) ∙ e)
  agent_entry-Fits null p h e = unfold agent_entry in cc
  agent_entry-Fits _ p h e = unfold agent_entry in cc

  All-with_some :
      (i : ℕ) (o : Option AgentSpec) (rest : List (ℕ × AgentSpec))
      → ((a : AgentSpec) → o ≡ some a → Fits a)
      → All Fits (specs_of rest)
      → All Fits (specs_of (with_some (indexed_agent host i o) rest))
  All-with_some i none rest h r = r
  All-with_some i (some a) rest h r = (h a refl, r)

  agents_from-cons :
      (v : Value) (vs : List Value) (i : ℕ)
      → Clean (agents_from host (v ∷ vs) i)
      → Clean (agent_entry host v (agent_place host i)) × Clean (agents_from host vs (suc i))
  unfolding agents_from
  agents_from-cons v vs i h = let a = bind-Clean _ _ h in (a.0, (bind-Clean _ _ a.1).0)

  pub agents_from-Fits :
      (vs : List Value) (i : ℕ)
      → Clean (agents_from host vs i)
      → All Fits (specs_of (agents_from host vs i).value)
  unfolding agents_from ◌>>=◌
  agents_from-Fits [] i h = tt
  agents_from-Fits (v ∷ vs) i h =
      let c = agents_from-cons v vs i h in
      All-with_some i (agent_entry host v (agent_place host i)).value _
        (λ a e. agent_entry-Fits v _ c.0 e) (agents_from-Fits vs (suc i) c.1)
