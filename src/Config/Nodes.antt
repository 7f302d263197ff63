-- ===== src/Config/Nodes.antt =====
-- flud/FludConfig.py: what `addNode` does to the known nodes and the routing table.
use flud.Routing.NodeCache.{NodeCache}
use flud.Prelude.{
  ℕ, ◌≤◌, ◌<◌, ◌^◌, suc, ◌≡◌, refl, ok, Option, some, get, put, has, get-put, Bool-cases, inl, inr,
  true, false, Option-cases, if◌then◌else◌, ◌==◌, nat_eq, ◌⊎◌,
}
use flud.Routing.Node.{Node}
use flud.Routing.NodeCache.Fifo.{insert_node-Holds, Holds}
use flud.Routing.Table.{Table, idspace}
use flud.Routing.Table.Insert.{IsValid, After}
use flud.Routing.Table.Operations.{insert_node-After}
use flud.Config.{Config, Known, insert_or_cache, add_node, List, initial_score}

-- An insertion, and then another replacement cache.
recached :
    (stop : ℕ) (t : Table) (n : Node) (t' : Table)
    → After stop t n t'
    → (cache : NodeCache) (ns : List Node) → Holds cache ns
    → After stop t n (record t' { replacement_cache = cache })
recached stop t n t' after cache ns h = record {
  valid = record {
    chain = after.valid.chain;
    sound = after.valid.sound;
    cached = ns;
    cache = h;
    deep = after.valid.deep;
  };
  same_k = after.same_k;
  same_node = after.same_node;
  others = after.others;
  own = after.own;
}

module _ (stop : ℕ) (t : Table) (n me : Node) (v : IsValid stop t) (local : t.node ≡ some me)
    (h : n.id < stop) (small : stop ≤ suc (2 ^ idspace)) where
  -- The insertion of `addNode` returns, and does to the table what an insertion may do.
  pub insert_or_cache-After : (t' : Table) × (insert_or_cache t n ≡ ok t') × After stop t n t'
  unfolding insert_or_cache
  insert_or_cache-After =
      let did = insert_node-After stop t n me v local h small in
      let t1 : Table = did.0 in
      let r : Option Node = did.1 in
      let e = did.2 in
      let after : After stop t n t1 = did.3 in
      elim (Option-cases r) [
        | inl unasked ↦ (t1, rw (e, insert_or_cache, unasked), after)
        | inr asked ↦
            let cached =
              insert_node-Holds t1.replacement_cache after.valid.cached n after.valid.cache in
            (
              record t1 { replacement_cache = cached.0 },
              rw (e, insert_or_cache, asked.1, cached.1) refl,
              recached stop t n t1 after cached.0 _ cached.2,
            )
      ]

abbrev pub known_as : Node → ℕ → Known
known_as n group = record { host = n.host; port = n.port; ku = n.ku; group = group }

-- What `addNode` of a node that is not known does.
pub record Added (stop : ℕ) (c : Config) (n : Node) (group : ℕ) (c' : Config) : Type 0 where
  pub routed : After stop c.routing n c'.routing
  pub nodes :
      (j : ℕ) → get j c'.nodes ≡ (if n.id == j then some (known_as n group) else get j c.nodes)
  pub scores :
      (j : ℕ)
      → get j c'.reputations ≡ (if n.id == j then some initial_score else get j c.reputations)
  pub throttled : c'.throttled ≡ c.throttled

-- `addNode` on a configuration with a valid table that has its local node, for an id below
-- `stop`, where `stop` is in the id space: it does not raise. A node that is known changes
-- nothing. Else the node is the known one under its id with the initial reputation, the other
-- nodes, reputations and the pauses stay, and the table did what an insertion of the node may do.
pub add_node-Added :
    (stop : ℕ) (c : Config) (n me : Node) (group : ℕ)
    → IsValid stop c.routing
    → c.routing.node ≡ some me
    → n.id < stop
    → stop ≤ suc (2 ^ idspace)
    → (c' : Config) × (add_node c n.id n.host n.port n.ku group ≡ (c', ok tt))
      × (((has n.id c.nodes ≡ true) × (c' ≡ c))
          ⊎ ((has n.id c.nodes ≡ false) × Added stop c n group c'))
unfolding add_node
add_node-Added stop c n me group v local h small = elim (Bool-cases (has n.id c.nodes)) [
  | inl old ↦ (c, rw old refl, inl (old, refl))
  | inr new ↦
      let into = insert_or_cache-After stop c.routing n me v local h small in
      let c' : Config = record c {
        nodes = put n.id (known_as n group) c.nodes;
        routing = into.0;
        reputations = put n.id initial_score c.reputations;
      } in
      (
        c',
        rw (new, into.1) refl,
        inr (
          new,
          record {
            routed = into.2;
            nodes = λ j. get-put n.id j (known_as n group) c.nodes;
            scores = λ j. get-put n.id j initial_score c.reputations;
            throttled = refl;
          },
        ),
      )
]
