-- ===== src/Peers/Trust.antt =====
-- flud/protocol/FludCommUtil.py: keys and the ids that they come with, under `updateNode`.
use flud.Prelude.{
  ℕ, ◌≤◌, ◌<◌, ◌^◌, suc, ◌≡◌, refl, sym, ◌∙◌, ap, subst, ok, raise, Option, none, some, get, has,
  arith, String, Bool-cases, Option-cases, inl, inr, nat_eq, ◌==◌, List, [], ◌∷◌, if◌then◌else◌,
}
use flud.Routing.Node.{Node}
use flud.Routing.Table.{Table, idspace}
use flud.Routing.Table.Contents.{stored}
use flud.Routing.Table.Insert.{IsValid, After}
use flud.Routing.Table.Operations.{insert_node-After}
use flud.Config.{Config, Known}
use flud.Config.Nodes.{add_node-Added, Added, known_as}
use flud.Peers.{
  Peers, Outcome, and_then, update_node, update_with_key, update_by_id, given, record_node,
  update_routing, add_peer, update_nodes, mismatch, elem, false,
}

-- A configuration whose table is valid, and in which every key stands under its own id: in the known
-- nodes and in the buckets.
pub record Trusted (id_of : ℕ → ℕ) (stop : ℕ) (c : Config) : Type 0 where
  pub valid : IsValid stop c.routing
  pub me : Node
  pub local : c.routing.node ≡ some me
  pub known_own : (i : ℕ) (k : Known) → get i c.nodes ≡ some k → id_of k.ku ≡ i
  pub stored_own : (i : ℕ) (n : Node) → stored c.routing.buckets i ≡ some n → id_of n.ku ≡ i

-- An id that does not mismatch the key is the key's.
pub given_own : (own : ℕ) (i : Option ℕ) → mismatch own i ≡ false → given own i ≡ own
given_own own none h = refl
given_own own (some i) h = ground (arith, h)

module _ (id_of : ℕ → ℕ) (stop : ℕ) (small : stop ≤ suc (2 ^ idspace))
    (in_space : (ku : ℕ) → id_of ku < stop) where
  abbrev pub Kept : Outcome → Type 0
  Kept o = Trusted id_of stop o.0.config

  -- A node with its own key that goes into the table.
  stored_later :
      (t t' : Table) (n : Node)
      → id_of n.ku ≡ n.id
      → After stop t n t'
      → ((i : ℕ) (m : Node) → stored t.buckets i ≡ some m → id_of m.ku ≡ i)
      → (i : ℕ) (m : Node) → stored t'.buckets i ≡ some m
      → id_of m.ku ≡ i
  stored_later t t' n own after before i m e = elim (Bool-cases (n.id == i)) [
    | inl same ↦
        let is : n.id ≡ i = ground (arith, same) in
        elim after.own [
          | inl put_in ↦ let m=n : m ≡ n = cc in ap (λ x. id_of x.ku) m=n ∙ own ∙ is
          | inr kept ↦
              before i m
                (ap (stored t.buckets) (sym is) ∙ sym kept.0 ∙ ap (stored t'.buckets) is ∙ e)
        ]
    | inr other ↦
        before i m (sym (after.others i (λ same. absurd (ground (arith, other, same)))) ∙ e)
  ]

  pub update_routing-Trusted :
      (p : Peers) (n : Node)
      → id_of n.ku ≡ n.id
      → Trusted id_of stop p.config
      → Kept (update_routing p n)
  unfolding update_routing
  update_routing-Trusted p n own t =
      let h : n.id < stop = subst (λ x. x < stop) own (in_space n.ku) in
      let did = insert_node-After stop p.config.routing n t.me t.valid t.local h small in
      rw (update_routing, did.2)
        (record {
          valid = did.3.valid;
          me = t.me;
          local = did.3.same_node ∙ t.local;
          known_own = t.known_own;
          stored_own = stored_later p.config.routing did.0 n own did.3 t.stored_own;
        })

  pub add_peer-Trusted :
      (p : Peers) (n : Node)
      → id_of n.ku ≡ n.id
      → Trusted id_of stop p.config
      → Kept (add_peer p n.host n.port n.ku n.id)
  unfolding add_peer
  add_peer-Trusted p n own t =
      let h : n.id < stop = subst (λ x. x < stop) own (in_space n.ku) in
      let (c', e, cases) = add_node-Added stop p.config n t.me p.group t.valid t.local h small in
      rw e (elim cases [
        | inl old ↦ subst (Trusted id_of stop) (sym old.1) t
        | inr new ↦
            let added : Added stop p.config n p.group c' = new.1 in
            record {
              valid = added.routed.valid;
              me = t.me;
              local = added.routed.same_node ∙ t.local;
              known_own = λ i k f. known_after i k (sym (added.nodes i) ∙ f);
              stored_own = stored_later p.config.routing c'.routing n own added.routed t.stored_own;
            }
      ])
    where
      known_after :
          (i : ℕ) (k : Known)
          → (if n.id == i then some (known_as n p.group) else get i p.config.nodes) ≡ some k
          → id_of k.ku ≡ i
      known_after i k f = elim (Bool-cases (n.id == i)) [
        | inl same ↦
            let is : n.id ≡ i = ground (arith, same) in
            let k=n : k ≡ known_as n p.group = ground (arith, same, f) in
            ap (λ x. id_of x.ku) k=n ∙ own ∙ is
        | inr other ↦ t.known_own i k (ground (arith, other, f))
      ]

  -- A step after another keeps the configuration trusted if it does so by itself.
  pub chained :
      (o : Outcome) (next : Peers → Outcome)
      → ((q : Peers) → Trusted id_of stop q.config → Kept (next q))
      → Kept o
      → Kept (and_then o next)
  chained (q, raise e) next step kept = kept
  chained (q, ok u) next step kept = step q kept

  record_node-Trusted :
      (p : Peers) (host : String) (port ku : ℕ)
      → Trusted id_of stop p.config
      → Kept (record_node p host port ku (id_of ku))
  unfolding record_node
  record_node-Trusted p host port ku t =
      let n : Node = record { host = host; port = port; id = id_of ku; ku = ku } in
      elim (Bool-cases (has (id_of ku) p.config.nodes)) [
        | inl old ↦ rw old (update_routing-Trusted p n refl t)
        | inr new ↦ rw new (
            chained (add_peer p host port ku (id_of ku)) (λ q. update_routing q n)
              (λ q. update_routing-Trusted q n refl) (add_peer-Trusted p n refl t))
      ]

  update_with_key-Trusted :
      (p : Peers) (host : String) (port ku : ℕ) (i : Option ℕ)
      → Trusted id_of stop p.config
      → Kept (update_with_key id_of p host port ku i)
  unfolding update_with_key
  update_with_key-Trusted p host port ku i t = elim (Bool-cases (mismatch (id_of ku) i)) [
    | inl imposter ↦ rw imposter t
    | inr own ↦ rw (own, given_own (id_of ku) i own) (record_node-Trusted _ host port ku t)
  ]

  -- `updateNode`, where every id of a key is in the id space, for all arguments, also where it
  -- raises: a configuration whose table is valid and in which every key stands under its own id is
  -- such a one afterwards.
  pub update_node-Trusted :
      (p : Peers) (host : String) (port : ℕ) (ku i : Option ℕ)
      → Trusted id_of stop p.config
      → Trusted id_of stop (update_node id_of p host port ku i).0.config
  unfolding update_node update_by_id
  update_node-Trusted p host port (some ku) i t = update_with_key-Trusted p host port ku i t
  update_node-Trusted p host port none none t = t
  update_node-Trusted p host port none (some i) t = elim (Option-cases (get i p.config.nodes)) [
    | inl unknown ↦
        rw (update_by_id, unknown)
          (elim (Bool-cases (elem i p.pending)) [ inl asked ↦ rw asked t | inr fresh ↦ rw fresh t ])
    | inr (known, e) ↦
        rw (update_by_id, e) (update_with_key-Trusted p host port known.ku (some i) t)
  ]

  -- The same for `updateNodes`.
  pub update_nodes-Trusted :
      (p : Peers) (ns : List Node)
      → Trusted id_of stop p.config
      → Trusted id_of stop (update_nodes id_of p ns).0.config
  unfolding update_nodes
  update_nodes-Trusted p [] t = t
  update_nodes-Trusted p (n ∷ ns) t =
      chained (update_node id_of p n.host n.port (some n.ku) (some n.id))
        (λ q. update_nodes id_of q ns) (λ q. update_nodes-Trusted q ns)
        (update_node-Trusted p n.host n.port (some n.ku) (some n.id) t)
