-- ===== src/Peers/Imposter.antt =====
-- flud/protocol/FludCommUtil.py: where `updateNode` raises.
use flud.Prelude.{
  ℕ, ◌≤◌, ◌<◌, ◌^◌, suc, ◌≡◌, refl, ◌∙◌, subst, ok, raise, value_error, Option, none, some, get,
  has, arith, String, Bool-cases, Option-cases, inl, inr, false, nat_eq, ◌==◌, if◌then◌else◌,
  Result, not,
}
use flud.Routing.Node.{Node}
use flud.Routing.Table.{idspace}
use flud.Routing.Table.Operations.{insert_node-After}
use flud.Config.Nodes.{add_node-Added}
use flud.Peers.{
  Peers, Outcome, and_then, update_node, update_with_key, update_by_id, record_node, update_routing,
  add_peer, mismatch, elem, Bool,
}
use flud.Peers.Trust.{Trusted, add_peer-Trusted, given_own}

module _ (id_of : ℕ → ℕ) (stop : ℕ) (small : stop ≤ suc (2 ^ idspace))
    (in_space : (ku : ℕ) → id_of ku < stop) where
  update_routing-ok :
      (p : Peers) (n : Node)
      → id_of n.ku ≡ n.id
      → Trusted id_of stop p.config
      → (update_routing p n).1 ≡ ok tt
  unfolding update_routing
  update_routing-ok p n own t =
      let h : n.id < stop = subst (λ x. x < stop) own (in_space n.ku) in
      let did = insert_node-After stop p.config.routing n t.me t.valid t.local h small in
      rw (update_routing, did.2) refl

  add_peer-ok :
      (p : Peers) (n : Node)
      → id_of n.ku ≡ n.id
      → Trusted id_of stop p.config
      → (add_peer p n.host n.port n.ku n.id).1 ≡ ok tt
  unfolding add_peer
  add_peer-ok p n own t =
      let h : n.id < stop = subst (λ x. x < stop) own (in_space n.ku) in
      let (c', e, cases) = add_node-Added stop p.config n t.me p.group t.valid t.local h small in
      rw e refl

  chained-ok :
      (o : Outcome) (next : Peers → Outcome)
      → ((q : Peers) → Trusted id_of stop q.config → (next q).1 ≡ ok tt)
      → Trusted id_of stop o.0.config
      → o.1 ≡ ok tt
      → (and_then o next).1 ≡ ok tt
  chained-ok (q, raise e) next step kept h = h
  chained-ok (q, ok u) next step kept h = step q kept

  record_node-ok :
      (p : Peers) (host : String) (port ku : ℕ)
      → Trusted id_of stop p.config
      → (record_node p host port ku (id_of ku)).1 ≡ ok tt
  unfolding record_node
  record_node-ok p host port ku t =
      let n : Node = record { host = host; port = port; id = id_of ku; ku = ku } in
      elim (Bool-cases (has (id_of ku) p.config.nodes)) [
        | inl old ↦ rw old (update_routing-ok p n refl t)
        | inr new ↦ rw new (
            chained-ok (add_peer p host port ku (id_of ku)) (λ q. update_routing q n)
              (λ q. update_routing-ok q n refl)
              (add_peer-Trusted id_of stop small in_space p n refl t) (add_peer-ok p n refl t))
      ]

  update_with_key-result :
      (p : Peers) (host : String) (port ku : ℕ) (i : Option ℕ)
      → Trusted id_of stop p.config
      → (update_with_key id_of p host port ku i).1
        ≡ (if mismatch (id_of ku) i then raise value_error else ok tt)
  unfolding update_with_key
  update_with_key-result p host port ku i t = elim (Bool-cases (mismatch (id_of ku) i)) [
    | inl imposter ↦ rw imposter refl
    | inr own ↦ rw (own, given_own (id_of ku) i own) (record_node-ok _ host port ku t)
  ]

  abbrev done : Result (Unit {0})
  done = ok tt

  matched : (own i : ℕ) → own ≡ i → (if not (i == own) then raise value_error else ok tt) ≡ done
  matched own i same = ground (arith, same)

  -- Whether a key comes with an id that is not its own.
  abbrev pub imposter : Option ℕ → Option ℕ → Bool
  imposter none i = false
  imposter (some ku) i = mismatch (id_of ku) i

  -- `updateNode` on a configuration whose table is valid and in which every key stands under its
  -- own id, where every id of a key is in the id space: it raises `ValueError` where a key comes
  -- with an id that is not its own, and for all other arguments it returns.
  pub update_node-imposter :
      (p : Peers) (host : String) (port : ℕ) (ku i : Option ℕ)
      → Trusted id_of stop p.config
      → (update_node id_of p host port ku i).1
        ≡ (if imposter ku i then raise value_error else ok tt)
  unfolding update_node update_by_id
  update_node-imposter p host port (some ku) i t = update_with_key-result p host port ku i t
  update_node-imposter p host port none none t = refl
  update_node-imposter p host port none (some i) t = elim (Option-cases (get i p.config.nodes)) [
    | inl unknown ↦
        rw (update_by_id, unknown)
          (elim (Bool-cases (elem i p.pending)) [
            | inl asked ↦ rw asked refl
            | inr fresh ↦ rw fresh refl
          ])
    | inr (known, e) ↦
        let own = t.known_own i known e in
        rw (update_by_id, e)
          (update_with_key-result p host port known.ku (some i) t ∙ matched (id_of known.ku) i own)
  ]
