-- ===== src/Sending/Safe.antt =====
-- flud/protocol/ClientDHTPrimitives.py and FludCommUtil.py: what the answers of the network can do to
-- the configuration.
use flud.Prelude.{
  ℕ, ◌<◌, ◌≤◌, ◌^◌, suc, ◌≡◌, refl, inl, inr, Bool-cases, List, none, some, Result, ok, raise, ◌==◌,
  String,
}
use flud.Routing.Table.{idspace}
use flud.Peers.{Peers, update_node, update_nodes}
use flud.Peers.Trust.{Trusted, update_node-Trusted, update_nodes-Trusted}
use flud.Sending.{
  Sent, Reply, Attempt, replied, timed_out, broken, send, Dictionary, learn, read_dictionary,
  find_node_reply, find_value_reply, send_k_find_node, send_k_find_value, send_k_store, store_reply,
  next_step, status_ok,
}
use flud.Sending.Retries.{outcome, send-first}

unmoved : (reply : ℕ → Attempt) (p : Peers) → (send store_reply reply p).0 ≡ p
unfolding store_reply
unmoved reply p = elim (send-first store_reply reply p) [
  | inl (all, raised) ↦ rw raised refl
  | inr (n, first, result) ↦ rw result (stays (reply n))
]
  where
    stays : (a : Attempt) → (outcome store_reply reply p a).0 ≡ p
    stays (replied r) = elim (Bool-cases (r.status == status_ok)) [
      | inl fine ↦ rw fine refl
      | inr bad ↦ rw bad refl
    ]
    stays timed_out = refl
    stays (broken e) = refl

module _ (id_of : ℕ → ℕ) (stop : ℕ) (small : stop ≤ suc (2 ^ idspace))
    (in_space : (ku : ℕ) → id_of ku < stop) where
  abbrev pub Safe {ℓ} : {A : Type ℓ} → Sent A → Type 0
  Safe s = Trusted id_of stop s.0.config

  pub stepped :
      {A B : Type 0} (s : Sent A) (next : Peers → A → Sent B)
      → Safe s
      → ((q : Peers) (a : A) → Trusted id_of stop q.config → Safe (next q a))
      → Safe (next_step s next)
  stepped (p, raise e) next safe step = safe
  stepped (p, ok a) next safe step = step p a safe

  outcome-Safe :
      {A : Type 0} (handle : Peers → Reply → Sent A) (reply : ℕ → Attempt) (p : Peers) (a : Attempt)
      → ((r : Reply) → Safe (handle p r))
      → Trusted id_of stop p.config
      → Safe (outcome handle reply p a)
  outcome-Safe handle reply p (replied r) h t = h r
  outcome-Safe handle reply p timed_out h t = t
  outcome-Safe handle reply p (broken e) h t = t

  pub send-Safe :
      {A : Type 0} (handle : Peers → Reply → Sent A) (reply : ℕ → Attempt) (p : Peers)
      → ((r : Reply) → Safe (handle p r))
      → Trusted id_of stop p.config
      → Safe (send handle reply p)
  send-Safe handle reply p h t = elim (send-first handle reply p) [
    | inl (all, raised) ↦ rw raised t
    | inr (n, first, result) ↦ rw result (outcome-Safe handle reply p (reply n) h t)
  ]

  module _ (read : List ℕ → Result Dictionary) (host : String) (port : ℕ) where
    read_dictionary-Safe :
        (p : Peers) (body : List ℕ)
        → Trusted id_of stop p.config
        → Safe (read_dictionary id_of read host port p body)
    unfolding read_dictionary learn
    read_dictionary-Safe p body t =
        stepped (p, read body) (λ q d. learn id_of read host port q d) t
          (λ q d t'.
            stepped (update_node id_of q host port none (some d.responder)) _
              (update_node-Trusted id_of stop small in_space q host port none (some d.responder) t')
              (λ q' u t''.
                stepped (update_nodes id_of q' d.known) _
                  (update_nodes-Trusted id_of stop small in_space q' d.known t'')
                  (λ q'' v t'''. t''')))

    find_node_reply-Safe :
        (p : Peers) (r : Reply)
        → Trusted id_of stop p.config
        → Safe (find_node_reply id_of read host port p r)
    unfolding find_node_reply
    find_node_reply-Safe p r t = elim (Bool-cases (r.status == status_ok)) [
      | inl fine ↦ rw fine (read_dictionary-Safe p r.body t)
      | inr bad ↦ rw bad t
    ]

    find_value_reply-Safe :
        (p : Peers) (r : Reply)
        → Trusted id_of stop p.config
        → Safe (find_value_reply id_of read host port p r)
    unfolding find_value_reply
    find_value_reply-Safe p r t = elim (Bool-cases (r.status == status_ok)) [
      | inl fine ↦ elim (Bool-cases r.is_data) [
        | inl value ↦
            rw (fine, value)
              (stepped (update_node id_of p host port none r.node_id) _
                (update_node-Trusted id_of stop small in_space p host port none r.node_id t)
                (λ q u t'. t'))
        | inr dict ↦ rw (fine, dict) (read_dictionary-Safe p r.body t)
      ]
      | inr bad ↦ rw bad t
    ]

    -- The three requests of the DHT client from a configuration whose table is valid and in which
    -- every key stands under its own id, where every id is in the id space, for every answer of the
    -- network and everything that its bodies are read as: the configuration is such a one afterwards,
    -- for a request to store it is the same.
    pub send_k-Trusted :
        (reply : ℕ → Attempt) (p : Peers)
        → Trusted id_of stop p.config
        → Trusted id_of stop (send_k_find_node id_of read host port reply p).0.config
          × Trusted id_of stop (send_k_find_value id_of read host port reply p).0.config
          × ((send_k_store reply p).0 ≡ p)
    unfolding send_k_find_node send_k_find_value send_k_store
    send_k-Trusted reply p t = (
      send-Safe (find_node_reply id_of read host port) reply p (λ r. find_node_reply-Safe p r t) t,
      send-Safe (find_value_reply id_of read host port) reply p (λ r. find_value_reply-Safe p r t)
          t,
      unmoved reply p,
    )
