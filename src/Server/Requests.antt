-- ===== src/Server/Requests.antt =====
-- flud/protocol/AiohttpServer.py: the server's challenges and configuration under the
-- requests of the DHT.
use flud.Prelude.{ℕ, ◌<◌, ◌≤◌, ◌^◌, suc, ◌≡◌, refl, some, List, Result, ok, raise, String, Dict}
use flud.Fencode.Values.{Value, str_value}
use flud.Fencode.Decode.{fdecode, depth}
use flud.Routing.Node.{Node}
use flud.Routing.Table.{idspace}
use flud.Peers.Trust.{update_node-Trusted}
use flud.Server.Auth.{Server}
use flud.Server.Kept.{Kept}
use flud.Server.Meta.{
  Tools, Identified, refused, identified, identify, greet, greeted, handle, Handled, handle_id,
  handle_nodes_get, handle_meta_put, handle_meta_get, put_meta, nodes_told, encoded,
}

module _ (tools : Tools) (stop : ℕ) (small : stop ≤ suc (2 ^ idspace))
    (in_space : (ku : ℕ) → tools.library.id_of ku < stop) where
  abbrev Ordered : Server → Type 0
  Ordered s = Kept tools.library stop s

  greet-Kept :
      (host : String) (ku : ℕ) (port : List ℕ) (s : Server)
      → Ordered s
      → Ordered (greet tools host ku port s).0
  unfolding greet
  greet-Kept host ku port s k = go (tools.read_int port) refl
    where
      go : (p : Result ℕ) → tools.read_int port ≡ p → Ordered (greet tools host ku port s).0
      go (raise e) h = rw (greet, h) k
      go (ok n) h =
          rw (greet, h)
            (record {
              once = k.once;
              trusted =
                  update_node-Trusted tools.library.id_of stop small in_space s.peers host n
                    (some ku) (some (tools.library.id_of ku)) k.trusted;
            })

  greeted-Kept :
      (o : Server × Result (Unit {0})) (rest : Server → Handled)
      → Ordered o.0
      → ((t : Server) → Ordered t → Ordered (rest t).0)
      → Ordered (greeted o rest).0
  greeted-Kept (s, raise e) rest k step = k
  greeted-Kept (s, ok u) rest k step = step s k

  module _ (host : String) (query : Dict (List ℕ) (List (List ℕ))) where
    handle-Kept :
        (rest : List ℕ → Server → Handled) (s : Server)
        → Ordered s
        → ((node_id : List ℕ) (t : Server) → Ordered t → Ordered (rest node_id t).0)
        → Ordered (handle tools host query rest s).0
    unfolding handle
    handle-Kept rest s k step = go (identify tools query) refl
      where
        go :
            (i : Result Identified)
            → identify tools query ≡ i
            → Ordered (handle tools host query rest s).0
        go (raise e) h = rw (handle, h) k
        go (ok (refused r)) h = rw (handle, h) k
        go (ok (identified ku node_id port)) h =
            rw (handle, h)
              (greeted-Kept (greet tools host ku port s) (rest node_id)
                (greet-Kept host ku port s k) (step node_id))

    put_meta-Kept : (key val : List ℕ) (s : Server) → Ordered s → Ordered (put_meta key val s).0
    unfolding put_meta
    put_meta-Kept key val s k = go (fdecode (depth 1) (str_value val)) refl
      where
        written :
            (md : Value) (e : Result (List ℕ))
            → fdecode (depth 1) (str_value val) ≡ ok md
            → encoded md ≡ e
            → Ordered (put_meta key val s).0
        written md (raise e) h w =
            rw (put_meta, h, w) (record { once = k.once; trusted = k.trusted })
        written md (ok bytes) h w =
            rw (put_meta, h, w) (record { once = k.once; trusted = k.trusted })

        go :
            (d : Result Value)
            → fdecode (depth 1) (str_value val) ≡ d
            → Ordered (put_meta key val s).0
        go (raise e) h = rw (put_meta, h) k
        go (ok md) h = written md (encoded md) h refl

    nodes_get-Kept :
        (key : List ℕ) (s : Server)
        → Ordered s
        → Ordered (handle_nodes_get tools host query key s).0
    unfolding handle_nodes_get
    nodes_get-Kept key s k = go (identify tools query) refl
      where
        listed :
            (ku : ℕ) (node_id port : List ℕ) (ns : Result (List Node))
            → identify tools query ≡ ok (identified ku node_id port)
            → nodes_told tools key s ≡ ns
            → Ordered (handle_nodes_get tools host query key s).0
        listed ku node_id port (raise e) h l = rw (handle_nodes_get, h, l) k
        listed ku node_id port (ok ns) h l =
            rw (handle_nodes_get, h, l)
              (greeted-Kept (greet tools host ku port s) _ (greet-Kept host ku port s k)
                (λ t kept. kept))

        go :
            (i : Result Identified)
            → identify tools query ≡ i
            → Ordered (handle_nodes_get tools host query key s).0
        go (raise e) h = rw (handle_nodes_get, h) k
        go (ok (refused r)) h = rw (handle_nodes_get, h) k
        go (ok (identified ku node_id port)) h =
            listed ku node_id port (nodes_told tools key s) h refl

    -- The handlers of ID, nodes and meta, where every id of a key is in the id space, for every
    -- request, also where they raise: a server whose challenges each stand once, and whose
    -- configuration has a valid table and every key under its own id, is such a one afterwards.
    pub requests-Kept :
        (key val : List ℕ) (s : Server)
        → Ordered s
        → Ordered (handle_id tools host query s).0
          × Ordered (handle_nodes_get tools host query key s).0
          × Ordered (handle_meta_put tools host query key val s).0
          × Ordered (handle_meta_get tools host query key s).0
    unfolding handle_id handle_meta_put handle_meta_get
    requests-Kept key val s k = (
      handle-Kept _ s k (λ node_id t kept. kept),
      nodes_get-Kept key s k,
      handle-Kept _ s k (λ node_id t kept. put_meta-Kept key val t kept),
      handle-Kept _ s k (λ node_id t kept. kept),
    )
