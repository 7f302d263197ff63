-- ===== src/Sending.antt =====
-- flud/protocol/ClientDHTPrimitives.py: the requests of the DHT client, `_send_k_find_node`,
-- `_send_k_find_value` and `_send_k_store`, and the retries after a timeout. What the host answers is
-- an argument: `reply n` is what attempt `n`, counted from 0, comes to.
pub mod Retries
pub mod Safe
mod Tests
use flud.Prelude.{
  ℕ, zero, suc, ◌+◌, ◌-◌, Bool, true, false, not, Option, none, some, List, [], ◌∷◌, Result, ok,
  raise, socket_error, runtime_error, ◌>>=◌, String, leb, ◌==◌, if◌then◌else◌, Exc, recursion_error,
}
use flud.Routing.Node.{Node}
use flud.Peers.{Peers, Outcome, update_node, update_nodes}
use flud.Lookup.{Response, nodes, value, nothing}

-- `MAXTIMEOUTS`, `HTTPStatus.OK`
abbrev pub max_timeouts : ℕ
max_timeouts = 5

abbrev pub status_ok : ℕ
status_ok = 200

-- What the code reads of a response. `is_data` says whether its `Content-Type` is
-- `application/x-flud-data`, and `node_id` is its `nodeID` header.
pub record Reply : Type 0 where
  pub status : ℕ
  pub body : List ℕ
  pub is_data : Bool
  pub node_id : Option ℕ

-- What an attempt comes to: a response, an exception that the loop catches, or another one.
pub data Attempt : Type 0 where
  replied : Reply → Attempt
  timed_out : Attempt
  broken : Exc → Attempt

-- What the body of the loop, after the response, leaves and returns or raises.
abbrev pub Sent {ℓ} : Type ℓ → Type ℓ
Sent A = Peers × Result A

abbrev pub next_step {ℓ κ} :
    {A : Type ℓ} {B : Type κ} → Peers × Result A → (Peers → A → Peers × Result B) → Peers × Result B
next_step (p, raise e) next = (p, raise e)
next_step (p, ok a) next = next p a

module _ {ℓ} {A : Type ℓ} (handle : Peers → Reply → Sent A) (reply : ℕ → Attempt) where
  -- The `while True` of the three, after `timeouts` of them, with fuel for the attempts.
  unfoldable pub send_loop : ℕ → ℕ → Peers → Sent A
  send_loop zero timeouts p = (p, raise recursion_error)
  send_loop (suc f) timeouts p =
      let again = send_loop f (suc timeouts) p in
      elim (reply timeouts) [
        | replied r ↦ handle p r
        | broken e ↦ (p, raise e)
        | timed_out ↦ if leb max_timeouts (suc timeouts) then (p, raise socket_error) else again
      ]

  -- Each round but the last adds a timeout.
  unfoldable pub send : Peers → Sent A
  unfolding send_loop
  send = send_loop max_timeouts 0

-- A dict as `eval` makes it of a body: `id` and `k`.
pub record Dictionary : Type 0 where
  pub responder : ℕ
  pub known : List Node

module _ (id_of : ℕ → ℕ) (read : List ℕ → Result Dictionary) (host : String) (port : ℕ) where
  -- `updateNode` with the id of the response, and `updateNodes` with its nodes
  unfoldable pub learn : Peers → Dictionary → Sent Response
  learn p d = next_step (update_node id_of p host port none (some d.responder)) (λ q u.
      next_step (update_nodes id_of q d.known) (λ q' v. (q', ok (nodes d.responder d.known))))

  unfoldable pub read_dictionary : Peers → List ℕ → Sent Response
  unfolding learn
  read_dictionary p body = next_step (p, read body) (λ q d. learn q d)

  unfoldable pub find_node_reply : Peers → Reply → Sent Response
  unfolding read_dictionary
  find_node_reply p r =
      if not (r.status == status_ok) then (p, raise runtime_error) else read_dictionary p r.body

  unfoldable pub find_value_reply : Peers → Reply → Sent Response
  unfolding read_dictionary
  find_value_reply p r =
      let taken =
        next_step (update_node id_of p host port none r.node_id) (λ q u. (q, ok (value r.body))) in
      if not (r.status == status_ok)
      then (p, raise runtime_error)
      else (if r.is_data then taken else read_dictionary p r.body)

  unfoldable pub send_k_find_node : (ℕ → Attempt) → Peers → Sent Response
  unfolding send find_node_reply
  send_k_find_node reply p = send find_node_reply reply p

  unfoldable pub send_k_find_value : (ℕ → Attempt) → Peers → Sent Response
  unfolding send find_value_reply
  send_k_find_value reply p = send find_value_reply reply p

unfoldable pub store_reply : Peers → Reply → Sent (List ℕ)
store_reply p r = if not (r.status == status_ok) then (p, raise runtime_error) else (p, ok r.body)

unfoldable pub send_k_store : (ℕ → Attempt) → Peers → Sent (List ℕ)
unfolding send store_reply
send_k_store reply p = send store_reply reply p
