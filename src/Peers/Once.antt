-- ===== src/Peers/Once.antt =====
-- flud/protocol/FludCommUtil.py: a node after a GETID that failed.
use flud.Prelude.{
  ℕ, ◌≡◌, refl, raise, none, some, get, String, Bool-cases, inl, inr, true, nat_eq, elem, ok, Exc,
  arith,
}
use flud.Peers.{Peers, update_node, update_by_id, handle_get_id, Request}

silent :
    (id_of : ℕ → ℕ) (q : Peers) (host : String) (port i : ℕ)
    → get i q.config.nodes ≡ none
    → elem i q.pending ≡ true
    → update_by_id id_of q host port i ≡ (q, ok tt)
unfolding update_by_id
silent id_of q host port i unknown asked = rw (update_by_id, unknown, asked) refl

Asked : ℕ → Peers → Type 0
Asked i q = (get i q.config.nodes ≡ none) × (elem i q.pending ≡ true)

update_by_id-Asked :
    (id_of : ℕ → ℕ) (p : Peers) (host : String) (port i : ℕ)
    → get i p.config.nodes ≡ none
    → Asked i (update_by_id id_of p host port i).0
unfolding update_by_id elem Asked
update_by_id-Asked id_of p host port i unknown = elim (Bool-cases (elem i p.pending)) [
  | inl asked ↦ rw (update_by_id, unknown, asked) (unknown, asked)
  | inr fresh ↦ rw (update_by_id, unknown, fresh) (unknown, ground arith)
]

-- `updateNode` by the id of an unknown node, then a GETID for it that fails, then `updateNode` by
-- that id again, from any host: the last call changes nothing and sends nothing.
pub update_node-once :
    (id_of : ℕ → ℕ) (p : Peers) (host again : String) (port again_port i : ℕ) (e : Exc)
    → get i p.config.nodes ≡ none
    → (let q = (update_node id_of p host port none (some i)).0 in
        let r : Request = record { host = host; port = port; expected = some i } in
        update_node id_of (handle_get_id id_of q r (raise e)).0 again again_port none (some i)
        ≡ (q, ok tt))
unfolding update_node handle_get_id Asked
update_node-once id_of p host again port again_port i e unknown =
    let left = update_by_id-Asked id_of p host port i unknown in
    silent id_of (update_by_id id_of p host port i).0 again again_port i left.0 left.1
