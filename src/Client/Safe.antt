-- ===== src/Client/Safe.antt =====
-- flud/protocol/ClientPrimitives.py: what the requests for an id and for files can do to the
-- configuration.
use flud.Prelude.{
  ℕ, ◌<◌, ◌≤◌, ◌^◌, suc, inl, inr, Bool-cases, List, none, some, Option, Result, ok, raise, ◌==◌,
  String, Option-cases,
}
use flud.Routing.Table.{idspace}
use flud.Peers.{Peers}
use flud.Peers.Trust.{Trusted, update_node-Trusted}
use flud.Sending.{Sent, Reply, Attempt, status_ok}
use flud.Sending.Safe.{Safe, stepped, send-Safe}
use flud.Client.Challenge.{Answerer, answer_challenge}
use flud.Client.Requests.{
  Page, Try, Log, after_request, greeting, learn_host, finish_store, finish_body, finish_retrieve,
  refused_page, request,
}
use flud.Client.Files.{
  get_id_reply, send_get_id, send_store_request, send_retrieve, send_delete, send_verify,
}

module _ (id_of : ℕ → ℕ) (stop : ℕ) (small : stop ≤ suc (2 ^ idspace))
    (in_space : (ku : ℕ) → id_of ku < stop) (host : String) (port : ℕ) where
  learn_host-Safe :
      {A : Type 0} (ku : ℕ) (p : Peers) (a : A)
      → Trusted id_of stop p.config
      → Safe id_of stop small in_space (learn_host id_of host port ku p a)
  unfolding learn_host
  learn_host-Safe ku p a t =
      stepped id_of stop small in_space (greeting id_of p host port ku) _
        (update_node-Trusted id_of stop small in_space p host port (some ku) none t) (λ q u t'. t')

  get_id_reply-Safe :
      (import_key : List ℕ → Option ℕ) (p : Peers) (r : Reply)
      → Trusted id_of stop p.config
      → Safe id_of stop small in_space (get_id_reply id_of import_key host port p r)
  unfolding get_id_reply
  get_id_reply-Safe import_key p r t = elim (Bool-cases (r.status == status_ok)) [
    | inr bad ↦ rw bad t
    | inl fine ↦ elim (Option-cases (import_key r.body)) [
      | inl nothing ↦ rw (fine, nothing) t
      | inr (ku, there) ↦ rw (fine, there) (learn_host-Safe ku p ku t)
    ]
  ]

  after_request-Safe :
      {A : Type 0} (finish : Peers → Page → Sent A) (p : Peers) (made : Log × Result Page)
      → ((r : Page) → Safe id_of stop small in_space (finish p r))
      → Trusted id_of stop p.config
      → Safe id_of stop small in_space (after_request finish p made)
  after_request-Safe finish p (log, raise e) h t = t
  after_request-Safe finish p (log, ok r) h t = h r

  finish_store-Safe :
      (ku : ℕ) (p : Peers) (r : Page)
      → Trusted id_of stop p.config
      → Safe id_of stop small in_space (finish_store id_of host port ku p r)
  unfolding finish_store
  finish_store-Safe ku p r t = elim (Bool-cases (r.status == 409)) [
    | inl conflict ↦ rw conflict t
    | inr other ↦ elim (Bool-cases (r.status == status_ok)) [
      | inl fine ↦ rw (other, fine) (learn_host-Safe ku p r.body t)
      | inr bad ↦ rw (other, bad) t
    ]
  ]

  finish_body-Safe :
      (ku : ℕ) (p : Peers) (r : Page)
      → Trusted id_of stop p.config
      → Safe id_of stop small in_space (finish_body id_of host port ku p r)
  unfolding finish_body
  finish_body-Safe ku p r t = elim (Option-cases (refused_page r)) [
    | inl fine ↦ rw (finish_body, fine) (learn_host-Safe ku p r.body t)
    | inr (e, bad) ↦ rw (finish_body, bad) t
  ]

  finish_retrieve-Safe :
      {A : Type 0} (ku : ℕ) (save : Page → A) (p : Peers) (r : Page)
      → Trusted id_of stop p.config
      → Safe id_of stop small in_space (finish_retrieve id_of host port ku save p r)
  unfolding finish_retrieve
  finish_retrieve-Safe ku save p r t = elim (Option-cases (refused_page r)) [
    | inl fine ↦ rw (finish_retrieve, fine) (learn_host-Safe ku p (save r) t)
    | inr (e, bad) ↦ rw (finish_retrieve, bad) t
  ]

  module _ (p : Peers) (trusted : Trusted id_of stop p.config) where
    -- The requests for an id and to store, retrieve, delete and verify a file, from a configuration
    -- whose table is valid and in which every key stands under its own id, where every id is in the
    -- id space, for every behaviour of the network and everything that is made of its bodies: the
    -- configuration is such a one afterwards.
    pub requests-Trusted :
        {A : Type 0} (me : Answerer) (id_bytes : ℕ → List ℕ) (decode : List ℕ → List ℕ)
        (import_key : List ℕ → Option ℕ) (save : Page → A) (ku : ℕ) (reply : ℕ → Attempt)
        (ask : ℕ → ℕ → Option (List ℕ) → Try)
        → Trusted id_of stop (send_get_id id_of import_key host port reply p).0.config
          × Trusted id_of stop
              (send_store_request id_of me id_bytes decode host port ku ask p).0.config
          × Trusted id_of stop
              (send_retrieve id_of me id_bytes decode host port ku ask p save).0.config
          × Trusted id_of stop (send_delete id_of me id_bytes decode host port ku ask p).0.config
          × Trusted id_of stop (send_verify id_of me id_bytes decode host port ku ask p).0.config
    unfolding send_get_id send_store_request send_retrieve send_delete send_verify
    requests-Trusted me id_bytes decode import_key save ku reply ask =
        let answer = answer_challenge me (id_bytes ku) in
        let made = request decode answer ask in
        let plain_made = request (λ text. text) answer ask in
        (
          send-Safe id_of stop small in_space (get_id_reply id_of import_key host port) reply p
              (λ r. get_id_reply-Safe import_key p r trusted) trusted,
          after_request-Safe (finish_store id_of host port ku) p made
              (λ r. finish_store-Safe ku p r trusted) trusted,
          after_request-Safe (finish_retrieve id_of host port ku save) p made
              (λ r. finish_retrieve-Safe ku save p r trusted) trusted,
          after_request-Safe (finish_body id_of host port ku) p plain_made
              (λ r. finish_body-Safe ku p r trusted) trusted,
          after_request-Safe (finish_body id_of host port ku) p plain_made
              (λ r. finish_body-Safe ku p r trusted) trusted,
        )
