-- ===== src/Client/Files.antt =====
-- flud/protocol/ClientPrimitives.py: the requests for an id and for files, `_send_get_id`,
-- `_send_store_request`, `_send_retrieve`, `_send_delete` and `_send_verify`, from a host whose
-- address is canonical. The URL and the form are part of what `ask` and `reply` stand for.
use flud.Prelude.{
  ℕ, not, Option, none, some, List, raise, runtime_error, String, ◌==◌, if◌then◌else◌,
}
use flud.Peers.{Peers}
use flud.Sending.{Sent, Reply, Attempt, send, status_ok}
use flud.Client.Challenge.{Answerer, answer_challenge}
use flud.Client.Requests.{
  Page, Try, request, after_request, learn_host, finish_store, finish_body, finish_retrieve,
}

-- `import_key` is `importPublicKey` of what `eval` makes of a body, where neither raises.
module _ (id_of : ℕ → ℕ) (import_key : List ℕ → Option ℕ) (host : String) (port : ℕ) where
  unfoldable pub get_id_reply : Peers → Reply → Sent ℕ
  unfolding learn_host
  get_id_reply p r =
      if not (r.status == status_ok) then (p, raise runtime_error) else elim (import_key r.body) [
        | none ↦ (p, raise runtime_error)
        | some ku ↦ learn_host id_of host port ku p ku
      ]

  unfoldable pub send_get_id : (ℕ → Attempt) → Peers → Sent ℕ
  unfolding send get_id_reply
  send_get_id reply p = send get_id_reply reply p

-- The client answers with `me`. `id_bytes` is `unhexlify` of a key's `id`, and `decode` is `decode`
-- with `errors="ignore"`. The host has the key `ku`.
module _ (id_of : ℕ → ℕ) (me : Answerer) (id_bytes : ℕ → List ℕ) (decode : List ℕ → List ℕ)
    (host : String) (port ku : ℕ) (ask : ℕ → ℕ → Option (List ℕ) → Try) (p : Peers) where
  unfoldable pub send_store_request : Sent (List ℕ)
  unfolding request answer_challenge finish_store
  send_store_request =
      after_request (finish_store id_of host port ku) p
        (request decode (answer_challenge me (id_bytes ku)) ask)

  unfoldable pub send_retrieve {ℓ} : {A : Type ℓ} → (Page → A) → Sent A
  unfolding request answer_challenge finish_retrieve
  send_retrieve save =
      after_request (finish_retrieve id_of host port ku save) p
        (request decode (answer_challenge me (id_bytes ku)) ask)

  -- The body is a text already.
  unfoldable pub send_delete : Sent (List ℕ)
  unfolding request answer_challenge finish_body
  send_delete =
      after_request (finish_body id_of host port ku) p
        (request (λ text. text) (answer_challenge me (id_bytes ku)) ask)

  unfoldable pub send_verify : Sent (List ℕ)
  unfolding request answer_challenge finish_body
  send_verify =
      after_request (finish_body id_of host port ku) p
        (request (λ text. text) (answer_challenge me (id_bytes ku)) ask)
