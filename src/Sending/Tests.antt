-- ===== src/Sending/Tests.antt =====
-- flud/protocol/ClientDHTPrimitives.py: the retries of concrete requests.
use flud.Prelude.{
  ℕ, ◌<◌, ◌≡◌, ◌⊎◌, true, ok, raise, socket_error, none, List, [], ◌∷◌, Result, zero, suc, false,
}
use flud.Peers.Sample.{id_of, peers, me, config-Trusted, small, in_space}
use flud.Peers.Trust.{Trusted}
use flud.Sending.{
  Attempt, replied, timed_out, send, Dictionary, max_timeouts, store_reply, send_k_find_node,
  send_k_find_value, send_k_store,
}
use flud.Sending.Retries.{is_timeout, outcome, Decides, send-first}
use flud.Sending.Safe.{send_k-Trusted}

-- Two timeouts, then a response.
abbrev attempts : ℕ → Attempt
attempts zero = timed_out
attempts (suc zero) = timed_out
attempts (suc (suc n)) =
    replied (record { status = 200; body = b'x' ∷ []; is_data = false; node_id = none })

send-first_example :
    (((m : ℕ) → m < max_timeouts → is_timeout (attempts m) ≡ true)
      × (send store_reply attempts peers ≡ (peers, raise socket_error)))
    ⊎ ((n : ℕ) × Decides store_reply attempts 0 n
        × (send store_reply attempts peers ≡ outcome store_reply attempts peers (attempts n)))
send-first_example = send-first store_reply attempts peers

abbrev read : List ℕ → Result Dictionary
read body = ok (record { responder = 16; known = me ∷ [] })

send_k-Trusted_example :
    Trusted id_of 257 (send_k_find_node id_of read "10.0.0.2" 9090 attempts peers).0.config
    × Trusted id_of 257 (send_k_find_value id_of read "10.0.0.2" 9090 attempts peers).0.config
    × ((send_k_store attempts peers).0 ≡ peers)
send_k-Trusted_example =
    send_k-Trusted id_of 257 small in_space read "10.0.0.2" 9090 attempts peers config-Trusted
