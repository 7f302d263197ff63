-- ===== src/Peers/Tests.antt =====
-- flud/protocol/FludCommUtil.py: the theorems on a small configuration.
use flud.Prelude.{◌≡◌, refl, ok, raise, value_error, socket_error, some, none, get}
use flud.Peers.{Peers, Request, update_node, handle_get_id}
use flud.Peers.Sample.{id_of, peers, config-Trusted, small, in_space}
use flud.Peers.Trust.{Trusted, update_node-Trusted}
use flud.Peers.Imposter.{update_node-imposter}
use flud.Peers.Once.{update_node-once}

update_node-Trusted_example :
    Trusted id_of 257 (update_node id_of peers "10.0.0.2" 9090 (some 1040) (some 16)).0.config
update_node-Trusted_example =
    update_node-Trusted id_of 257 small in_space peers "10.0.0.2" 9090 (some 1040) (some 16)
      config-Trusted

update_node-imposter_example :
    (update_node id_of peers "10.0.0.2" 9090 (some 1040) (some 17)).1 ≡ raise value_error
update_node-imposter_example =
    update_node-imposter id_of 257 small in_space peers "10.0.0.2" 9090 (some 1040) (some 17)
      config-Trusted

abbrev asked : Peers
asked = (update_node id_of peers "10.0.0.2" 9090 none (some 16)).0

abbrev request : Request
request = record { host = "10.0.0.2"; port = 9090; expected = some 16 }

update_node-once_example :
    update_node id_of
      (handle_get_id id_of asked request (raise socket_error)).0
      "10.0.0.3"
      9091
      none
      (some 16)
    ≡ (asked, ok tt)
unfolding get
update_node-once_example =
    update_node-once id_of peers "10.0.0.2" "10.0.0.3" 9090 9091 16 socket_error refl
