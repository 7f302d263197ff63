-- ===== src/Config/Tests.antt =====
-- flud/FludConfig.py: a concrete configuration, and the theorems on it.
use flud.Routing.Node.{Node}
use flud.Config.Nodes.{add_node-Added, Added}
use flud.Prelude.{
  ℕ, ◌≡◌, refl, ok, raise, runtime_error, none, List, [], ◌∷◌, arith, nat_eq, true, has, ◌⊎◌, false,
}
use flud.Prelude.Int.{ℤ, pos, negsuc}
use flud.Routing.NodeCache.{new_cache}
use flud.Peers.Sample
use flud.Config.{Config, get_preferred_nodes, add_node}

abbrev config : Config
config = record {
  nodes = [];
  reputations = (5, pos 3) ∷ (9, pos 8) ∷ [];
  throttled = (9, pos 20) ∷ [];
  routing = record { k = 3; replacement_cache = new_cache 300; buckets = []; node = none };
}

-- A pause that is over stops the choice of nodes.
pause_over : get_preferred_nodes 100 config none [] true ≡ raise runtime_error
unfolding get_preferred_nodes
pause_over = refl

abbrev scores : List (ℤ × ℕ)
scores = (negsuc 2, 5) ∷ (pos 8, 9) ∷ (pos 1, 4) ∷ []

abbrev newcomer : Node
newcomer = record { host = "10.0.0.2"; port = 9090; id = 16; ku = 1040 }

add_node-Added_example :
    (c' : Config) × (add_node Sample.config 16 "10.0.0.2" 9090 1040 1 ≡ (c', ok tt))
    × (((has 16 Sample.config.nodes ≡ true) × (c' ≡ Sample.config))
        ⊎ ((has 16 Sample.config.nodes ≡ false) × Added 257 Sample.config newcomer 1 c'))
add_node-Added_example =
    add_node-Added 257 Sample.config newcomer Sample.me 1 Sample.config-Trusted.valid refl
      (omega arith) Sample.small
