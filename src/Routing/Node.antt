-- ===== src/Routing/Node.antt =====
-- flud/FludkRouting.py: the (ip, port, id, key) tuples that stand for nodes.
use text.Mathlib.Text.{◌==◌ as str_eq}
use flud.Prelude.{ℕ, String, Bool, true, ◌&&◌, ◌≡◌, ◌↔◌, Eq, ◌==◌, arith, eq_iff, List, map}

pub record Node : Type 0 where
  pub host : String
  pub port : ℕ
  pub id : ℕ
  pub ku : ℕ

-- `==` on tuples
unfoldable pub same_node : Node → Node → Bool
same_node a b = str_eq a.host b.host && (a.port == b.port && (a.id == b.id && a.ku == b.ku))

pub same_node_iff : (a b : Node) → (same_node a b ≡ true) ↔ (a ≡ b)
unfolding same_node
same_node_iff a b = ground (arith, eq_iff a.host b.host)

instance abbrev pub node_eq : Eq Node
node_eq = record { beq = same_node; beq_iff = same_node_iff }

-- `[x[2] for x in l]`
abbrev pub ids : List Node → List ℕ
ids = map (λ n. n.id)
