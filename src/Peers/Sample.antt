-- ===== src/Peers/Sample.antt =====
-- flud/protocol/FludCommUtil.py: a small configuration for the tests of the parts that learn of nodes.
use flud.Prelude.{
  ℕ, suc, ◌<◌, ◌≤◌, ◌%◌, ◌^◌, ◌≡◌, refl, sym, ap, ◌∙◌, arith, Bool-cases, inl, inr, nat_eq, ◌==◌,
  some, [], ◌∷◌, get,
}
use flud.Routing.Node.{Node}
use flud.Routing.NodeCache.{new_cache}
use flud.Routing.NodeCache.Fifo.{new_cache-Holds}
use flud.Routing.NodeLists.{lookup_id}
use flud.Routing.Bucket.{Bucket}
use flud.Routing.Bucket
use flud.Routing.Table.{Table, idspace, all_contents}
use flud.Routing.Table.Contents.{stored}
use flud.Routing.Table.Insert.{IsValid}
use flud.Config.{Config}
use flud.Peers.{Peers}
use flud.Peers.Trust.{Trusted}

-- The id of a key: its last byte.
abbrev pub id_of : ℕ → ℕ
id_of ku = ku % 256

abbrev pub me : Node
me = record { host = "10.0.0.1"; port = 8080; id = 17; ku = 17 }

abbrev bucket : Bucket
bucket = record { k = 3; begin = 0; end = 256; contents = me ∷ [] }

abbrev table : Table
table = record { k = 3; replacement_cache = new_cache 300; buckets = bucket ∷ []; node = some me }

abbrev pub config : Config
config = record { nodes = []; reputations = []; throttled = []; routing = table }

abbrev pub peers : Peers
peers = record { config = config; group = 1; pending = []; requests = [] }

bucket-IsValid : Bucket.Valid.IsValid bucket
bucket-IsValid = record { fits = omega arith; distinct = ground arith; in_range = ground arith }

table-IsValid : IsValid 257 table
table-IsValid = record {
  chain = (refl, omega arith, refl);
  sound = (record { valid = bucket-IsValid; depth = refl }, tt);
  cached = [];
  cache = new_cache-Holds 300;
  deep = omega arith;
}

stored_own : (i : ℕ) (n : Node) → stored table.buckets i ≡ some n → id_of n.ku ≡ i
unfolding stored all_contents lookup_id
stored_own i n e = elim (Bool-cases (17 == i)) [
  | inl same ↦
      let it : me ≡ n = ground (arith, same, e) in
      ap (λ x. id_of x.ku) (sym it) ∙ ground (arith, same)
  | inr other ↦ absurd (ground (arith, other, e))
]

pub config-Trusted : Trusted id_of 257 config
unfolding get
config-Trusted = record {
  valid = table-IsValid;
  me = me;
  local = refl;
  known_own = λ i k e. absurd cc;
  stored_own = stored_own;
}

pub small : 257 ≤ suc (2 ^ idspace)
small = omega arith

pub in_space : (ku : ℕ) → id_of ku < 257
in_space ku = omega arith
