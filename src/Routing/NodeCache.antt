-- ===== src/Routing/NodeCache.antt =====
-- flud/FludkRouting.py: `NodeCache`, the replacement cache of the routing table.
pub mod Fifo
use flud.Prelude.{
  ℕ, Result, ok, raise, key_error, value_error, Option, none, some, List, [], ◌∷◌, ◌++◌, Dict, get,
  has, put, remove, nat_eq, ltb, length, nth, pop_at, erase, if◌then◌else◌, ◌>>=◌, map,
}
use flud.Routing.Node.{Node}

pub record NodeCache : Type 0 where
  pub size : ℕ
  pub cache : Dict ℕ Node
  pub cache_order : List ℕ

unfoldable pub new_cache : ℕ → NodeCache
new_cache size = record { size = size; cache = []; cache_order = [] }

-- `self.cache.pop(i)`, which raises on a missing key
unfoldable pub dict_pop : ℕ → Dict ℕ Node → Result (Dict ℕ Node)
dict_pop i d = if has i d then ok (remove i d) else raise key_error

-- The body of the `if len(self.cacheOrder) > self.size`: what is returned is the id.
unfoldable pub evict : NodeCache → Result (NodeCache × Option ℕ)
evict c = do
  popped ← nth c.cache_order 0
  order ← pop_at c.cache_order 0
  cache ← dict_pop popped c.cache
  ok (record c { cache = cache; cache_order = order }, some popped)

unfoldable pub insert_node : NodeCache → Node → Result (NodeCache × Option ℕ)
insert_node c node =
    if has node.id c.cache
    then ok (c, none)
    else (let c' = record c {
      cache = put node.id node c.cache;
      cache_order = c.cache_order ++ (node.id ∷ []);
    } in
        if ltb c'.size (length c'.cache_order) then evict c' else ok (c', none))

unfoldable pub get_node : NodeCache → ℕ → Option Node
get_node c node_id = get node_id c.cache

-- `try: … except ValueError: pass`
unfoldable pub quiet_erase : ℕ → List ℕ → Result (List ℕ)
quiet_erase i order = elim (erase i order) [
  | ok rest ↦ ok rest
  | raise value_error ↦ ok order
  | raise e ↦ raise e
]

unfoldable pub remove_node : NodeCache → Node → Result NodeCache
remove_node c node =
    if has node.id c.cache
    then (do
      cache ← dict_pop node.id c.cache
      order ← quiet_erase node.id c.cache_order
      ok (record c { cache = cache; cache_order = order }))
    else ok c

unfoldable pub nodes : NodeCache → List Node
nodes c = map (λ e. e.1) c.cache
