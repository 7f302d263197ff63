-- ===== src/Config.antt =====
-- flud/FludConfig.py: the reputations of nodes, their throttling, the choice of nodes by reputation,
-- and the manifest. A node id is the number that `int(nodeID, 16)` gives for a string.
pub mod Laws
pub mod Manifest
pub mod Nodes
mod Tests
use flud.Prelude.{
  ℕ, suc, ◌+◌, ◌-◌, ◌*◌, Bool, true, false, ◌&&◌, ◌||◌, not, Option, none, some, List, [], ◌∷◌,
  ◌++◌, Result, ok, raise, String, runtime_error, Dict, get, has, put, remove, elem, nat_eq, ltb,
  leb, ◌==◌, length, take, ◌>>=◌, if◌then◌else◌,
}
use flud.Prelude.Int.{ℤ, pos, negsuc, ◌+ℤ◌, ◌-ℤ◌, ◌*ℤ◌, ltb_ℤ}
use flud.Fencode.Values.{Value, Entries, none_value, str_value, dict_value, end}
use flud.Fencode.Encode.{fencode}
use flud.Fencode.Decode.{fdecode, depth, put_entry}
use flud.BlockFile.Accounting.{get_entry, remove_entry}
use flud.Routing.Node.{Node}
use flud.Routing.Table.{Table}
use flud.Routing.Table
use flud.Routing.NodeCache

-- The classes of `TrustDeltas`, with `value`
pub data Reason : Type 0 where
  put_succeed get_succeed vrfy_succeed fndn_fail put_fail get_fail vrfy_fail : Reason

unfoldable pub value : Reason → ℤ
value put_succeed = pos 2
value get_succeed = pos 4
value vrfy_succeed = pos 4
value fndn_fail = negsuc 0
value put_fail = negsuc 1
value get_fail = negsuc 9
value vrfy_fail = negsuc 9

abbrev pub initial_score : ℤ
initial_score = pos 1

-- The end of a node's pause is kept in fifths of a second: a unit of reputation is 345.6 seconds,
-- `24 * 60 * 60 / 250`.
pub record Known : Type 0 where
  pub host : String
  pub port : ℕ
  pub ku : ℕ
  pub group : ℕ

pub record Config : Type 0 where
  pub nodes : Dict ℕ Known
  pub reputations : Dict ℕ ℤ
  pub throttled : Dict ℕ ℤ
  pub routing : Table

abbrev pub fifths : ℕ → ℤ
fifths seconds = pos (5 * seconds)

-- `clock` is `int(time.time())`.
unfoldable pub throttle_node : ℕ → Config → ℕ → Reason → ℕ → Config
unfolding value
throttle_node clock c node_id reason curtime =
    let start = if curtime == 0 then clock else curtime in
    record c { throttled = put node_id (fifths start -ℤ value reason *ℤ pos 1728) c.throttled }

abbrev pub or_initial : Option ℤ → ℤ
or_initial none = initial_score
or_initial (some score) = score

-- Whether the pause of the node is over. A node without a pause has none that is over.
abbrev pub over : Option ℤ → ℕ → Bool
over none curtime = false
over (some pause) curtime = ltb_ℤ pause (fifths curtime)

unfoldable pub modify_reputation : ℕ → Config → ℕ → Reason → Config
unfolding throttle_node value
modify_reputation curtime c node_id reason =
    let score = or_initial (get node_id c.reputations) +ℤ value reason in
    let c' : Config = record c { reputations = put node_id score c.reputations } in
    if ltb_ℤ (value reason) (pos 0)
    then throttle_node curtime c' node_id reason curtime
    else (if over (get node_id c.throttled) curtime
        then record c' { throttled = remove node_id c.throttled }
        else c')

-- The loop over `self.throttled`: Python stops it when an entry was taken out.
unfoldable pub any_over : ℕ → Dict ℕ ℤ → Bool
any_over now [] = false
any_over now ((t, pause) ∷ rest) = ltb_ℤ pause (fifths now) || any_over now rest

unfoldable pub expire : ℕ → Config → Result (Dict ℕ ℤ)
unfolding any_over
expire now c = if any_over now c.throttled then raise runtime_error else ok c.throttled

-- `[(v,k) for (k,v) in items if …]` with a test on the id
unfoldable pub choose : (ℕ → Bool) → Dict ℕ ℤ → List (ℤ × ℕ)
choose test [] = []
choose test ((k, v) ∷ items) =
    let rest = choose test items in if test k then (v, k) ∷ rest else rest

-- `num` is `none` for `None`, and for 0, which the code takes for it.
unfoldable pub topped_up : Option ℕ → ℕ → List (ℤ × ℕ) → List (ℤ × ℕ) → List (ℤ × ℕ)
topped_up none numitems items exitems = items
topped_up (some num) numitems items exitems =
    if ltb (length items) num && leb num numitems
    then items ++ take (num - length items) exitems
    else items

-- Where a pair goes in descending order, by score and then by id: no id is there twice.
unfoldable pub ahead : ℤ × ℕ → ℤ × ℕ → Bool
ahead (v, k) (w, j) = ltb_ℤ w v || (not (ltb_ℤ v w) && leb j k)

unfoldable pub place : ℤ × ℕ → List (ℤ × ℕ) → List (ℤ × ℕ)
unfolding ahead
place x [] = x ∷ []
place x (y ∷ ys) = if ahead x y then x ∷ y ∷ ys else y ∷ place x ys

-- `items.sort()` and `items.reverse()`
unfoldable pub descending : List (ℤ × ℕ) → List (ℤ × ℕ)
unfolding place
descending [] = []
descending (x ∷ xs) = place x (descending xs)

unfoldable pub candidates : Config → Option ℕ → List ℕ → Dict ℕ ℤ → List (ℤ × ℕ)
unfolding choose topped_up
candidates c num [] pauses = choose (λ k. not (has k pauses)) c.reputations
candidates c num (x ∷ exclude) pauses =
    topped_up num (length c.reputations)
      (choose (λ k. not (has k pauses) && not (elem k (x ∷ exclude))) c.reputations)
      (choose (λ k. not (has k pauses) && elem k (x ∷ exclude)) c.reputations)

abbrev pub first_of : Option ℕ → List (ℤ × ℕ) → List (ℤ × ℕ)
first_of none items = items
first_of (some num) items = take num items

unfoldable pub get_nodes : Table → List (ℤ × ℕ) → Result (List (Option Node))
get_nodes t [] = ok []
get_nodes t ((v, k) ∷ items) = do n ← Table.get_node t k; ns ← get_nodes t items; ok (n ∷ ns)

-- Without `throttle` no node counts as throttled.
unfoldable pub get_preferred_nodes :
    ℕ → Config → Option ℕ → List ℕ → Bool → Result (List (Option Node))
unfolding expire descending candidates get_nodes
get_preferred_nodes now c num exclude throttle = do
  pauses ← if throttle then expire now c else ok []
  get_nodes c.routing (first_of num (descending (candidates c num exclude pauses)))

-- `n != None`
abbrev pub is_some {ℓ} : {A : Type ℓ} → Option A → Bool
is_some none = false
is_some (some a) = true

-- The insertion of `addNode` into the routing table: a node for which another is to be pinged goes to
-- the replacement cache.
unfoldable pub insert_or_cache : Table → Node → Result Table
insert_or_cache t n = do
  (t', oldest) ← Table.insert_node t n
  if is_some oldest
      then (do
        (cache, popped) ← NodeCache.insert_node t'.replacement_cache n
        ok (record t' { replacement_cache = cache }))
      else ok t'

-- `addNode`, where `group` is `mygroup`, or `groupIDu` where that is `None`. What it has changed stays
-- changed if the routing table raises.
unfoldable pub add_node : Config → ℕ → String → ℕ → ℕ → ℕ → Config × Result (Unit {0})
unfolding insert_or_cache
add_node c node_id host port ku group =
    let known : Known = record { host = host; port = port; ku = ku; group = group } in
    let c1 : Config = record c { nodes = put node_id known c.nodes } in
    let n : Node = record { host = host; port = port; id = node_id; ku = ku } in
    if has node_id c.nodes then (c, ok tt) else elim (insert_or_cache c.routing n) [
      | raise e ↦ (c1, raise e)
      | ok t ↦
          (record c1 { routing = t; reputations = put node_id initial_score c1.reputations }, ok tt)
    ]

-- `updateManifest`, `getFromManifest` and `deleteFromManifest` on the dict of the manifest
unfoldable pub update_manifest : List ℕ → Value → Entries → Entries
unfolding put_entry
update_manifest fname val manifest = put_entry (str_value fname) val manifest

unfoldable pub get_from_manifest : List ℕ → Entries → Value
unfolding get_entry
get_from_manifest fname manifest = elim (get_entry (str_value fname) manifest) [
  | none ↦ none_value
  | some val ↦ val
]

unfoldable pub delete_from_manifest : List ℕ → Entries → Entries
unfolding remove_entry
delete_from_manifest fname manifest = remove_entry (str_value fname) manifest

-- The manifest's file: `syncManifest` writes a text, and `loadManifest` reads it.
unfoldable pub sync_manifest : Value → Result (List ℕ)
sync_manifest manifest = fencode false manifest

unfoldable pub load_manifest : List ℕ → Result Value
load_manifest [] = ok (dict_value end)
load_manifest (c ∷ text) = fdecode (depth 1) (str_value (c ∷ text))
