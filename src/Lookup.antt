-- ===== src/Lookup.antt =====
-- flud/protocol/ClientDHTPrimitives.py: what the iterative lookups of the DHT share. What the nodes answer is an argument: `ask r c` is what the request
-- to the contact `c` in round `r` comes to, an answer or an exception.
pub mod FindNode
pub mod FindValue
pub mod Store
pub mod Fields
pub mod Open
pub mod Ends
pub mod Answer
pub mod Total
pub mod ValueEnds
pub mod ValueTotal
pub mod Values
pub mod Storing
mod Tests
use Prim.Native.Nat.{bit_xor}
use text.Mathlib.Text.{◌==◌ as str_eq}
use flud.Prelude.{
  ℕ, zero, suc, ◌+◌, Bool, true, false, ◌&&◌, ◌||◌, not, ◌≡◌, ◌↔◌, String, Eq, eq_iff, arith,
  Option, none, some, List, [], ◌∷◌, ◌++◌, Result, ok, raise, recursion_error, runtime_error,
  type_error, Dict, get, has, put, elem, nat_eq, ltb, ◌==◌, take, drop, map, ◌>>=◌, if◌then◌else◌,
}
use flud.Prelude.Sorting.{sort_by}
use flud.Routing.Node.{Node, node_eq, same_node}
use flud.Routing.Table.{distance}
use flud.Fencode.Values.{same_text, same_text_iff}

-- `FludkRouting.k` and `FludkRouting.a`
abbrev pub k : ℕ
k = 12

abbrev pub alpha : ℕ
alpha = 3

-- Whether a function's caller goes on with a state or returns a result.
pub data Turn {ℓ κ} (S : Type ℓ) (R : Type κ) : Type (ℓ ⊔ κ) where
  more : S → Turn S R
  stop : S → R → Turn S R

-- A tuple (host, port, id)
pub record Contact : Type 0 where
  pub host : String
  pub port : ℕ
  pub id : ℕ

unfoldable pub same_contact : Contact → Contact → Bool
same_contact a b = str_eq a.host b.host && (a.port == b.port && a.id == b.id)

pub same_contact_iff : (a b : Contact) → (same_contact a b ≡ true) ↔ (a ≡ b)
unfolding same_contact
same_contact_iff a b = ground (arith, eq_iff a.host b.host)

instance abbrev pub contact_eq : Eq Contact
contact_eq = record { beq = same_contact; beq_iff = same_contact_iff }

abbrev pub contact_of : Node → Contact
contact_of n = record { host = n.host; port = n.port; id = n.id }

abbrev pub contact_distance : ℕ → Contact → ℕ
contact_distance target c = bit_xor target c.id

-- What a request returns: a dict with `id` and `k`, a value, or `None`.
pub data Response : Type 0 where
  nodes : ℕ → List Node → Response
  value : List ℕ → Response
  nothing : Response

pub record Search : Type 0 where
  pub queried : Dict ℕ (String × ℕ)
  pub outstanding : List Contact
  pub pending : List Contact
  pub kclosest : List Node

abbrev pub start : Search
start = record { queried = []; outstanding = []; pending = []; kclosest = [] }

-- `outstanding.discard(c)` of a set
unfoldable pub without : Contact → List Contact → List Contact
unfolding same_contact
without c [] = []
without c (x ∷ xs) = let rest = without c xs in if same_contact x c then rest else x ∷ rest

-- The body of the loop over `response['k']`.
unfoldable pub consider : Search → Node → Search
unfolding same_node same_contact
consider s candidate =
    let c = contact_of candidate in
    let fresh =
      not (has c.id s.queried) && (not (elem c s.pending) && not (elem c s.outstanding)) in
    record s {
      pending = if fresh then s.pending ++ (c ∷ []) else s.pending;
      kclosest = if elem candidate s.kclosest then s.kclosest else s.kclosest ++ (candidate ∷ []);
    }

unfoldable pub consider_all : Search → List Node → Search
unfolding consider
consider_all s [] = s
consider_all s (n ∷ ns) = consider_all (consider s n) ns

-- Whether the loop over `queried` takes the contact out of `pending`.
unfoldable pub was_queried : Dict ℕ (String × ℕ) → Contact → Bool
was_queried queried c = elim (get c.id queried) [
  | none ↦ false
  | some (host, port) ↦ str_eq host c.host && port == c.port
]

-- `list(set(pending) - outstanding)` without the contacts that were queried. The order of a set is
-- Python's; it shows after the sort only between contacts of one id, and is the list's own here.
unfoldable pub unsettled : Search → List Contact → List Contact
unfolding was_queried same_contact without
unsettled s [] = []
unsettled s (c ∷ cs) =
    let rest = unsettled s cs in
    if elem c s.outstanding || was_queried s.queried c then rest else c ∷ without c rest

-- What `_update_state` does after the loop over the candidates.
unfoldable pub settle : ℕ → Search → Search
unfolding unsettled
settle key s = record s {
  kclosest = take k (sort_by (distance key) s.kclosest);
  pending = sort_by (contact_distance key) (unsettled s s.pending);
}

-- The state after a dict with `id` and `k` from a host and port.
unfoldable pub absorb : ℕ → String → ℕ → ℕ → List Node → Search → Search
unfolding consider_all settle
absorb key host port responder ns s =
    settle key (consider_all (record s { queried = put responder (host, port) s.queried }) ns)

-- A contact that failed leaves `kclosest`.
unfoldable pub drop_failed : Contact → List Node → List Node
unfolding same_contact
drop_failed c [] = []
drop_failed c (n ∷ ns) =
    let rest = drop_failed c ns in if same_contact (contact_of n) c then rest else n ∷ rest

-- Every request of a batch adds its contact to `outstanding`, and discards it when it is over.
unfoldable pub discard_all : List Contact → List Contact → List Contact
unfolding without
discard_all [] outstanding = outstanding
discard_all (c ∷ batch) outstanding = discard_all batch (without c outstanding)

unfoldable pub run_batch : List Contact → Search → Search
unfolding discard_all
run_batch batch s = record s { outstanding = discard_all batch (batch ++ s.outstanding) }
