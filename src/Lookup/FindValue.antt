-- ===== src/Lookup/FindValue.antt =====
-- flud/protocol/ClientDHTPrimitives.py: `k_find_value`.
use flud.Prelude.{
  ℕ, zero, suc, ◌+◌, Bool, true, false, String, Option, none, some, List, [], ◌∷◌, Result, ok,
  raise, recursion_error, Dict, get, put, nat_eq, ltb, take, drop, ◌>>=◌, if◌then◌else◌,
}
use flud.Routing.Node.{node_eq}
use flud.Fencode.Values.{same_text}
use flud.Lookup.{
  alpha, Turn, Contact, Response, Search, start, absorb, drop_failed, run_batch, more, stop, nodes,
  value, nothing,
}
use flud.Fencode.Values.{text_eq}

-- `_update_state` of `k_find_value`, with `done` and the count of each value in `values`.
pub record ValueSearch : Type 0 where
  pub search : Search
  pub done : Bool
  pub values : Dict (List ℕ) ℕ

abbrev pub count_of : Option ℕ → ℕ
count_of none = 0
count_of (some n) = n

unfoldable pub remember_value : List ℕ → ValueSearch → ValueSearch
unfolding same_text
remember_value v s = record s { values = put v (count_of (get v s.values) + 1) s.values }

-- What `done = True` and the clearing of the contacts leave.
unfoldable pub finish : ValueSearch → ValueSearch
finish s = record s { search = record (s.search) { pending = []; outstanding = [] }; done = true }

unfoldable pub update_value_state :
    ℕ → Response → String → ℕ → ValueSearch → Turn ValueSearch (List ℕ)
unfolding absorb finish remember_value
update_value_state key (value v) host port s = stop (finish (remember_value v s)) v
update_value_state key nothing host port s = more (finish s)
update_value_state key (nodes responder ns) host port s =
    more (record s { search = absorb key host port responder ns s.search })

-- `max(values.items(), key=lambda item: item[1])[0]`, with the first of the greatest
unfoldable pub most_voted : Dict (List ℕ) ℕ → List ℕ → ℕ → List ℕ
most_voted [] best votes = best
most_voted ((v, n) ∷ rest) best votes =
    let keep = most_voted rest best votes in
    let change = most_voted rest v n in if ltb votes n then change else keep

unfoldable pub result_of : Dict (List ℕ) ℕ → Option (List ℕ)
unfolding most_voted
result_of [] = none
result_of ((v, n) ∷ rest) = some (most_voted rest v n)

unfoldable pub take_values :
    ℕ → (Contact → Result Response) → List Contact → ValueSearch → Turn ValueSearch (List ℕ)
unfolding update_value_state drop_failed
take_values key answer [] s = more s
take_values key answer (c ∷ batch) s = elim (answer c) [
  | raise e ↦
      take_values key answer batch
        (record s { search = record (s.search) { kclosest = drop_failed c s.search.kclosest } })
  | ok response ↦ elim (update_value_state key response c.host c.port s) [
    | stop s' v ↦ stop s' v
    | more s' ↦ take_values key answer batch s'
  ]
]

-- The `while` loop of `k_find_value`, with fuel for the rounds.
unfoldable pub find_value_loop :
    ℕ → ℕ → (ℕ → Contact → Result Response) → ℕ → ValueSearch → Result (Option (List ℕ))
unfolding take_values run_batch result_of
find_value_loop zero key ask round s = raise recursion_error
find_value_loop (suc f) key ask round s =
    elim (if s.done then [] else take alpha s.search.pending) [
      | [] ↦ ok (result_of s.values)
      | c ∷ batch ↦
          elim (take_values key (ask round) (c ∷ batch) (record s {
            search =
                run_batch (c ∷ batch) (record (s.search) { pending = drop alpha s.search.pending });
          })) [ stop s' v ↦ ok (some v) | more s' ↦ find_value_loop f key ask (suc round) s' ]
    ]

-- `initial` is what the request to the node itself comes to.
unfoldable pub k_find_value :
    ℕ
    → ℕ
    → (ℕ → Contact → Result Response)
    → String
    → ℕ
    → Result Response
    → Result (Option (List ℕ))
unfolding find_value_loop
k_find_value fuel key ask localhost local_port initial = do
  response ← initial
  elim (update_value_state key response localhost local_port
      (record { search = start; done = false; values = [] })) [
        | stop s v ↦ ok (some v)
        | more s ↦ find_value_loop fuel key ask 0 s
      ]
