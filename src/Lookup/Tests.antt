-- ===== src/Lookup/Tests.antt =====
-- flud/protocol/ClientDHTPrimitives.py: lookups in a network of two nodes.
use flud.Lookup.ValueTotal.{k_find_value-Ends, Given}
use flud.Lookup.ValueEnds.{ValueAnswers}
use flud.Prelude.{ℕ, ◌≤◌, ◌≡◌, refl, ok, some, List, [], ◌∷◌, Result, elem, has, put, get, Option}
use flud.Prelude.Sorting.{sort_by, insert_by}
use flud.Routing.Node.{Node}
use flud.Lookup.{Contact, contact_of, contact_eq, Response, nodes, value}
use flud.Lookup.FindNode.{Found, k_find_node}
use flud.Lookup.FindValue.{k_find_value}
use flud.Lookup.Store.{k_store}
use flud.Lookup.Ends.{Answers}
use flud.Lookup.Answer.{Good}
use flud.Lookup.Total.{k_find_node-Ends}
use flud.Lookup.Storing.{k_store-Ends, Lists, Stores}

abbrev near : Node
near = record { host = "10.0.0.5"; port = 8080; id = 5; ku = 7 }

abbrev far : Node
far = record { host = "10.0.0.9"; port = 8080; id = 200; ku = 7 }

abbrev known : List Contact
known = contact_of near ∷ contact_of far ∷ []

-- Every node names both.
abbrev ask : ℕ → Contact → Result Response
ask r c = ok (nodes c.id (near ∷ far ∷ []))

answers : Answers known ask
answers = record { honest = λ r c. refl; within = λ r c x h. h }

k_find_node-Ends_example :
    (enough : ℕ) × (found : Found) × ((fuel : ℕ)
      → enough ≤ fuel
      → k_find_node fuel 4 ask "10.0.0.1" 8080 17 (near ∷ far ∷ []) ≡ ok found)
    × Good 4 (λ n. n.ku ≡ 7) found
k_find_node-Ends_example =
    k_find_node-Ends 4 (λ n. n.ku ≡ 7) known ask "10.0.0.1" 8080 17 (near ∷ far ∷ []) answers
      (λ r c. (refl, (refl, tt))) (refl, (refl, tt)) (λ x h. h)

-- The node itself answers with nodes, and each of these with a value.
abbrev say : ℕ → Contact → Result Response
say r c = ok (value (b'v' ∷ []))

say_answers : ValueAnswers known say
unfolding elem
say_answers = record { honest = λ r c. tt; within = λ r c x h. absurd cc }

k_find_value-Ends_example :
    (enough : ℕ) × (found : Option (List ℕ)) × ((fuel : ℕ)
      → enough ≤ fuel
      → k_find_value fuel 4 say "10.0.0.1" 8080 (ok (nodes 17 (near ∷ far ∷ []))) ≡ ok found)
    × Given say (nodes 17 (near ∷ far ∷ [])) found
k_find_value-Ends_example =
    k_find_value-Ends 4 known say "10.0.0.1" 8080 say_answers (nodes 17 (near ∷ far ∷ []))
      (λ x h. h)

-- The first of them is asked, and its value returned.
finds :
    k_find_value 2 4 say "10.0.0.1" 8080 (ok (nodes 17 (near ∷ far ∷ []))) ≡ ok (some (b'v' ∷ []))
unfolding k_find_value sort_by insert_by has put elem get
finds = refl

abbrev store : Node → Result (List ℕ)
store n = ok (b'k' ∷ [])

-- Both nodes are found, and keep the value.
k_store-Ends_example :
    (enough : ℕ) × (found : Found) × (ns : List Node) × (result : Result (List ℕ)) × ((fuel : ℕ)
      → enough ≤ fuel
      → (k_find_node fuel 4 ask "10.0.0.1" 8080 17 (near ∷ far ∷ []) ≡ ok found)
        × (k_store store (k_find_node fuel 4 ask "10.0.0.1" 8080 17 (near ∷ far ∷ [])) ≡ result))
    × Good 4 (λ n. n.ku ≡ 7) found
    × Lists found ns
    × Stores store ns result
k_store-Ends_example =
    k_store-Ends 4 (λ n. n.ku ≡ 7) known ask "10.0.0.1" 8080 17 (near ∷ far ∷ []) store answers
      (λ r c. (refl, (refl, tt))) (refl, (refl, tt)) (λ x h. h)
