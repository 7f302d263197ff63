-- ===== src/Server/Kept.antt =====
-- flud/protocol/AiohttpServer.py: the server's challenges and configuration under
-- authentication.
use flud.Prelude.{
  ℕ, ◌<◌, ◌≤◌, ◌^◌, suc, ◌≡◌, refl, sym, subst, true, false, Option, none, some, List, [], ◌∷◌,
  Result, ok, raise, String, Bool-cases, inl, inr, ◌==◌, get, ltb, arith,
}
use flud.Prelude.Unique.{Unique, put-Unique, remove-Unique}
use flud.Fencode.Values.{same_text, same_text_iff}
use flud.Fencode.Values.{text_eq}
use flud.Routing.Table.{idspace}
use flud.Peers.Trust.{Trusted, update_node-Trusted}
use flud.Peers.Imposter.{update_node-imposter}
use flud.Server.Auth.{
  Server, Library, draw, send_challenge, check_response, update_requester, authenticate,
  parse_basic_auth, as_key, challenge_of, get_challenge, find_open, still_open,
}
use flud.Server.Replay.{spent, broken, closed, opened, opening, expired}

-- Each challenge stands once, and every key of the configuration under its own id.
pub record Kept (lib : Library) (stop : ℕ) (s : Server) : Type 0 where
  pub once : Unique s.challenges
  pub trusted : Trusted lib.id_of stop s.peers.config

module _ (lib : Library) (stop : ℕ) (small : stop ≤ suc (2 ^ idspace))
    (in_space : (ku : ℕ) → lib.id_of ku < stop) where
  spent-Kept : (c : List ℕ) (s : Server) → Kept lib stop s → Kept lib stop (spent c s)
  spent-Kept c s k = record { once = remove-Unique c s.challenges k.once; trusted = k.trusted }

  send_challenge-Kept :
      (now : ℕ) (draws : List (List ℕ)) (ku : ℕ) (s : Server)
      → Kept lib stop s
      → Kept lib stop (send_challenge lib now draws ku s).0
  unfolding send_challenge
  send_challenge-Kept now draws ku s k = go (draw draws) refl
    where
      go :
          (d : Result (List ℕ))
          → draw draws ≡ d
          → Kept lib stop (send_challenge lib now draws ku s).0
      go (raise e) h = rw (send_challenge, h) k
      go (ok c) h =
          rw (send_challenge, h)
            (record { once = put-Unique c _ s.challenges k.once; trusted = k.trusted })

  update_requester-Kept :
      (host : String) (port ku : ℕ) (s : Server)
      → Kept lib stop s
      → Kept lib stop (update_requester lib host port ku s).0
  unfolding update_requester
  update_requester-Kept host port ku s k = record {
    once = k.once;
    trusted =
        update_node-Trusted lib.id_of stop small in_space s.peers host port (some ku)
          (some (lib.id_of ku)) k.trusted;
  }

  check_response-Kept :
      (now : ℕ) (host : String) (port ku : ℕ) (r g : List ℕ) (s : Server)
      → Kept lib stop s
      → Kept lib stop (check_response lib now host port ku r g s).0
  unfolding check_response
  check_response-Kept now host port ku r g s k = elim (opening now r s) [
    | broken x h ↦ rw (check_response, h) k
    | closed t how h ↦
        rw (check_response, h)
          (elim how [
            | inl same ↦ subst (Kept lib stop) (sym same) k
            | inr (c, out) ↦ subst (Kept lib stop) (sym out) (spent-Kept c s k)
          ])
    | opened [] expiry key there fresh h ↦ rw (check_response, h) k
    | opened (c ∷ cs) expiry key there fresh h ↦
        let over = expired r (c ∷ cs) s key in
        elim (Bool-cases (same_text g (lib.group_hash ku))) [
          | inl fits ↦
              rw (check_response, h, over, fits)
                (update_requester-Kept host port ku (spent (c ∷ cs) s) (spent-Kept (c ∷ cs) s k))
          | inr differs ↦ rw (check_response, h, over, differs) (spent-Kept (c ∷ cs) s k)
        ]
  ]

  -- `_authenticate`, where every id of a key is in the id space, for every request and on every
  -- branch: a server whose challenges each stand once, and whose configuration has a valid table
  -- and every key under its own id, is such a one afterwards.
  pub authenticate-Kept :
      (now : ℕ) (draws : List (List ℕ)) (auth : List ℕ) (ku : ℕ) (host : String) (port : ℕ)
      (s : Server)
      → Kept lib stop s
      → Kept lib stop (authenticate lib now draws auth ku host port s).0
  unfolding authenticate
  authenticate-Kept now draws auth ku host port s k = go (parse_basic_auth lib auth) refl
    where
      go :
          (p : Option (List ℕ × List ℕ))
          → parse_basic_auth lib auth ≡ p
          → Kept lib stop (authenticate lib now draws auth ku host port s).0
      go none h = rw (authenticate, h) (send_challenge-Kept now draws ku s k)
      go (some ([], g)) h = rw (authenticate, h) (send_challenge-Kept now draws ku s k)
      go (some (r ∷ rs, [])) h = rw (authenticate, h) (send_challenge-Kept now draws ku s k)
      go (some (r ∷ rs, g ∷ gs)) h =
          rw (authenticate, h) (check_response-Kept now host port ku (r ∷ rs) (g ∷ gs) s k)

  requester_ok :
      (host : String) (port ku : ℕ) (s : Server)
      → Kept lib stop s
      → (update_requester lib host port ku s).1 ≡ ok none
  unfolding update_requester
  requester_ok host port ku s k =
      let i = lib.id_of ku in
      let done =
        update_node-imposter lib.id_of stop small in_space s.peers host port (some ku) (some i)
          k.trusted in
      let own : (i == i) ≡ true = ground arith in rw (done, own) refl

  -- `_authenticate` on a server in order, where every id of a key is in the id space: a request
  -- whose header holds a response that decodes to an open challenge that has not run out, and the
  -- group of the requester's key, is let through.
  pub authenticate-accepts :
      (now : ℕ) (draws : List (List ℕ)) (auth : List ℕ) (ku : ℕ) (host : String) (port : ℕ)
      (s : Server) (r g c : ℕ) (rs gs cs : List ℕ) (expiry : ℕ)
      → Kept lib stop s
      → parse_basic_auth lib auth ≡ some (r ∷ rs, g ∷ gs)
      → as_key (challenge_of (r ∷ rs)) ≡ ok (some (c ∷ cs))
      → get (c ∷ cs) s.challenges ≡ some expiry
      → now ≤ expiry
      → g ∷ gs ≡ lib.group_hash ku
      → (authenticate lib now draws auth ku host port s).1 ≡ ok none
  unfolding authenticate check_response get_challenge find_open still_open
  authenticate-accepts now draws auth ku host port s r g c rs gs cs expiry k parsed key there fresh
        group =
      let in_time : ltb expiry now ≡ false = ground (arith, fresh) in
      let h : get_challenge now (r ∷ rs) s ≡ ok (s, some (c ∷ cs)) =
        rw (get_challenge, key, find_open, there, in_time) refl in
      let over = expired (r ∷ rs) (c ∷ cs) s key in
      let fits : same_text (g ∷ gs) (lib.group_hash ku) ≡ true =
        (same_text_iff (g ∷ gs) (lib.group_hash ku)).1 group in
      rw (authenticate, parsed, check_response, h, over, fits)
        (requester_ok host port ku (spent (c ∷ cs) s) (spent-Kept (c ∷ cs) s k))
