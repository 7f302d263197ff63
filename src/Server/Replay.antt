-- ===== src/Server/Replay.antt =====
-- flud/protocol/AiohttpServer.py: the use of a response to a challenge.
use flud.Prelude.{
  ℕ, ◌≡◌, refl, sym, ◌∙◌, ap, false, Option, none, some, List, [], ◌∷◌, Result, ok, raise, Exc,
  String, get, remove, ltb, ◌>>=◌, Bool-cases, Option-cases, inl, inr, ◌⊎◌, ◌≢◌,
}
use flud.Prelude.Unique.{Unique, get-remove_self}
use flud.Fencode.Values.{same_text, same_text_iff}
use flud.Fencode.Values.{text_eq}
use flud.Server.Auth.{
  Server, Library, Response, forbidden, challenge_failed, as_key, challenge_of, get_challenge,
  expire_challenge, parse_basic_auth, send_challenge, check_response, update_requester,
  authenticate, group_challenge_failed, find_open, still_open,
}

-- The server without a challenge
abbrev pub spent : List ℕ → Server → Server
spent c s = record s { challenges = remove c s.challenges }

-- What `_get_challenge` comes to.
pub data Opening (now : ℕ) (r : List ℕ) (s : Server) : Type 0 where
  broken : (e : Exc) → get_challenge now r s ≡ raise e → Opening now r s
  closed :
      (t : Server)
      → (t ≡ s) ⊎ ((c : List ℕ) × (t ≡ spent c s))
      → get_challenge now r s ≡ ok (t, none)
      → Opening now r s
  opened :
      (c : List ℕ) (expiry : ℕ)
      → as_key (challenge_of r) ≡ ok (some c)
      → get c s.challenges ≡ some expiry
      → ltb expiry now ≡ false
      → get_challenge now r s ≡ ok (s, some c)
      → Opening now r s

pub opening : (now : ℕ) (r : List ℕ) (s : Server) → Opening now r s
unfolding get_challenge find_open still_open
opening now r s = go (as_key (challenge_of r)) refl
  where
    go : (k : Result (Option (List ℕ))) → as_key (challenge_of r) ≡ k → Opening now r s
    go (raise e) h = broken e (rw (get_challenge, h) refl)
    go (ok none) h = closed s (inl refl) (rw (get_challenge, h) refl)
    go (ok (some c)) h = elim (Option-cases (get c s.challenges)) [
      | inl gone ↦ closed s (inl refl) (rw (get_challenge, h, find_open, gone) refl)
      | inr (expiry, there) ↦ elim (Bool-cases (ltb expiry now)) [
        | inl late ↦
            closed (spent c s) (inr (c, refl)) (rw (get_challenge, h, find_open, there, late) refl)
        | inr fresh ↦
            opened c expiry h there fresh (rw (get_challenge, h, find_open, there, fresh) refl)
      ]
    ]

-- What an accepted response had: its challenge was issued and has not run out, the group is the
-- key's, and the challenge is spent.
pub record Accepted (lib : Library) (now ku : ℕ) (r g : List ℕ) (s s' : Server) : Type 0 where
  pub challenge : List ℕ
  pub expiry : ℕ
  pub issued : get challenge s.challenges ≡ some expiry
  pub in_time : ltb expiry now ≡ false
  pub answers : as_key (challenge_of r) ≡ ok (some challenge)
  pub group : g ≡ lib.group_hash ku
  pub gone : get challenge s'.challenges ≡ none

pub expired :
    (r c : List ℕ) (s : Server)
    → as_key (challenge_of r) ≡ ok (some c)
    → expire_challenge r s ≡ ok (spent c s)
unfolding expire_challenge
expired r c s k = rw (expire_challenge, k) refl

updated :
    (lib : Library) (host : String) (port ku : ℕ) (s : Server)
    → (update_requester lib host port ku s).0.challenges ≡ s.challenges
unfolding update_requester
updated lib host port ku s = refl

module _ (lib : Library) (now : ℕ) (host : String) (port ku : ℕ) (r g : List ℕ)
    (s s' : Server) where
  checked :
      Unique s.challenges
      → check_response lib now host port ku r g s ≡ (s', ok none)
      → Accepted lib now ku r g s s'
  unfolding check_response
  checked u e = elim (opening now r s) [
    | broken x h ↦
        let is : check_response lib now host port ku r g s ≡ (s, raise x) =
          rw (check_response, h) refl in
        absurd cc
    | closed t how h ↦
        let is : check_response lib now host port ku r g s
            ≡ (t, ok (some (forbidden challenge_failed))) =
          rw (check_response, h) refl in
        absurd cc
    | opened [] expiry k there fresh h ↦
        let is : check_response lib now host port ku r g s
            ≡ (s, ok (some (forbidden challenge_failed))) =
          rw (check_response, h) refl in
        absurd cc
    | opened (c ∷ cs) expiry k there fresh h ↦
        let over = expired r (c ∷ cs) s k in
        elim (Bool-cases (same_text g (lib.group_hash ku))) [
          | inl fits ↦
              let is : check_response lib now host port ku r g s
                  ≡ update_requester lib host port ku (spent (c ∷ cs) s) =
                rw (check_response, h, over, fits) refl in
              let left =
                ap (λ o. o.0.challenges) (sym e ∙ is)
                ∙ updated lib host port ku (spent (c ∷ cs) s) in
              record {
                challenge = c ∷ cs;
                expiry = expiry;
                issued = there;
                in_time = fresh;
                answers = k;
                group = (same_text_iff g (lib.group_hash ku)).0 fits;
                gone = ap (get (c ∷ cs)) left ∙ get-remove_self (c ∷ cs) s.challenges u;
              }
          | inr differs ↦
              let is : check_response lib now host port ku r g s
                  ≡ (spent (c ∷ cs) s, ok (some (forbidden group_challenge_failed))) =
                rw (check_response, h, over, differs) refl in
              absurd cc
        ]
  ]

refused :
    (lib : Library) (now : ℕ) (host : String) (port ku : ℕ) (r g c : List ℕ) (t : Server)
    → as_key (challenge_of r) ≡ ok (some c)
    → get c t.challenges ≡ none
    → check_response lib now host port ku r g t ≡ (t, ok (some (forbidden challenge_failed)))
unfolding check_response get_challenge find_open still_open
refused lib now host port ku r g c t k gone =
    let shut : get_challenge now r t ≡ ok (t, none) = rw (get_challenge, k, find_open, gone) refl in
    rw (check_response, shut) refl

-- Every later use of the header `auth`, while its challenge is not issued again.
abbrev pub Refused : Library → List ℕ → List ℕ → Type 0
Refused lib auth c =
    (later : ℕ) (draws : List (List ℕ)) (ku : ℕ) (host : String) (port : ℕ) (t : Server)
    → get c t.challenges ≡ none
    → authenticate lib later draws auth ku host port t ≡ (t, ok (some (forbidden challenge_failed)))

abbrev pub Once : Library → ℕ → List ℕ → ℕ → Server → Server → Type 0
Once lib now auth ku s s' =
    (r : List ℕ) × (g : List ℕ) × (parse_basic_auth lib auth ≡ some (r, g))
    × (a : Accepted lib now ku r g s s') × Refused lib auth a.challenge

-- What a request without credentials comes to: never to nothing.
abbrev Challenged : Server × Result Response → Server × Result (Option Response)
Challenged o = (o.0, (do r ← o.1; ok (some r)))

challenged-some : (o : Server × Result Response) (s' : Server) → Challenged o ≢ (s', ok none)
challenged-some (t, raise e) s' h = cc
challenged-some (t, ok r) s' h = cc

-- `_authenticate` of a request where the server's challenges each stand once, at every time: if
-- it lets the request through, the header holds a response and a group, the response decodes to a
-- challenge that was issued and has not run out, the group is that of the requester's key, and
-- the challenge is gone afterwards. In every later state in which that challenge is not open, the
-- same header is refused with `Challenge Failed` and changes nothing, whoever sends it.
pub authenticate-Once :
    (lib : Library) (now : ℕ) (draws : List (List ℕ)) (auth : List ℕ) (ku : ℕ) (host : String)
    (port : ℕ) (s s' : Server)
    → Unique s.challenges
    → authenticate lib now draws auth ku host port s ≡ (s', ok none)
    → Once lib now auth ku s s'
unfolding authenticate
authenticate-Once lib now draws auth ku host port s s' u e = go (parse_basic_auth lib auth) refl
  where
    go : (p : Option (List ℕ × List ℕ)) → parse_basic_auth lib auth ≡ p → Once lib now auth ku s s'
    go none h =
        let is : authenticate lib now draws auth ku host port s
            ≡ Challenged (send_challenge lib now draws ku s) =
          rw (authenticate, h) refl in
        absurd (challenged-some (send_challenge lib now draws ku s) s' (sym is ∙ e))
    go (some ([], g)) h =
        let is : authenticate lib now draws auth ku host port s
            ≡ Challenged (send_challenge lib now draws ku s) =
          rw (authenticate, h) refl in
        absurd (challenged-some (send_challenge lib now draws ku s) s' (sym is ∙ e))
    go (some (r ∷ rs, [])) h =
        let is : authenticate lib now draws auth ku host port s
            ≡ Challenged (send_challenge lib now draws ku s) =
          rw (authenticate, h) refl in
        absurd (challenged-some (send_challenge lib now draws ku s) s' (sym is ∙ e))
    go (some (r ∷ rs, g ∷ gs)) h =
        let is : authenticate lib now draws auth ku host port s
            ≡ check_response lib now host port ku (r ∷ rs) (g ∷ gs) s =
          rw (authenticate, h) refl in
        let a = checked lib now host port ku (r ∷ rs) (g ∷ gs) s s' u (sym is ∙ e) in
        (
          r ∷ rs,
          g ∷ gs,
          h,
          a,
          λ later draws' ku' host' port' t gone.
              rw (authenticate, h)
                (refused lib later host' port' ku' (r ∷ rs) (g ∷ gs) a.challenge t a.answers gone),
        )
