-- ===== src/Server/Gate.antt =====
-- flud/protocol/AiohttpServer.py: the requests for files and the authentication of who makes them.
use flud.Prelude.{
  ℕ, ◌≡◌, refl, ap, ◌⊎◌, inl, inr, Option, none, some, List, [], ◌∷◌, Result, ok, raise, Dict, Exc,
}
use flud.Peers.{Params, found, missing, require_params}
use flud.Server.Auth.{Server, Response, authenticate}
use flud.Server.Meta.{Tools, ku_e_name, ku_n_name, port_name}
use flud.Server.Files.{
  Disk, FileTools, FileAnswer, Admitted, turned_away, admitted, Call, admit, behind, passed,
  FileHandled, asker, lacks, denied, file_answer,
}
use flud.Server.Retrieve.{handle_file_get, metakey_name}
use flud.Server.Delete.{handle_file_delete}
use flud.Server.Probe.{VerifyTools, offset_name, length_name}
use flud.Server.Verify.{handle_hash_get}
use flud.Server.Store.{Form, handle_file_post, size_name}

-- A result that says nothing of any file.
abbrev pub Withheld : Result FileAnswer → Type 0
Withheld (raise e) = Unit
Withheld (ok a) = elim a.told [ lacks name ↦ Unit | denied r ↦ Unit | _ ↦ ⊥ ]

module _ (tools : Tools) (call : Call) (s : Server) where
  -- The requester's key, port and parameters, and that authentication lets the request through.
  pub record Accepted (s' : Server) (ku : ℕ) : Type 0 where
    pub port : ℕ
    pub through :
        authenticate tools.library call.now call.draws call.auth ku call.host port s ≡ (s', ok none)

  data Entry (r : Server × Result Admitted) : Type 0 where
    refused :
        (s' : Server) (a : FileAnswer) → Withheld (ok a) → r ≡ (s', ok (turned_away a)) → Entry r
    raised : (s' : Server) (e : Exc) → r ≡ (s', raise e) → Entry r
    let_in :
        (s' : Server) (ku : ℕ) (params : Dict (List ℕ) (List ℕ))
        → r ≡ (s', ok (admitted ku params))
        → Accepted s' ku
        → Entry r

  entry_of :
      (wanted : List (List ℕ)) (args : Dict (List ℕ) (List (List ℕ)))
      → Entry (admit tools wanted args call s)
  unfolding admit
  entry_of wanted args = go (require_params args wanted) refl
    where
      authed :
          (params : Dict (List ℕ) (List ℕ)) (ku port : ℕ) (x : Server × Result (Option Response))
          → require_params args wanted ≡ found params
          → asker tools params ≡ ok (ku, port)
          → authenticate tools.library call.now call.draws call.auth ku call.host port s ≡ x
          → Entry (admit tools wanted args call s)
      authed params ku port (s', raise e) h g a =
          raised s' e (rw (admit, h, g) (ap (passed ku params) a))
      authed params ku port (s', ok (some r)) h g a =
          refused s' (file_answer r.status (denied r)) tt
            (rw (admit, h, g) (ap (passed ku params) a))
      authed params ku port (s', ok none) h g a =
          let_in s' ku params (rw (admit, h, g) (ap (passed ku params) a))
            (record { port = port; through = a })

      asked :
          (params : Dict (List ℕ) (List ℕ)) (x : Result (ℕ × ℕ))
          → require_params args wanted ≡ found params
          → asker tools params ≡ x
          → Entry (admit tools wanted args call s)
      asked params (raise e) h g = raised s e (rw (admit, h, g) refl)
      asked params (ok (ku, port)) h g = authed params ku port _ h g refl

      go : (p : Params) → require_params args wanted ≡ p → Entry (admit tools wanted args call s)
      go (missing name) h = refused s (file_answer 400 (lacks name)) tt (rw (admit, h) refl)
      go (found params) h = asked params _ h refl

-- What a handler may leave: the directory as it was, with a result that withholds the files, or what an accepted requester changed.
abbrev pub Guarded : Tools → Call → Server → Disk → FileHandled → Type 0
Guarded tools call s disk (s', disk', result) =
    ((disk' ≡ disk) × Withheld result) ⊎ ((ku : ℕ) × Accepted tools call s s' ku)

behind-Guarded :
    (tools : Tools) (call : Call) (s : Server) (disk : Disk) (r : Server × Result Admitted)
    (rest : ℕ → Dict (List ℕ) (List ℕ) → Disk × Result FileAnswer)
    → Entry tools call s r
    → Guarded tools call s disk (behind r disk rest)
behind-Guarded tools call s disk r rest (refused s' a w e) = rw e (inl (refl, w))
behind-Guarded tools call s disk r rest (raised s' x e) = rw e (inl (refl, tt))
behind-Guarded tools call s disk r rest (let_in s' ku params e through) = rw e (inr (ku, through))

-- The requests to store, retrieve, delete and verify a file, for every request: unless
-- authentication let the request through for a key, the directory of stored files is as it was
-- before, and the result is an exception, or the response of a missing parameter or of the
-- authentication.
pub requests-Guarded :
    (tools : Tools) (files : FileTools) (verify : VerifyTools) (filekey boundary : List ℕ)
    (form : Form) (call : Call) (s : Server) (disk : Disk)
    → Guarded tools call s disk (handle_file_post tools files filekey form call s disk)
      × Guarded tools call s disk (handle_file_get tools files filekey boundary call s disk)
      × Guarded tools call s disk (handle_file_delete tools files filekey call s disk)
      × Guarded tools call s disk (handle_hash_get tools files verify filekey call s disk)
unfolding handle_file_post handle_file_get handle_file_delete handle_hash_get
requests-Guarded tools files verify filekey boundary form call s disk = (
  behind-Guarded tools call s disk _ _
      (entry_of tools call s (size_name ∷ ku_e_name ∷ ku_n_name ∷ port_name ∷ []) form.args),
  behind-Guarded tools call s disk _ _
      (entry_of tools call s (ku_e_name ∷ ku_n_name ∷ port_name ∷ []) call.query),
  behind-Guarded tools call s disk _ _
      (entry_of tools call s (ku_e_name ∷ ku_n_name ∷ port_name ∷ metakey_name ∷ []) call.query),
  behind-Guarded tools call s disk _ _ (
      entry_of tools call s (ku_e_name ∷ ku_n_name ∷ port_name ∷ offset_name ∷ length_name ∷ [])
        call.query),
)
