-- ===== src/Client/Aggregate.antt =====
-- flud/protocol/ClientPrimitives.py: `AggregateStore`, which gathers small files in a tarball for a
-- host and sends them as one. A tarball is the list of its members, with and without gzip, and a
-- waiter is a number. Times and the tarball's name while it is packed are left out.
use flud.Prelude.{
  ℕ, suc, Bool, true, false, ◌&&◌, ◌||◌, not, Option, none, some, List, [], ◌∷◌, ◌++◌, Result, ok,
  raise, io_error, key_error, Dict, get, put, remove, has, elem, if◌then◌else◌, ◌>>=◌,
}
use flud.Fencode.Values.{same_text, text_eq}
use flud.Tarball.{Member, ends_with, meta_suffix}
use flud.Server.Files.{tar_suffix, gz_suffix, meta_name, names, file_member}
use flud.Server.Multipart.{digits}

-- A file to store: its name, its bytes, and its metadata with the key.
pub record Job : Type 0 where
  pub name : List ℕ
  pub bytes : List ℕ
  pub metadata : Option (List ℕ × List ℕ)

-- `aggregate_waiters`, the tarballs of the client's directory, and the next of `aggGeneration`.
pub record Aggregates : Type 0 where
  pub waiting : Dict (List ℕ) (Dict (List ℕ) (List ℕ))
  pub tars : Dict (List ℕ) (List Member)
  pub generation : ℕ

abbrev pub or_empty : {A : Type 0} → Option (List A) → List A
or_empty none = []
or_empty (some l) = l

-- The name of the tarball and the generation afterwards. One that is waited for and is not there is
-- being sent.
unfoldable pub tar_for : List ℕ → Aggregates → List ℕ × ℕ
unfolding same_text digits
tar_for base s =
    let tar = base ++ tar_suffix in
    if has tar s.waiting && not (has tar s.tars)
    then (base ++ (b'.' ∷ (digits s.generation ++ tar_suffix)), suc s.generation)
    else (tar, s.generation)

-- A file that the tarball has is not added again, its metadata is.
unfoldable pub with_data : Job → List Member → List Member
unfolding same_text elem
with_data job ms =
    if elem job.name (names ms) then ms else ms ++ (file_member job.name job.bytes ∷ [])

abbrev pub with_metadata : List ℕ → Option (List ℕ × List ℕ) → List Member → List Member
with_metadata name none ms = ms
with_metadata name (some (k, bytes)) ms = ms ++ (file_member (meta_name name k) bytes ∷ [])

abbrev pub add_members : Job → List Member → List Member
add_members job ms = with_metadata job.name job.metadata (with_data job ms)

unfoldable pub add_waiter : List ℕ → ℕ → Dict (List ℕ) (List ℕ) → Dict (List ℕ) (List ℕ)
unfolding same_text
add_waiter name w waiting = put name (or_empty (get name waiting) ++ (w ∷ [])) waiting

-- A file into the tarball of a name, with the generation afterwards.
unfoldable pub store_in : Job → ℕ → Aggregates → List ℕ × ℕ → Aggregates
unfolding with_data add_waiter same_text
store_in job w s (tar, generation) =
    let create = not (has tar s.tars) || not (has tar s.waiting) in
    let ms = if create then [] else or_empty (get tar s.tars) in
    let waiting = if create then put tar [] s.waiting else s.waiting in
    record {
      waiting = put tar (add_waiter job.name w (or_empty (get tar waiting))) waiting;
      tars = put tar (add_members job ms) s.tars;
      generation = generation;
    }

-- `AggregateStore.__init__` with the future that it makes.
unfoldable pub store_job : List ℕ → Job → ℕ → Aggregates → Aggregates
unfolding store_in tar_for
store_job base job w s = store_in job w s (tar_for base s)

-- `_prepareTarball`, where a file that is not there raises.
unfoldable pub prepare_tarball : List ℕ → Aggregates → Result Aggregates
unfolding same_text
prepare_tarball tar s = elim (get tar s.tars) [
  | none ↦ raise io_error
  | some ms ↦ ok (record s { tars = put (tar ++ gz_suffix) ms (remove tar s.tars) })
]

-- The names that `completeTarfiles` takes the waiters of.
unfoldable pub data_names : List (List ℕ) → List (List ℕ)
unfolding ends_with
data_names [] = []
data_names (n ∷ ns) = let rest = data_names ns in if ends_with meta_suffix n then rest else n ∷ rest

-- The loop that takes the waiters of names. The first name without any ends it.
unfoldable pub take_waiters : List (List ℕ) → Dict (List ℕ) (List ℕ) → List ℕ
unfolding same_text
take_waiters [] waiting = []
take_waiters (n ∷ ns) waiting =
    let rest = take_waiters ns (remove n waiting) in
    elim (get n waiting) [ none ↦ [] | some ws ↦ ws ++ rest ]

-- A tarball that nobody waits for raises in the handling of the exception.
abbrev pub taken : List (List ℕ) → Option (Dict (List ℕ) (List ℕ)) → Result (List ℕ)
taken [] waiting = ok []
taken (n ∷ ns) none = raise key_error
taken (n ∷ ns) (some waiting) = ok (take_waiters (n ∷ ns) waiting)

-- `completeTarfiles`, with the waiters that get the result.
unfoldable pub complete_tarfiles : List ℕ → Aggregates → Result (Aggregates × List ℕ)
unfolding data_names take_waiters same_text
complete_tarfiles tar s = elim (get (tar ++ gz_suffix) s.tars) [
  | none ↦ raise io_error
  | some ms ↦ do
    ws ← taken (data_names (names ms)) (get tar s.waiting)
    ok (record s { waiting = remove tar s.waiting; tars = remove (tar ++ gz_suffix) s.tars }, ws)
]

-- `failTarfiles`, with the waiters that get the exception. The tarball stays.
unfoldable pub fail_tarfiles : List ℕ → Aggregates → Result (Aggregates × List ℕ)
unfolding take_waiters same_text
fail_tarfiles tar s = elim (get (tar ++ gz_suffix) s.tars) [
  | none ↦ raise io_error
  | some ms ↦ do
    ws ← taken (names ms) (get tar s.waiting)
    ok (record s { waiting = remove tar s.waiting }, ws)
]

-- `_sendTarAsync`, by whether the request to store the tarball raises: the waiters that are settled.
unfoldable pub send_tar : Bool → List ℕ → Aggregates → Result (Aggregates × List ℕ)
unfolding prepare_tarball complete_tarfiles fail_tarfiles
send_tar fails tar s = elim (prepare_tarball tar s) [
  | raise e ↦ fail_tarfiles tar s
  | ok s' ↦ elim fails [ true ↦ fail_tarfiles tar s' | false ↦ complete_tarfiles tar s' ]
]
