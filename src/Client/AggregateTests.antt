-- ===== src/Client/AggregateTests.antt =====
-- flud/protocol/ClientPrimitives.py: two files that are gathered in a tarball.
use flud.Prelude.{
  ℕ, ◌<◌, ◌≡◌, refl, ok, true, false, some, List, [], ◌∷◌, ◌++◌, elem, Result, length, get, put,
  remove, has, nat_eq,
}
use flud.Fencode.Values.{same_text, text_eq}
use flud.Tarball.{ends_with}
use flud.Server.Files.{tar_suffix}
use flud.Client.Aggregate.{Job, Aggregates, send_tar, store_job}
use flud.Client.Aggregated.{store_jobs, idle, send_tar-store_jobs}

abbrev base : List ℕ
base = b'h' ∷ []

abbrev job_of : ℕ → Job
job_of c = record { name = c ∷ []; bytes = 1 ∷ []; metadata = some (b'1' ∷ [], 2 ∷ []) }

send_tar-store_jobs_example :
    (ws : List ℕ) × (send_tar false
        (base ++ tar_suffix)
        (store_jobs base (job_of b'a' ∷ job_of b'b' ∷ []) 0 (idle 1))
      ≡ ok (idle 1, ws))
    × ((i : ℕ) → i < length (job_of b'a' ∷ job_of b'b' ∷ []) → elem i ws ≡ true)
unfolding ends_with same_text
send_tar-store_jobs_example =
    send_tar-store_jobs base 1 (job_of b'a') (job_of b'b' ∷ []) (refl, (refl, tt))

abbrev settled : Result (Aggregates × List ℕ) → List ℕ
settled (ok (s, ws)) = ws
settled r = []

-- Where the request fails, the second file is waited for without an end.
second_lost :
    settled (
      send_tar true
        (base ++ tar_suffix)
        (store_jobs base (job_of b'a' ∷ job_of b'b' ∷ []) 0 (idle 1)))
    ≡ 0 ∷ []
unfolding send_tar store_job has get put remove
second_lost = refl
