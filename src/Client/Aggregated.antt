-- ===== src/Client/Aggregated.antt =====
-- flud/protocol/ClientPrimitives.py: files that are gathered in a tarball, and its sending.
use flud.Prelude.{
  ℕ, suc, ◌+◌, ◌<◌, ◌≡◌, refl, ap, sym, ◌∙◌, subst, true, false, Bool-cases, inl, inr, some, List,
  [], ◌∷◌, ◌++◌, ok, Dict, get, put, remove, has, elem, All, length, arith, ◌==◌, nat_eq, beq_self,
  subst,
}
use flud.Fencode.Values.{same_text, text_eq}
use flud.Tarball.{Member, ends_with, meta_suffix}
use flud.Server.Files.{tar_suffix, gz_suffix, names}
use flud.Client.Aggregate.{
  Job, Aggregates, store_in, store_job, tar_for, add_members, add_waiter, send_tar, prepare_tarball,
  complete_tarfiles, taken, take_waiters, data_names,
}
use flud.Client.Waiters.{all_waiters, all_waiters-add, take_waiters-keys, Aligned, add-Aligned}

-- Files that are stored one after the other, whose waiters are counted.
abbrev pub store_jobs : List ℕ → List Job → ℕ → Aggregates → Aggregates
store_jobs base [] w s = s
store_jobs base (job ∷ jobs) w s = store_jobs base jobs (suc w) (store_job base job w s)

-- No tarball, and none that is waited for.
abbrev pub idle : ℕ → Aggregates
idle generation = record { waiting = []; tars = []; generation = generation }

get_alone : {V : Type 0} (k : List ℕ) (v : V) → get k ((k, v) ∷ []) ≡ some v
unfolding get
get_alone k v = let self : same_text k k ≡ true = beq_self text_eq k in rw self refl

remove_alone : {V : Type 0} (k : List ℕ) (v : V) → remove k ((k, v) ∷ []) ≡ []
unfolding remove
remove_alone k v = let self : same_text k k ≡ true = beq_self text_eq k in rw self refl

module _ (base : List ℕ) (generation : ℕ) where
  abbrev tar : List ℕ
  tar = base ++ tar_suffix

  -- One tarball with those that wait for it.
  abbrev gathered : List Member → Dict (List ℕ) (List ℕ) → Aggregates
  gathered ms d = record { waiting = (tar, d) ∷ []; tars = (tar, ms) ∷ []; generation = generation }

  self : (s : List ℕ) → same_text s s ≡ true
  self s = beq_self text_eq s

  store_first :
      (job : Job) (w : ℕ)
      → store_job base job w (idle generation)
        ≡ gathered (add_members job []) (add_waiter job.name w [])
  unfolding store_job
  store_first job w =
      let named : tar_for base (idle generation) ≡ (tar, generation) = unfold tar_for has in refl in
      ap (store_in job w (idle generation)) named
      ∙ (unfold store_in get put has in rw (self tar) refl)

  store_next :
      (job : Job) (w : ℕ) (ms : List Member) (d : Dict (List ℕ) (List ℕ))
      → store_job base job w (gathered ms d)
        ≡ gathered (add_members job ms) (add_waiter job.name w d)
  unfolding store_job
  store_next job w ms d =
      let named : tar_for base (gathered ms d) ≡ (tar, generation) =
        unfold tar_for has in rw (self tar) refl in
      ap (store_in job w (gathered ms d)) named
      ∙ (unfold store_in get put has in rw (self tar) (rw (self tar) refl))

  -- The first waiters wait.
  abbrev Waits : ℕ → Dict (List ℕ) (List ℕ) → Type 0
  Waits n d = (i : ℕ) → i < n → elem i (all_waiters d) ≡ true

  add-Waits :
      (name : List ℕ) (w : ℕ) (d : Dict (List ℕ) (List ℕ))
      → Waits w d
      → Waits (suc w) (add_waiter name w d)
  add-Waits name w d h i few = elim (Bool-cases (w == i)) [
    | inl last ↦ ground (arith, all_waiters-add i w name d, last)
    | inr other ↦
        let before : i < w = ground (arith, few, other) in
        ground (arith, all_waiters-add i w name d, h i before)
  ]

  -- What a tarball and those who wait for it are after some files.
  record Gathers (n : ℕ) (s : Aggregates) : Type 0 where
    members : List Member
    waiting : Dict (List ℕ) (List ℕ)
    state : s ≡ gathered members waiting
    aligned : Aligned members waiting
    all_wait : Waits n waiting

  store_jobs-Gathers :
      (jobs : List Job) (w : ℕ) (s : Aggregates)
      → All (λ j. ends_with meta_suffix j.name ≡ false) jobs
      → Gathers w s
      → Gathers (w + length jobs) (store_jobs base jobs w s)
  store_jobs-Gathers [] w s named g =
      let same : w + 0 ≡ w = omega arith in subst (λ n. Gathers n s) (sym same) g
  store_jobs-Gathers (job ∷ jobs) w s (one, named) g =
      let next : Gathers (suc w) (store_job base job w s) = record {
        members = add_members job g.members;
        waiting = add_waiter job.name w g.waiting;
        state = ap (store_job base job w) g.state ∙ store_next job w g.members g.waiting;
        aligned = add-Aligned job w g.members g.waiting one g.aligned;
        all_wait = add-Waits job.name w g.waiting g.all_wait;
      } in
      let same : w + length (job ∷ jobs) ≡ suc w + length jobs = omega arith in
      subst (λ n. Gathers n (store_jobs base (job ∷ jobs) w s)) (sym same)
        (store_jobs-Gathers jobs (suc w) (store_job base job w s) named next)

  taken_all :
      (ns : List (List ℕ)) (d : Dict (List ℕ) (List ℕ)) → taken ns (some d) ≡ ok (take_waiters ns d)
  unfolding take_waiters
  taken_all [] d = refl
  taken_all (n ∷ ns) d = refl

  sent :
      (ms : List Member) (d : Dict (List ℕ) (List ℕ))
      → Aligned ms d
      → send_tar false tar (gathered ms d) ≡ ok (idle generation, all_waiters d)
  unfolding send_tar prepare_tarball complete_tarfiles
  sent ms d a =
      let all : taken (data_names (names ms)) (some d) ≡ ok (all_waiters d) =
        taken_all (data_names (names ms)) d
        ∙ ap (λ l. ok (take_waiters l d)) a
        ∙ ap ok (take_waiters-keys d) in
      let packed : Aggregates = record (gathered ms d) { tars = (tar ++ gz_suffix, ms) ∷ [] } in
      let prepared : prepare_tarball tar (gathered ms d) ≡ ok packed =
        unfold put in rw (prepare_tarball, get_alone tar ms, remove_alone tar ms) refl in
      let completed : complete_tarfiles tar packed ≡ ok (idle generation, all_waiters d) =
        let gz = tar ++ gz_suffix in
        rw
          (
            complete_tarfiles,
            get_alone gz ms,
            get_alone tar d,
            all,
            remove_alone tar d,
            remove_alone gz ms,
          )
          refl in
      rw (send_tar, prepared) completed

  -- Where no tarball is there and none is waited for, one file or more, whose names do not end in
  -- `.meta`, are gathered one after the other for a host, under equal names too, with or without
  -- metadata. Then their tarball is sent, and the request to store it does not raise: the sending
  -- does not raise, every file's waiter gets the result, and no tarball and nobody who waits for
  -- one is left.
  pub send_tar-store_jobs :
      (job : Job) (jobs : List Job)
      → All (λ j. ends_with meta_suffix j.name ≡ false) (job ∷ jobs)
      → (ws : List ℕ) × (send_tar false tar (store_jobs base (job ∷ jobs) 0 (idle generation))
          ≡ ok (idle generation, ws))
        × ((i : ℕ) → i < length (job ∷ jobs) → elem i ws ≡ true)
  send_tar-store_jobs job jobs (one, named) =
      let first : Gathers 1 (store_job base job 0 (idle generation)) = record {
        members = add_members job [];
        waiting = add_waiter job.name 0 [];
        state = store_first job 0;
        aligned = add-Aligned job 0 [] [] one (unfold data_names in refl);
        all_wait = add-Waits job.name 0 [] (λ i few. absurd (omega (arith, few)));
      } in
      let g = store_jobs-Gathers jobs 1 (store_job base job 0 (idle generation)) named first in
      (
        all_waiters g.waiting,
        ap (send_tar false tar) g.state ∙ sent g.members g.waiting g.aligned,
        λ i few. g.all_wait i (omega (arith, few)),
      )
