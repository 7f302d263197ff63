-- ===== src/Sending/Retries.antt =====
-- flud/protocol/ClientDHTPrimitives.py: what the retries of a request come to.
use flud.Prelude.{
  ℕ, zero, suc, ◌+◌, ◌<◌, ◌≤◌, ◌≡◌, refl, subst, ◌⊎◌, inl, inr, Bool, true, false, Bool-cases,
  raise, socket_error, Exc, leb, arith, ◌==◌,
}
use flud.Peers.{Peers}
use flud.Sending.{Sent, Reply, Attempt, replied, timed_out, broken, send, send_loop, max_timeouts}

abbrev pub is_timeout : Attempt → Bool
is_timeout (replied r) = false
is_timeout timed_out = true
is_timeout (broken e) = false

Attempt-cases :
    (a : Attempt)
    → (((r : Reply) × (a ≡ replied r)) ⊎ ((e : Exc) × (a ≡ broken e))) ⊎ (a ≡ timed_out)
Attempt-cases (replied r) = inl (inl (r, refl))
Attempt-cases (broken e) = inl (inr (e, refl))
Attempt-cases timed_out = inr refl

module _ {ℓ} {A : Type ℓ} (handle : Peers → Reply → Sent A) (reply : ℕ → Attempt) where
  -- What one attempt alone comes to.
  abbrev pub outcome : Peers → Attempt → Sent A
  outcome p (replied r) = handle p r
  outcome p timed_out = (p, raise socket_error)
  outcome p (broken e) = (p, raise e)

  -- Attempt `n` is the first from `t` on that does not time out.
  pub record Decides (t n : ℕ) : Type 0 where
    pub within : n < max_timeouts
    pub from : t ≤ n
    pub earlier : (m : ℕ) → t ≤ m → m < n → is_timeout (reply m) ≡ true
    pub itself : is_timeout (reply n) ≡ false

  abbrev Comes : ℕ → Peers → Sent A → Type ℓ
  Comes t p result =
      (((m : ℕ) → t ≤ m → m < max_timeouts → is_timeout (reply m) ≡ true)
        × (result ≡ (p, raise socket_error)))
      ⊎ ((n : ℕ) × Decides t n × (result ≡ outcome p (reply n)))

  -- A later start adds the timeout of this attempt.
  earlier_too :
      (t u : ℕ)
      → is_timeout (reply t) ≡ true
      → ((m : ℕ) → suc t ≤ m → m < u → is_timeout (reply m) ≡ true)
      → (m : ℕ) → t ≤ m
      → m < u
      → is_timeout (reply m) ≡ true
  earlier_too t u now later m low high = elim (Bool-cases (t == m)) [
    | inl same ↦
        let is : t ≡ m = ground (arith, same) in subst (λ x. is_timeout (reply x) ≡ true) is now
    | inr past ↦ later m (ground (arith, past, low)) high
  ]

  now : (t : ℕ) → t < max_timeouts → is_timeout (reply t) ≡ false → Decides t t
  now t h e = record {
    within = h;
    from = omega arith;
    earlier = λ m a b. absurd (omega (arith, a, b));
    itself = e;
  }

  -- One attempt, where the rest comes to what it should.
  step :
      (f t : ℕ) (p : Peers)
      → t < max_timeouts
      → (leb max_timeouts (suc t) ≡ false → Comes (suc t) p (send_loop handle reply f (suc t) p))
      → Comes t p (send_loop handle reply (suc f) t p)
  unfolding send_loop
  step f t p h later = elim (Attempt-cases (reply t)) [
    | inl (inl (r, e)) ↦ inr (t, now t h (rw e refl), rw (send_loop, e) refl)
    | inl (inr (x, e)) ↦ inr (t, now t h (rw e refl), rw (send_loop, e) refl)
    | inr e ↦ elim (Bool-cases (leb max_timeouts (suc t))) [
      | inl last ↦ inl (
        earlier_too t max_timeouts (rw e refl) (λ m a b. absurd (ground (arith, last, a, b))),
        rw (send_loop, e, last) refl,
      )
      | inr more ↦ elim (later more) [
        | inl (all, raised) ↦
            inl (earlier_too t max_timeouts (rw e refl) all, rw (send_loop, e, more) raised)
        | inr (n, first, result) ↦ inr (
          n,
          record {
            within = first.within;
            from = omega (arith, first.from);
            earlier = earlier_too t n (rw e refl) first.earlier;
            itself = first.itself;
          },
          rw (send_loop, e, more) result,
        )
      ]
    ]
  ]

  comes :
      (f t : ℕ) (p : Peers)
      → suc f + t ≡ max_timeouts
      → Comes t p (send_loop handle reply (suc f) t p)
  comes zero t p h = step zero t p (omega (arith, h)) (λ more. absurd (ground (arith, h, more)))
  comes (suc f) t p h =
      step (suc f) t p (omega (arith, h)) (λ more. comes f (suc t) p (omega (arith, h)))

  -- A request of the DHT client, for everything that its attempts come to: if the first five time
  -- out, it raises `socket.error` and the state stays; else it comes to what the first attempt that
  -- does not time out comes to, which is one of the first five.
  pub send-first :
      (p : Peers)
      → (((m : ℕ) → m < max_timeouts → is_timeout (reply m) ≡ true)
          × (send handle reply p ≡ (p, raise socket_error)))
        ⊎ ((n : ℕ) × Decides 0 n × (send handle reply p ≡ outcome p (reply n)))
  unfolding send
  send-first p = elim (comes 4 0 p refl) [
    | inl (all, raised) ↦ inl (λ m h. all m (omega arith) h, raised)
    | inr decided ↦ inr decided
  ]
