-- ===== src/Launch/Attempts.antt =====
-- Where the attempts to launch a container lead.
use canyonos.Prelude.{
  ℕ, zero, suc, ◌+◌, ◌<◌, ◌≤◌, ◌≡◌, ◌≢◌, refl, sym, subst, ◌⊎◌, inl, inr, Bool, true, Option, none,
  some, arith,
}
use canyonos.Launch.{
  Answer, runs, conflict, whitespace, broken, Outcome, launched, port_in_use, bad_env_file,
  failed_to_launch, no_free_port, Step, done, retry, after_attempt, attempt, attempts_from, launch,
  max_port_attempts,
}

abbrev pub port_of : Option ℕ → ℕ
port_of none = 0
port_of (some a) = a

module _ (fixed : Bool) (docker : ℕ → ℕ → Option ℕ → Answer) (first : ℕ)
    (first_api : Option ℕ) where
  -- The ports of an attempt, reached from the first by retries.
  pub data Reached : ℕ → ℕ → Option ℕ → Type 0 where
    start : Reached 0 first first_api
    next :
        {i host host' : ℕ} {api api' : Option ℕ}
        → Reached i host api
        → attempt fixed docker i host api ≡ retry host' api'
        → Reached (suc i) host' api'

  -- Each attempt moves one of the two ports by one; a fixed API port stays.
  pub record Moved (i host : ℕ) (api : Option ℕ) : Type 0 where
    pub total : host + port_of api ≡ first + port_of first_api + i
    pub host_up : first ≤ host
    pub api_up : port_of first_api ≤ port_of api
    pub kept : fixed ≡ true → api ≡ first_api

  attempt-Moved :
      (i host host' : ℕ) (api api' : Option ℕ)
      → Moved i host api
      → attempt fixed docker i host api ≡ retry host' api'
      → Moved (suc i) host' api'
  unfolding after_attempt
  attempt-Moved i host host' api api' m e = record {
    total = ground (arith, e, m.total);
    host_up = ground (arith, e, m.host_up);
    api_up = ground (arith, e, m.api_up);
    kept = λ f. ground (arith, e, m.kept f);
  }

  Reached-Moved : {i host : ℕ} {api : Option ℕ} → Reached i host api → Moved i host api
  Reached-Moved start = record {
    total = omega arith;
    host_up = omega arith;
    api_up = omega arith;
    kept = λ f. refl;
  }
  Reached-Moved (next {i} {host} {host'} {api} {api'} r e) =
      attempt-Moved i host host' api api' (Reached-Moved r) e

  -- The outcome is that of an attempt that was reached, or else all attempts were retried.
  abbrev pub Ended : ℕ → Outcome → Type 0
  Ended n o =
      ((i : ℕ) × (host : ℕ) × (api : Option ℕ) × (i < n)
        × Reached i host api
        × (attempt fixed docker i host api ≡ done o))
      ⊎ (o ≡ no_free_port) × ((host : ℕ) × (api : Option ℕ) × Reached n host api)

  attempts_from-Ended :
      (n i host : ℕ) (api : Option ℕ)
      → Reached i host api
      → Ended (i + n) (attempts_from fixed docker n i host api)
  unfolding attempts_from
  attempts_from-Ended zero i host api r =
      inr (
        refl,
        (host, api, (let k : i ≡ i + 0 = omega arith in subst (λ j. Reached j host api) k r)),
      )
  attempts_from-Ended (suc n) i host api r =
      go (λ h a q. attempts_from-Ended n (suc i) h a q) (attempt fixed docker i host api) refl
    where
      go :
          ((h : ℕ) (a : Option ℕ)
            → Reached (suc i) h a
            → Ended (suc i + n) (attempts_from fixed docker n (suc i) h a))
          → (s : Step) → attempt fixed docker i host api ≡ s
          → Ended (i + suc n) (attempts_from fixed docker (suc n) i host api)
      go rec (done o) e =
          let k : attempts_from fixed docker (suc n) i host api ≡ o = rw (e, attempts_from) refl in
          subst (Ended (i + suc n)) (sym k) (inl (i, host, api, omega arith, r, e))
      go rec (retry host' api') e =
          let k : attempts_from fixed docker (suc n) i host api
              ≡ attempts_from fixed docker n (suc i) host' api' =
            rw (e, attempts_from) refl in
          let later : suc i + n ≡ i + suc n = omega arith in
          subst (Ended (i + suc n)) (sym k) (
            subst (λ j. Ended j (attempts_from fixed docker n (suc i) host' api')) later
              (rec host' api' (next r e)))

  launch-Ended : Ended max_port_attempts (launch fixed docker first first_api)
  unfolding launch
  launch-Ended = attempts_from-Ended max_port_attempts 0 first first_api start

  -- What Docker's answer to an attempt, on these ports, makes of the loop where it ends it.
  abbrev pub Explains : Answer → ℕ → Option ℕ → Outcome → Type 0
  Explains a host api (launched h p) = (a ≡ runs) × (h ≡ host) × (p ≡ api)
  Explains a host api (port_in_use p) =
      (a ≡ conflict (some p)) × (p ≢ host) × (0 < p → api ≡ some p → fixed ≡ true)
  Explains a host api bad_env_file = a ≡ whitespace
  Explains a host api failed_to_launch = a ≡ broken
  Explains a host api no_free_port = ⊥

  after_attempt-Explains :
      (a : Answer) (host : ℕ) (api : Option ℕ) (o : Outcome)
      → after_attempt fixed a host api ≡ done o
      → Explains a host api o
  unfolding after_attempt
  after_attempt-Explains a host api (launched h p) e =
      (ground (arith, e), ground (arith, e), ground (arith, e))
  after_attempt-Explains a host api (port_in_use p) e =
      (ground (arith, e), λ q. ground (arith, e, q), λ z q. ground (arith, e, z, q))
  after_attempt-Explains a host api bad_env_file e = ground (arith, e)
  after_attempt-Explains a host api failed_to_launch e = ground (arith, e)
  after_attempt-Explains a host api no_free_port e = ground (arith, e)

  -- An outcome with the attempt that gave it, or else 50 attempts without one; each attempt before
  -- moved a port.
  abbrev pub EndsMoved : Outcome → Type 0
  EndsMoved o =
      ((i : ℕ) × (host : ℕ) × (api : Option ℕ) × (i < max_port_attempts)
        × Moved i host api
        × Explains (docker i host api) host api o)
      ⊎ ((o ≡ no_free_port) × (host : ℕ) × (api : Option ℕ) × Moved max_port_attempts host api)

  -- The loop ends with what Docker answered to one of its first 50 attempts: a running container on
  -- its ports, a broken env file, another failure, or a clash over a port that is neither its host
  -- port nor, unless the config sets that, its API port. Or it ends with the error that no port is
  -- free, after 50 attempts. Each attempt before the last moved one of the two ports up by one, and
  -- so did all 50 in the other case; an API port that the config sets never moved.
  pub launch-EndsMoved : EndsMoved (launch fixed docker first first_api)
  launch-EndsMoved = from (launch fixed docker first first_api) launch-Ended
    where
      from : (o : Outcome) → Ended max_port_attempts o → EndsMoved o
      from o (inl (i, h, a, less, r, e)) =
          inl (i, h, a, less, Reached-Moved r, after_attempt-Explains (docker i h a) h a o e)
      from o (inr (e, (h, a, r))) = inr (e, h, a, Reached-Moved r)
