-- ===== src/Calls/Execute/Fates.antt =====
-- What becomes of every request that `Execute` gets.
use canyonos.Prelude.{
  ℕ, ◌≡◌, refl, ◌<◌, ◌+◌, Bool, true, false, ◌&&◌, ◌||◌, not, String, List, [], ◌∷◌, ◌++◌, Option,
  none, some, if◌then◌else◌, arith, Bool-cases, Option-cases, inl, inr, ◌⊎◌,
}
use canyonos.Governance.{Refusal}
use canyonos.Governance.Refusals.{refuse_call-none}
use canyonos.Calls.Waits.{if_text}
use canyonos.Calls.Execute.{
  queued, Payload, Request, not_json, not_object, object, Arrival, Frontend, dedup_ttl,
  is_forwarded, key_of, unless_accepted, admit, enqueue, answer, take_in, execute,
}
use canyonos.Calls.Execute.Accepted.{MayRun}

module _ {A : Type 0} where
  abbrev pub Some : (A → Type 0) → List A → Type 0
  Some P [] = ⊥
  Some P (x ∷ xs) = P x ⊎ Some P xs

  pub Some-snoc : (P : A → Type 0) (xs : List A) (y : A) → P y → Some P (xs ++ (y ∷ []))
  Some-snoc P [] y p = inl p
  Some-snoc P (x ∷ xs) y p = inr (Some-snoc P xs y p)

  pub Some-before : (P : A → Type 0) (xs : List A) (y : A) → Some P xs → Some P (xs ++ (y ∷ []))
  Some-before P [] y h = absurd h
  Some-before P (x ∷ xs) y (inl p) = inl p
  Some-before P (x ∷ xs) y (inr h) = inr (Some-before P xs y h)

module _ {V : Type 0} where
  -- A request for the same future came before, less than the lifetime of a key ago.
  abbrev pub IsRepeated : List (Arrival V) → Arrival V → Type 0
  IsRepeated before a =
      (f : String) × (key_of a ≡ some f)
      × Some (λ x. (key_of x ≡ some f) × (a.at < x.at + dedup_ttl)) before

module _ {V : Type 0} (same : Option V → V → Bool) where
  -- What becomes of a request: it is on the queue, it was forwarded to a replica that drains, it is
  -- repeated, or it is a first hop that may not run, `admit` being set.
  pub data Fate (before queue : List (Arrival V)) (a : Arrival V) : Type 0 where
    is_queued : Some (λ x. x ≡ a) queue → Fate before queue a
    is_turned_away : a.refusing ≡ true → is_forwarded a.request ≡ true → Fate before queue a
    is_repeated : IsRepeated before a → Fate before queue a
    is_refused :
        (p : Payload)
        → a.request ≡ object p
        → p.has_route ≡ false
        → a.admits ≡ true
        → ¬ MayRun same p a
        → Fate before queue a

  -- Every request of a list has its fate, those before it counting from the last.
  abbrev pub AllFates : List (Arrival V) → List (Arrival V) → List (Arrival V) → Type 0
  AllFates before [] queue = Unit
  AllFates before (a ∷ rest) queue = Fate before queue a × AllFates (a ∷ before) rest queue

  MayRun-admit : (p : Payload) (a : Arrival V) → MayRun same p a → admit same p a ≡ some none
  unfolding admit
  MayRun-admit p a h = elim (Option-cases (if_text p.service)) [
    | inl n ↦ rw n refl
    | inr (agent, s) ↦ elim (Option-cases (if_text p.function)) [
      | inl n ↦ rw (s, n) refl
      | inr (function, f) ↦ elim (Option-cases (if_text p.future_id)) [
        | inl n ↦ rw (s, f, n) refl
        | inr (future, i) ↦
            let (c, e, l) = h agent function future s f i in
            rw (s, f, i, e) (rw ((refuse_call-none same a.rules agent c).1 l) refl)
      ]
    ]
  ]

  abbrev pub IsRefused : Arrival V → Type 0
  IsRefused a =
      (p : Payload) × (a.request ≡ object p)
      × (p.has_route ≡ false)
      × (a.admits ≡ true)
      × ¬ MayRun same p a

  -- A request that is no duplicate is put on the queue, or refused.
  pub data Taken (a : Arrival V) (s : Frontend V) (result : Frontend V) : Type 0 where
    is_put : result ≡ enqueue same a s → Taken a s result
    is_left : result.accepted ≡ s.accepted → result.queue ≡ s.queue → IsRefused a → Taken a s result

  answer-Taken :
      (p : Payload) (a : Arrival V) (s : Frontend V)
      → a.request ≡ object p
      → p.has_route ≡ false
      → a.admits ≡ true
      → (o : Option (Option Refusal)) → admit same p a ≡ o
      → Taken a s (answer same p.future_id a s o).0
  answer-Taken p a s r n t none m = is_left refl refl (p, r, n, t, λ h. cc (MayRun-admit p a h, m))
  answer-Taken p a s r n t (some none) m = is_put refl
  answer-Taken p a s r n t (some (some refusal)) m =
      is_left refl refl (p, r, n, t, λ h. cc (MayRun-admit p a h, m))

  routed-Taken :
      (b : Bool) (p : Payload) (a : Arrival V) (s : Frontend V)
      → a.request ≡ object p
      → (p.has_route || not a.admits) ≡ b
      → Taken a s
          (if b then (enqueue same a s, queued) else answer same p.future_id a s (admit same p a)).0
  routed-Taken true p a s r e = is_put refl
  routed-Taken false p a s r e =
      answer-Taken p a s r (ground (arith, e)) (ground (arith, e)) (admit same p a) refl

  take_in-Taken :
      (r : Request) (a : Arrival V) (s : Frontend V)
      → a.request ≡ r
      → Taken a s (take_in same r a s).0
  unfolding admit
  take_in-Taken not_json a s e = is_put refl
  take_in-Taken not_object a s e = is_put refl
  take_in-Taken (object p) a s e = routed-Taken (p.has_route || not a.admits) p a s e refl

  -- The three ways of `Execute`.
  pub data Executed (a : Arrival V) (s : Frontend V) (result : Frontend V) : Type 0 where
    turns_away :
        result ≡ s → a.refusing ≡ true → is_forwarded a.request ≡ true → Executed a s result
    skips : result ≡ s → unless_accepted a s.accepted ≡ none → Executed a s result
    takes :
        (keys : List (String × ℕ))
        → unless_accepted a s.accepted ≡ some keys
        → Taken a (record s { accepted = keys }) result
        → Executed a s result

  pub execute_cases : (a : Arrival V) (s : Frontend V) → Executed a s (execute same a s).0
  unfolding execute
  execute_cases a s = elim (Bool-cases (a.refusing && is_forwarded a.request)) [
    | inl y ↦ turns_away (rw y refl) (ground (arith, y)) (ground (arith, y))
    | inr n ↦ elim (Option-cases (unless_accepted a s.accepted)) [
      | inl d ↦ skips (rw n (rw d refl)) d
      | inr (keys, e) ↦
          takes keys e (rw n (rw e (take_in-Taken a.request a (record s { accepted = keys }) refl)))
    ]
  ]
