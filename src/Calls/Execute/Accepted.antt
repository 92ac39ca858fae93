-- ===== src/Calls/Execute/Accepted.antt =====
-- Which requests the queue holds.
use canyonos.Prelude.{
  ℕ, ◌≡◌, refl, Bool, true, false, ◌&&◌, ◌||◌, not, String, List, [], ◌∷◌, Option, none, some, All,
  arith, Bool-cases, Option-cases, inl, inr, subst, sym, ◌∙◌,
}
use canyonos.Governance.{Rules, Refusal}
use canyonos.Governance.Refusals.{IsAdmitted, refuse_call-none}
use canyonos.Calls.Waits.{if_text}
use canyonos.Calls.Execute.{
  Payload, Request, not_json, not_object, object, Arrival, Frontend, is_forwarded, unless_accepted,
  verdict, empty_frontend, admit, enqueue, answer, take_in, execute, execute_all,
}
use canyonos.Calls.Execute.Keys.{
  Pairwise, All-snoc, All-map, Pairwise-snoc, AreApart, Holds, some_injective,
  unless_accepted-AreApart, unless_accepted-kept, unless_accepted-claimed,
}

module _ {V : Type 0} (same : Option V → V → Bool) where
  -- Governance lets the call through, with the rules and the context of its arrival.
  abbrev pub MayRun : Payload → Arrival V → Type 0
  MayRun p a =
      (agent function future : String)
      → if_text p.service ≡ some agent
      → if_text p.function ≡ some function
      → if_text p.future_id ≡ some future
      → (c : List (String × V)) × (a.context ≡ some c) × IsAdmitted same a.rules agent c

  -- What is forwarded did not come while the replica drained, and a first hop may run, if `admit` was
  -- set.
  abbrev pub IsLetIn : Request → Arrival V → Type 0
  IsLetIn (object p) a =
      (p.has_route ≡ true → a.refusing ≡ false)
      × (p.has_route ≡ false → a.admits ≡ true → MayRun p a)
  IsLetIn r a = Unit

  -- The queue is sound: requests for one future are apart, and each was let in.
  abbrev pub IsSound : List (Arrival V) → Type 0
  IsSound q = Pairwise AreApart q × All (λ a. IsLetIn a.request a) q

  abbrev IsKept : Frontend V → Type 0
  IsKept s = IsSound s.queue × All (Holds s.accepted) s.queue

module _ {V : Type 0} (same : Option V → V → Bool) where
  enqueue-IsKept :
      (a : Arrival V) (s : Frontend V) (keys : List (String × ℕ))
      → unless_accepted a s.accepted ≡ some keys
      → IsKept same s
      → IsLetIn same a.request a
      → IsKept same (enqueue same a (record s { accepted = keys }))
  enqueue-IsKept a s keys e ((apart, let_in), held) l = (
    (
      Pairwise-snoc AreApart s.queue a apart (
          All-map (Holds s.accepted) (λ x. AreApart x a) s.queue
            (λ x. unless_accepted-AreApart a s.accepted keys x e) held),
      All-snoc (λ x. IsLetIn same x.request x) s.queue a let_in l,
    ),
    All-snoc (Holds keys) s.queue a
        (All-map (Holds s.accepted) (Holds keys) s.queue
          (λ x. unless_accepted-kept a s.accepted keys x e) held)
        (unless_accepted-claimed a s.accepted keys e),
  )

  claimed-IsKept :
      (a : Arrival V) (s : Frontend V) (keys : List (String × ℕ))
      → unless_accepted a s.accepted ≡ some keys
      → IsKept same s
      → IsKept same (record s { accepted = keys })
  claimed-IsKept a s keys e (sound, held) = (
    sound,
    All-map (Holds s.accepted) (Holds keys) s.queue
        (λ x. unless_accepted-kept a s.accepted keys x e) held,
  )

  verdict-none :
      (rules : Rules V) (agent : String) (o : Option (List (String × V)))
      → verdict same rules agent o ≡ some none
      → (c : List (String × V)) × (o ≡ some c) × IsAdmitted same rules agent c
  verdict-none rules agent none e = absurd (cc e)
  verdict-none rules agent (some c) e =
      (c, refl, (refuse_call-none same rules agent c).0 (some_injective e))

  -- A call that `_admit` lets through may run.
  admit-MayRun : (p : Payload) (a : Arrival V) → admit same p a ≡ some none → MayRun same p a
  unfolding admit
  admit-MayRun p a e agent function future s f i =
      verdict-none a.rules agent a.context (sym judged ∙ e)
    where
      judged : admit same p a ≡ verdict same a.rules agent a.context
      judged = rw (s, f, i) refl

  answer-IsKept :
      (p : Payload) (a : Arrival V) (s : Frontend V) (keys : List (String × ℕ))
      → a.request ≡ object p
      → p.has_route ≡ false
      → unless_accepted a s.accepted ≡ some keys
      → IsKept same s
      → (o : Option (Option Refusal)) → admit same p a ≡ o
      → IsKept same (answer same p.future_id a (record s { accepted = keys }) o).0
  answer-IsKept p a s keys r n e h none m = claimed-IsKept a s keys e h
  answer-IsKept p a s keys r n e h (some none) m =
      enqueue-IsKept a s keys e h (
        subst (λ q. IsLetIn same q a) (sym r)
          ((λ y. absurd (cc (n, y))), λ _ _. admit-MayRun p a m))
  answer-IsKept p a s keys r n e h (some (some refusal)) m = claimed-IsKept a s keys e h

  take_in-IsKept :
      (r : Request) (a : Arrival V) (s : Frontend V) (keys : List (String × ℕ))
      → a.request ≡ r
      → (a.refusing && is_forwarded r) ≡ false
      → unless_accepted a s.accepted ≡ some keys
      → IsKept same s
      → IsKept same (take_in same r a (record s { accepted = keys })).0
  unfolding admit
  take_in-IsKept not_json a s keys q up e h =
      enqueue-IsKept a s keys e h (subst (λ q. IsLetIn same q a) (sym q) tt)
  take_in-IsKept not_object a s keys q up e h =
      enqueue-IsKept a s keys e h (subst (λ q. IsLetIn same q a) (sym q) tt)
  take_in-IsKept (object p) a s keys q up e h = elim (Bool-cases (p.has_route || not a.admits)) [
    | inl y ↦ rw y (
        enqueue-IsKept a s keys e h (
          subst (λ q. IsLetIn same q a) (sym q)
            ((λ r. ground (arith, up, r)), λ n t. absurd (ground (arith, y, n, t)))))
    | inr n ↦ rw n (answer-IsKept p a s keys q (ground (arith, n)) e h (admit same p a) refl)
  ]

  execute-IsKept :
      (a : Arrival V) (s : Frontend V) → IsKept same s → IsKept same (execute same a s).0
  unfolding execute
  execute-IsKept a s h = elim (Bool-cases (a.refusing && is_forwarded a.request)) [
    | inl y ↦ rw y h
    | inr n ↦ elim (Option-cases (unless_accepted a s.accepted)) [
      | inl d ↦ rw n (rw d h)
      | inr (keys, e) ↦ rw n (rw e (take_in-IsKept a.request a s keys refl n e h))
    ]
  ]

  execute_all-IsKept :
      (arrivals : List (Arrival V)) (s : Frontend V)
      → IsKept same s
      → IsKept same (execute_all same arrivals s)
  unfolding execute_all
  execute_all-IsKept [] s h = h
  execute_all-IsKept (a ∷ rest) s h =
      execute_all-IsKept rest (execute same a s).0 (execute-IsKept a s h)

  pub execute_all-IsSound :
      (arrivals : List (Arrival V))
      → IsSound same (execute_all same arrivals (empty_frontend V)).queue
  execute_all-IsSound arrivals = (execute_all-IsKept arrivals (empty_frontend V) ((tt, tt), tt)).0
