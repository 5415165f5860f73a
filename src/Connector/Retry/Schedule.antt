-- ===== src/Connector/Retry/Schedule.antt =====
-- The loop of connector/transport.go: when it ends, and what it does until then.
use cindex.Prelude.{
  ℕ, zero, suc, ◌+◌, ◌*◌, ◌≤◌, ◌<◌, ◌≡◌, ◌⊎◌, inl, inr, refl, sym, ap, subst, ◌∙◌, arith, Bool,
  true, false, ◌==◌, Bool-cases, Option, none, some, List, [], ◌∷◌, Text,
}
use cindex.Connector.Errors.{ConnectorError, Reply, got, refused}
use cindex.Connector.Retry.{
  Attempt, done, failed, Action, called, waited, Run, push, after_attempt, retry_from, retry,
}

module _ {ℓ} {A : Type ℓ} where
  -- Whether another attempt may follow.
  unfoldable pub may_retry : Attempt A → Bool
  may_retry (done _) = false
  may_retry (failed _ again) = again

  unfoldable pub reply_of : Attempt A → Reply A
  reply_of (done a) = got a
  reply_of (failed e _) = refused e

-- The calls `n`, …, `n + k` with the pauses between them.
unfoldable pub schedule : ℕ → ℕ → List Action
schedule n zero = called n ∷ []
schedule n (suc k) = called n ∷ waited (n * 600) ∷ schedule (suc n) k

unfoldable pub calls : List Action → ℕ
calls [] = 0
calls (called _ ∷ actions) = suc (calls actions)
calls (waited _ ∷ actions) = calls actions

unfoldable pub pause : List Action → ℕ
pause [] = 0
pause (called _ ∷ actions) = pause actions
pause (waited t ∷ actions) = t + pause actions

-- The end of a run: attempt `m`, the `k`-th after attempt `n`, is the first one after which no other
-- attempt may follow or is left.
pub record Settled {ℓ} (A : Type ℓ) (once : ℕ → Attempt A) (left n : ℕ) (run : Run A) : Type ℓ where
  pub m : ℕ
  pub k : ℕ
  pub place : m ≡ n + k
  pub in_time : k ≤ left
  pub before : (i : ℕ) → n ≤ i → i < m → may_retry (once i) ≡ true
  pub last_one : (may_retry (once m) ≡ false) ⊎ (k ≡ left)
  pub answer : run ≡ (reply_of (once m), schedule n k)

-- The sum of the pauses behind `left` attempts from number `n` on.
unfoldable pub backoff : ℕ → ℕ → ℕ
backoff n zero = 0
backoff n (suc left) = n * 600 + backoff (suc n) left

-- A context that is not cancelled.
abbrev pub never : ℕ → Option Text
never _ = none

first_or_later : (n i : ℕ) → n ≤ i → (n ≡ i) ⊎ (suc n ≤ i)
first_or_later n i p = elim (Bool-cases (n == i)) [
  | inl e ↦ inl (ground arith)
  | inr e ↦ inr (ground (arith, p))
]

module _ {ℓ} {A : Type ℓ} (blank : A) (once : ℕ → Attempt A) where
  -- The first attempt is the last one.
  at_once :
      (left n : ℕ) (run : Run A)
      → (may_retry (once n) ≡ false) ⊎ (0 ≡ left)
      → run ≡ (reply_of (once n), called n ∷ [])
      → Settled A once left n run
  unfolding schedule
  at_once left n run h e = record {
    m = n;
    k = 0;
    place = omega arith;
    in_time = omega arith;
    before = λ i p q. absurd (omega (arith, p, q));
    last_one = h;
    answer = e;
  }

  -- The first attempt and a pause in front of a run that settles.
  later :
      (left n : ℕ) (run : Run A)
      → may_retry (once n) ≡ true
      → Settled A once left (suc n) run
      → Settled A once (suc left) n (push (called n) (push (waited (n * 600)) run))
  unfolding schedule
  later left n run again h = record {
    m = h.m;
    k = suc h.k;
    place = omega (arith, h.place);
    in_time = omega (arith, h.in_time);
    before = λ i p q. elim (first_or_later n i p) [
      | inl e ↦ subst (λ j. may_retry (once j) ≡ true) e again
      | inr above ↦ h.before i above q
    ];
    last_one = elim h.last_one [ inl e ↦ inl e | inr e ↦ inr (ap suc e) ];
    answer = ap (λ r. push (called n) (push (waited (n * 600)) r)) h.answer;
  }

  -- What the rest of the loop does after an error.
  GoesOn : ℕ → ℕ → (ConnectorError → Run A) → Type ℓ
  GoesOn zero n rest = (e : ConnectorError) → rest e ≡ (refused e, [])
  GoesOn (suc left) n rest = (e : ConnectorError) → Settled A once left (suc n) (rest e)

  settle :
      (left n : ℕ) (a : Attempt A) (rest : ConnectorError → Run A)
      → once n ≡ a
      → GoesOn left n rest
      → Settled A once left n (push (called n) (after_attempt a left n none rest))
  unfolding after_attempt may_retry reply_of GoesOn
  settle left n (done a) rest e h =
      at_once left n _ (inl (ap may_retry e)) (ap (λ x. (reply_of x, called n ∷ [])) (sym e))
  settle left n (failed x false) rest e h =
      at_once left n _ (inl (ap may_retry e)) (ap (λ y. (reply_of y, called n ∷ [])) (sym e))
  settle zero n (failed x true) rest e h =
      at_once zero n _ (inr refl)
        (ap (push (called n)) (h x) ∙ ap (λ y. (reply_of y, called n ∷ [])) (sym e))
  settle (suc left) n (failed x true) rest e h = later left n (rest x) (ap may_retry e) (h x)

  retry_from-Settled :
      (left n : ℕ) (last : Option ConnectorError)
      → Settled A once left n (retry_from blank once never (suc left) n last)
  unfolding retry_from GoesOn
  retry_from-Settled zero n last =
      settle zero n (once n) (λ e. retry_from blank once never zero (suc n) (some e)) refl
        (λ e. refl)
  retry_from-Settled (suc left) n last =
      settle (suc left) n (once n) (λ e. retry_from blank once never (suc left) (suc n) (some e))
        refl (λ e. retry_from-Settled left (suc n) (some e))

  -- If the context is not cancelled, a loop of at least one attempt returns the answer of the first
  -- attempt after which no other may follow, or of the last attempt there is, and it calls once for
  -- each attempt up to it, with pauses of 600 ms, 1200 ms and so on between them.
  pub retry-Settled : (left : ℕ) → Settled A once left 1 (retry blank once never (suc left))
  unfolding retry
  retry-Settled left = retry_from-Settled left 1 none

  Bounded : ℕ → ℕ → Run A → Type 0
  Bounded zero n run = (calls run.1 ≤ 0) × (pause run.1 ≤ 0)
  Bounded (suc left) n run = (calls run.1 ≤ suc left) × (pause run.1 ≤ backoff n left)

  after-Bounded :
      (left n : ℕ) (a : Attempt A) (stop : Option Text) (rest : ConnectorError → Run A)
      → ((e : ConnectorError) → Bounded left (suc n) (rest e))
      → Bounded (suc left) n (push (called n) (after_attempt a left n stop rest))
  unfolding after_attempt Bounded calls pause backoff
  after-Bounded left n (done a) stop rest h = (omega arith, omega arith)
  after-Bounded left n (failed e false) stop rest h = (omega arith, omega arith)
  after-Bounded zero n (failed e true) stop rest h =
      (omega (arith, (h e).0), omega (arith, (h e).1))
  after-Bounded (suc left) n (failed e true) none rest h =
      (omega (arith, (h e).0), omega (arith, (h e).1))
  after-Bounded (suc left) n (failed e true) (some text) rest h = (omega arith, omega arith)

  retry_from-Bounded :
      (stop : ℕ → Option Text) (left n : ℕ) (last : Option ConnectorError)
      → Bounded left n (retry_from blank once stop left n last)
  unfolding retry_from Bounded calls pause
  retry_from-Bounded stop zero n last = (omega arith, omega arith)
  retry_from-Bounded stop (suc left) n last =
      after-Bounded left n (once n) (stop n) (λ e. retry_from blank once stop left (suc n) (some e))
        (λ e. retry_from-Bounded stop left (suc n) (some e))

  -- Whatever the context does, a loop over `left + 1` attempts calls at most so often, and pauses no
  -- longer than the sum of its pauses, 600 ms, 1200 ms and so on.
  pub retry-bounds :
      (stop : ℕ → Option Text) (left : ℕ)
      → (calls (retry blank once stop (suc left)).1 ≤ suc left)
        × (pause (retry blank once stop (suc left)).1 ≤ backoff 1 left)
  unfolding retry Bounded
  retry-bounds stop left = retry_from-Bounded stop (suc left) 1 none
