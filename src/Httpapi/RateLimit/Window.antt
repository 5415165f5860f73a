-- ===== src/Httpapi/RateLimit/Window.antt =====
-- One window of the limiter of httpapi/ratelimit.go: the counts of the clients.
use mathlib.Core.List.{append_cancel_left}
use mathlib.Core.Bool.{false≢true}
use cindex.Prelude.{
  ℕ, suc, ◌-◌, ◌≤◌, ◌<◌, ◌≡◌, ◌≢◌, refl, sym, ap, subst, ◌∙◌, inl, inr, arith, Bool, true, false,
  not, Bool-cases, if-cases, some, List, [], ◌∷◌, ltb, ◌==◌, if◌then◌else◌, Text, codes, text_eq,
  text_eq_iff,
}
use cindex.Prelude.Int.{ℤ}
use cindex.Httpapi.RateLimit.{
  Redis, RateLimiter, Decision, served, throttled, decide, is_one, script_answer, rate_limit_script,
  key_of, serve_http,
}
use Prim.Native.Nat.{min}

-- What the limiter relies on: INCR adds one to the count of its key and returns it, and EXPIRE with
-- a positive time leaves the counts alone.
pub record Laws (r : Redis) : Type 0 where
  pub count : Text → r.Store → ℕ
  pub incr_value : (k : Text) (s : r.Store) → (r.incr k s).0 ≡ suc (count k s)
  pub incr_same : (k : Text) (s : r.Store) → count k (r.incr k s).1 ≡ suc (count k s)
  pub incr_other : (k j : Text) (s : r.Store) → k ≢ j → count j (r.incr k s).1 ≡ count j s
  pub expire_count :
      (k j : Text) (t : ℕ) (s : r.Store) → 1 ≤ t → count j (r.expire k t s) ≡ count j s

-- The requests of one IP in a list of requests.
unfoldable pub requests : Text → List Text → ℕ
requests ip [] = 0
requests ip (other ∷ ips) =
    let rest = requests ip ips in if text_eq other ip then suc rest else rest

unfoldable pub is_served : Decision → Bool
is_served served = true
is_served (throttled _) = false

-- One more request of the IP, if it is one of its own and is served.
tally : Bool → Bool → ℕ → ℕ
tally false b rest = rest
tally true true rest = suc rest
tally true false rest = rest

ltb-lt : (a b : ℕ) → ltb a b ≡ true → a < b
ltb-lt a b h = ground (arith, h)

ltb-ge : (a b : ℕ) → ltb a b ≡ false → b ≤ a
ltb-ge a b h = ground (arith, h)

tally-eq-min :
    (limit c q rest : ℕ) (b : Bool)
    → b ≡ ltb c limit
    → rest ≡ min (limit - suc c) q
    → tally true b rest ≡ min (limit - c) (suc q)
unfolding tally
tally-eq-min limit c q rest true e h = omega (arith, h, ltb-lt c limit (sym e))
tally-eq-min limit c q rest false e h = omega (arith, h, ltb-ge c limit (sym e))

is_served-decide :
    (window : ℕ) (refuse : Bool) (ttl : ℤ)
    → is_served (decide window (some (script_answer refuse ttl))) ≡ not refuse
unfolding is_served decide is_one script_answer
is_served-decide window true ttl = refl
is_served-decide window false ttl = refl

not-ltb-suc : (limit n : ℕ) → not (ltb limit (suc n)) ≡ ltb n limit
not-ltb-suc limit n = ground arith

module _ (r : Redis) (l : RateLimiter) where
  -- The requests of one IP that are served, among the requests of `ips` in sequence.
  unfoldable pub served_requests : Text → List Text → r.Store → ℕ
  unfolding serve_http is_served tally
  served_requests ip [] s = 0
  served_requests ip (other ∷ ips) s =
      let step = serve_http r l true other s in
      tally (text_eq other ip) (is_served step.0) (served_requests ip ips step.1)

  module _ (laws : Laws r) (window : 1 ≤ l.window) where
    ip_count : Text → r.Store → ℕ
    ip_count ip s = laws.count (key_of r l ip) s

    served-step :
        (ip : Text) (s : r.Store)
        → is_served (serve_http r l true ip s).0 ≡ ltb (ip_count ip s) l.limit
    unfolding serve_http rate_limit_script ip_count
    served-step ip s =
        is_served-decide l.window _ _
        ∙ rw (laws.incr_value (key_of r l ip) s) (not-ltb-suc l.limit (ip_count ip s))

    -- The script leaves the counts as INCR does.
    kept-ip_count :
        (ip other : Text) (s : r.Store)
        → ip_count ip (serve_http r l true other s).1
          ≡ laws.count (key_of r l ip) (r.incr (key_of r l other) s).1
    unfolding serve_http rate_limit_script ip_count
    kept-ip_count ip other s =
        if-cases
          (λ t.
            laws.count (key_of r l ip) t
            ≡ laws.count (key_of r l ip) (r.incr (key_of r l other) s).1)
          ((r.incr (key_of r l other) s).0 == 1) _ _
          (λ _. laws.expire_count (key_of r l other) (key_of r l ip) l.window _ window) (λ _. refl)

    key_of-injective : (ip other : Text) → key_of r l ip ≡ key_of r l other → ip ≡ other
    unfolding key_of codes
    key_of-injective ip other e =
        append_cancel_left (58 ∷ []) ip other (append_cancel_left l.prefix _ _ e)

    ip_count-same :
        (ip : Text) (s : r.Store) → ip_count ip (serve_http r l true ip s).1 ≡ suc (ip_count ip s)
    unfolding ip_count
    ip_count-same ip s = kept-ip_count ip ip s ∙ laws.incr_same (key_of r l ip) s

    ip_count-other :
        (ip other : Text) (s : r.Store)
        → text_eq other ip ≡ false
        → ip_count ip (serve_http r l true other s).1 ≡ ip_count ip s
    unfolding ip_count
    ip_count-other ip other s e =
        kept-ip_count ip other s
        ∙ laws.incr_other (key_of r l other) (key_of r l ip) s
            (λ same. false≢true (sym e ∙ (text_eq_iff other ip).1 (key_of-injective other ip same)))

    -- While no count expires, the limiter serves the requests of an IP until its count reaches the
    -- limit and refuses the others, whatever the requests of other IPs between them.
    pub served_requests-eq-min :
        (ip : Text) (ips : List Text) (s : r.Store)
        → served_requests ip ips s ≡ min (l.limit - laws.count (key_of r l ip) s) (requests ip ips)
    unfolding served_requests requests ip_count
    served_requests-eq-min ip [] s = omega arith
    served_requests-eq-min ip (other ∷ ips) s = elim (Bool-cases (text_eq other ip)) [
      | inl e ↦ rw e (
          subst
            (λ o.
              tally true (is_served (serve_http r l true o s).0)
                (served_requests ip ips (serve_http r l true o s).1)
              ≡ min (l.limit - laws.count (key_of r l ip) s) (suc (requests ip ips)))
            (sym ((text_eq_iff other ip).0 e))
            (tally-eq-min l.limit (ip_count ip s) (requests ip ips) _ _ (served-step ip s) (
              served_requests-eq-min ip ips (serve_http r l true ip s).1
              ∙ ap (λ c. min (l.limit - c) (requests ip ips)) (ip_count-same ip s))))
      | inr e ↦ rw e (
          unfold tally in
          served_requests-eq-min ip ips (serve_http r l true other s).1
          ∙ ap (λ c. min (l.limit - c) (requests ip ips)) (ip_count-other ip other s e))
    ]
