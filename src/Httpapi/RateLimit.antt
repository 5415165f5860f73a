-- ===== src/Httpapi/RateLimit.antt =====
-- The limiter of backend/internal/httpapi/ratelimit.go. Redis is a parameter, with the commands that
-- the limiter's script calls; a time to live is in seconds.
pub mod Window
use cindex.Prelude.{
  ℕ, zero, suc, Bool, true, false, ◌||◌, Option, none, some, List, [], ◌∷◌, ◌++◌, ltb, ◌==◌,
  if◌then◌else◌, Text, codes, is_empty,
}
use cindex.Prelude.Int.{ℤ, pos, negsuc}
use cindex.Go.Strings.{split_at, trim_left_set, trim_right_set}
use cindex.Go.Strconv.{itoa}

pub record Redis : Type 1 where
  pub Store : Type 0
  pub incr : Text → Store → ℕ × Store
  pub expire : Text → ℕ → Store → Store
  pub ttl : Text → Store → ℤ

pub record RateLimiter : Type 0 where
  pub prefix : Text
  pub limit : ℕ
  pub window : ℕ

-- Whether newRateLimiter wraps the handler; `none` is a nil client.
unfoldable pub is_enabled : {R : Type 1} → Option R → ℤ → Bool
is_enabled none limit = false
is_enabled (some r) (pos zero) = false
is_enabled (some r) (pos (suc n)) = true
is_enabled (some r) (negsuc n) = false

is_blank : ℕ → Bool
is_blank c = c == 32 || c == 9

-- trimSpace
unfoldable pub trim_space_tab : Text → Text
unfolding is_blank trim_left_set trim_right_set
trim_space_tab s = trim_right_set is_blank (trim_left_set is_blank s)

trim_all : List Text → List Text
trim_all [] = []
trim_all (s ∷ parts) = trim_space_tab s ∷ trim_all parts

-- splitComma
unfoldable pub split_comma : Text → List Text
unfolding trim_all trim_space_tab split_at
split_comma s = trim_all (split_at 44 s)

first_full : List Text → Text
first_full [] = []
first_full (part ∷ parts) = if is_empty part then first_full parts else part

-- firstIP
unfoldable pub first_ip : Text → Text
unfolding split_comma first_full
first_ip xff = first_full (split_comma xff)

host_or : Option Text → Text → Text
host_or (some host) remote_addr = host
host_or none remote_addr = remote_addr

-- clientIP, over net.SplitHostPort.
unfoldable pub client_ip : (Text → Option Text) → Text → Text → Text
unfolding first_ip host_or
client_ip split_host_port xff remote_addr =
    let remote = host_or (split_host_port remote_addr) remote_addr in
    if is_empty xff then remote else if is_empty (first_ip xff) then remote else first_ip xff

pub data Decision : Type 0 where
  served : Decision
  -- Status 429 with this Retry-After.
  throttled : Text → Decision

is_one : ℤ → Bool
is_one (pos n) = n == 1
is_one (negsuc n) = false

-- The time to live if it is positive, and the window if not.
retry_after : ℕ → ℤ → ℤ
retry_after window (pos zero) = pos window
retry_after window (pos (suc n)) = pos (suc n)
retry_after window (negsuc n) = pos window

-- What ServeHTTP does with the answer of Eval; `none` is an error.
unfoldable pub decide : ℕ → Option (List ℤ) → Decision
unfolding is_one retry_after itoa
decide window none = served
decide window (some []) = throttled (itoa (pos window))
decide window (some (r ∷ [])) = throttled (itoa (pos window))
decide window (some (r ∷ ttl ∷ rest)) =
    if is_one r then served else throttled (itoa (retry_after window ttl))

-- The two answers of the script.
unfoldable pub script_answer : Bool → ℤ → List ℤ
script_answer true ttl = pos 0 ∷ ttl ∷ []
script_answer false ttl = pos 1 ∷ pos 0 ∷ []

module _ (r : Redis) where
  -- rateLimitScript
  unfoldable pub rate_limit_script : Text → ℕ → ℕ → r.Store → List ℤ × r.Store
  unfolding script_answer
  rate_limit_script key limit window s =
      let current = (r.incr key s).0 in
      let counted = (r.incr key s).1 in
      let kept = if current == 1 then r.expire key window counted else counted in
      (script_answer (ltb limit current) (r.ttl key kept), kept)

  unfoldable pub key_of : RateLimiter → Text → Text
  key_of l ip = l.prefix ++ (codes ":" ++ ip)

  -- ServeHTTP for a client's IP; the flag says whether Redis is reached.
  unfoldable pub serve_http : RateLimiter → Bool → Text → r.Store → Decision × r.Store
  unfolding rate_limit_script decide key_of
  serve_http l false ip s = (decide l.window none, s)
  serve_http l true ip s =
      let answer = rate_limit_script (key_of l ip) l.limit l.window s in
      (decide l.window (some answer.0), answer.1)
