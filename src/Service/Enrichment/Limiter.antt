-- ===== src/Service/Enrichment/Limiter.antt =====
-- The limiter of service/doi_enrichment.go, for one API, whose calls its mutex puts in sequence.
-- Times are in milliseconds.
use cindex.Prelude.{
  ℕ, ◌+◌, ◌-◌, ◌≤◌, ◌≡◌, refl, arith, Option, none, some, List, [], ◌∷◌, ltb, if◌then◌else◌,
  if-cases, Text,
}

unfoldable pub crossref_interval : ℕ
crossref_interval = 100

unfoldable pub openalex_interval : ℕ
openalex_interval = 10

unfoldable pub s2_interval : ℕ
s2_interval = 1000

-- A call of wait: the time of its start, how much later than asked the timer and the clock read, and
-- the error of a context that is done before the timer.
pub record WaitCall : Type 0 where
  pub now : ℕ
  pub late : ℕ
  pub stop : Option Text

after_timer : Option Text → ℕ → Option ℕ
after_timer none t = some t
after_timer (some text) t = none

-- The time that a call of wait writes into rate.last, `none` if it returns an error.
unfoldable pub wait : ℕ → ℕ → WaitCall → Option ℕ
unfolding after_timer
wait interval last call =
    if ltb (call.now - last) interval
    then after_timer call.stop (call.now + (interval - (call.now - last)) + call.late)
    else some (call.now + call.late)

pass : Option ℕ → (ℕ → List ℕ) → List ℕ → List ℕ
pass none after same = same
pass (some t) after same = t ∷ after t

-- The times at which the calls that return no error let their requests pass, with rate.last.
unfoldable pub passed : ℕ → ℕ → List WaitCall → List ℕ
unfolding wait pass
passed interval last [] = []
passed interval last (call ∷ calls) =
    pass (wait interval last call) (λ t. passed interval t calls) (passed interval last calls)

-- Every time is at least the interval behind the one before it.
unfoldable pub Spaced : ℕ → ℕ → List ℕ → Type 0
Spaced interval last [] = Unit
Spaced interval last (t ∷ ts) = (last + interval ≤ t) × Spaced interval t ts

-- The clock shows no time before the last one it was read at.
unfoldable pub Ordered : ℕ → ℕ → List WaitCall → Type 0
unfolding wait
Ordered interval last [] = Unit
Ordered interval last (call ∷ calls) =
    (last ≤ call.now)
    × ((t : ℕ) → wait interval last call ≡ some t → Ordered interval t calls)
    × (wait interval last call ≡ none → Ordered interval last calls)

after_timer-late :
    (interval last now late t : ℕ) (stop : Option Text)
    → last ≤ now
    → after_timer stop (now + (interval - (now - last)) + late) ≡ some t
    → last + interval ≤ t
unfolding after_timer
after_timer-late interval last now late t none h e =
    let same : now + (interval - (now - last)) + late ≡ t = cc in omega (arith, h, same)
after_timer-late interval last now late t (some text) h e = cc

wait-late :
    (interval last : ℕ) (call : WaitCall) (t : ℕ)
    → last ≤ call.now
    → wait interval last call ≡ some t
    → last + interval ≤ t
unfolding wait
wait-late interval last call t h =
    if-cases (λ r. r ≡ some t → last + interval ≤ t) (ltb (call.now - last) interval) _ _
      (λ _ e. after_timer-late interval last call.now call.late t call.stop h e)
      (λ far e.
        let same : call.now + call.late ≡ t = cc in
        let reached : interval ≤ call.now - last = ground (arith, far) in
        omega (arith, h, same, reached))

pass-Spaced :
    (interval last : ℕ) (r : Option ℕ) (after : ℕ → List ℕ) (same : List ℕ)
    → ((t : ℕ) → r ≡ some t → (last + interval ≤ t) × Spaced interval t (after t))
    → (r ≡ none → Spaced interval last same)
    → Spaced interval last (pass r after same)
unfolding pass Spaced
pass-Spaced interval last none after same h k = k refl
pass-Spaced interval last (some t) after same h k = h t refl

-- However the timers fire and the contexts end, the requests that one API's limiter lets pass are at
-- least its interval apart, if the clock never goes back.
pub passed-Spaced :
    (interval last : ℕ) (calls : List WaitCall)
    → Ordered interval last calls
    → Spaced interval last (passed interval last calls)
unfolding passed Spaced Ordered
passed-Spaced interval last [] h = tt
passed-Spaced interval last (call ∷ calls) (p, after, same) =
    pass-Spaced interval last (wait interval last call) (λ t. passed interval t calls)
      (passed interval last calls)
      (λ t e. (wait-late interval last call t p e, passed-Spaced interval t calls (after t e)))
      (λ e. passed-Spaced interval last calls (same e))
