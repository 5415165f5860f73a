-- ===== src/Connector/Transport/Policy.antt =====
-- When a method of `Transport` (connector/transport.go) tries a request again, and when it ends.
use cindex.Prelude.{
  ℕ, suc, ◌≤◌, ◌<◌, ◌≡◌, ◌⊎◌, inl, inr, refl, ap, subst, ◌∙◌, sym, [], arith, Bool, true, false,
  not, ◌&&◌, Bool-cases, Option, none, some, List, Text, leb,
}
use cindex.Go.Errors.{Result, ok, err}
use cindex.Connector.Errors.{Reply, got, refused, is_fetch_error, ◌>>=◌, bind_assoc}
use cindex.Connector.Http.{
  Request, Response, Client, Labels, retry_with, read_body, read_response, build_request, exchange,
}
use cindex.Connector.Retry.{by_kind}
use cindex.Connector.Retry.Schedule.{may_retry, never, retry-Settled, reply_of, schedule}
use cindex.Connector.Transport.{
  new_transport, accepted, decoded, decode_into, get_once, get_json, post_once, post_form_once,
  get_text_once, get_request, json_request, form_request, accept_headers, labels, body_limit,
}

is_none : Option Text → Bool
is_none none = true
is_none (some _) = false

is_ok : Result Text → Bool
is_ok (ok _) = true
is_ok (err _) = false

received : ℕ → Result Response → Bool
received limit (ok r) = is_ok (r.read_all limit)
received limit (err _) = false

-- Attempt `n` brings back a response with a body that can be read.
unfoldable pub answered : Client → ℕ → Request → ℕ → Bool
unfolding is_none is_ok received
answered client limit request n =
    is_none (client.new_request request.method request.url)
    && received limit (client.send n request)

module _ {ℓ} {A : Type ℓ} where
  -- Whether the loop goes on after this answer.
  unfoldable pub again : Reply A → Bool
  unfolding may_retry by_kind
  again r = may_retry (by_kind r)

  Final : (ℕ × Text → Reply A) → Type 0
  Final f = (x : ℕ × Text) → again (f x) ≡ false

  again-read_body :
      (key label : Text) (status : ℕ) (body : Result Text) (f : ℕ × Text → Reply A)
      → Final f
      → again (read_body key label status body >>= f) ≡ not (is_ok body)
  unfolding again may_retry by_kind is_fetch_error read_body retry_with Final is_ok
  again-read_body key label status (ok body) f h = h (status, body)
  again-read_body key label status (err text) f h = refl

  again-build_request :
      (key : Text) (l : Labels) (limit : ℕ) (built : Option Text) (sent : Result Response)
      (f : ℕ × Text → Reply A)
      → Final f
      → again (build_request key l built (read_response key l limit sent) >>= f)
        ≡ not (is_none built && received limit sent)
  unfolding again may_retry by_kind is_fetch_error read_response build_request retry_with is_none
      received
  again-build_request key l limit (some text) sent f h = refl
  again-build_request key l limit none (err text) f h = refl
  again-build_request key l limit none (ok r) f h =
      again-read_body key l.reading r.status_code (r.read_all limit) f h

  pub again-exchange :
      (client : Client) (key : Text) (l : Labels) (limit : ℕ) (request : Request) (n : ℕ)
      (f : ℕ × Text → Reply A)
      → ((x : ℕ × Text) → again (f x) ≡ false)
      → again (exchange client key l limit request n >>= f) ≡ not (answered client limit request n)
  unfolding exchange answered Final
  again-exchange client key l limit request n f h =
      again-build_request key l limit (client.new_request request.method request.url)
        (client.send n request) f h

not-eq-true : (b : Bool) → not b ≡ true → b ≡ false
not-eq-true false h = refl
not-eq-true true h = sym h

not-eq-false : (b : Bool) → not b ≡ false → b ≡ true
not-eq-false true h = refl
not-eq-false false h = sym h

module _ {ℓ} {A : Type ℓ} where
  reply_of-by_kind : (r : Reply A) → reply_of (by_kind r) ≡ r
  unfolding reply_of by_kind
  reply_of-by_kind (got a) = refl
  reply_of-by_kind (refused e) = refl

  decoded-Final : (key : Text) (r : Result A) → again (decoded key r) ≡ false
  unfolding again may_retry by_kind is_fetch_error decoded
  decoded-Final key (ok a) = refl
  decoded-Final key (err text) = refl

  decode_into-Final :
      (key : Text) (out : Option (Text → Result A)) (body : Text)
      → again (decode_into key out body) ≡ false
  unfolding again may_retry by_kind decode_into
  decode_into-Final key none body = refl
  decode_into-Final key (some decode) body = decoded-Final key (decode body)

module _ {ℓ} {A : Type ℓ} where
  accepted-Final :
      (key : Text) (f : Text → Reply A)
      → ((body : Text) → again (f body) ≡ false)
      → (x : ℕ × Text) → again (accepted key x >>= f) ≡ false
  unfolding again may_retry by_kind is_fetch_error accepted
  accepted-Final key f h (status, body) = elim (Bool-cases (leb 400 status)) [
    | inl high ↦ rw high refl
    | inr low ↦ rw low (h body)
  ]

accepted_text-Final : (key : Text) (x : ℕ × Text) → again (accepted key x) ≡ false
unfolding again may_retry by_kind is_fetch_error accepted
accepted_text-Final key (status, body) = elim (Bool-cases (leb 400 status)) [
  | inl high ↦ rw high refl
  | inr low ↦ rw low refl
]

module _ {A : Type 0} where
  -- An exchange, the test of its status and the use of its body.
  again-call :
      (client : Client) (key : Text) (request : Request) (n : ℕ) (f : Text → Reply A)
      → ((body : Text) → again (f body) ≡ false)
      → again (exchange client key labels body_limit request n >>= accepted key >>= f)
        ≡ not (answered client body_limit request n)
  again-call client key request n f h =
      ap again (bind_assoc (exchange client key labels body_limit request n) (accepted key) f)
      ∙ again-exchange client key labels body_limit request n (λ x. accepted key x >>= f)
          (accepted-Final key f h)

-- A payload has been marshalled, and its post brings back no response that can be read.
unfoldable pub unanswered : Client → Text → List (Text × Text) → Result Text → ℕ → Bool
unanswered client url headers (err _) n = false
unanswered client url headers (ok body) n =
    not (answered client body_limit (json_request url headers body) n)

module _ {A : Type 0} where
  post_once-again :
      (client : Client) (key url : Text) (payload : Result Text) (headers : List (Text × Text))
      (out : Option (Text → Result A)) (n : ℕ)
      → again (post_once client key url headers payload out n)
        ≡ unanswered client url headers payload n
  unfolding post_once again may_retry by_kind is_fetch_error unanswered
  post_once-again client key url (err text) headers out n = refl
  post_once-again client key url (ok body) headers out n =
      again-call client key (json_request url headers body) n (decode_into key out)
        (decode_into-Final key out)

  -- Every method of the transport goes on with its loop exactly if no response was read, but for a
  -- payload that cannot be marshalled, which ends the loop. A response with an error status and one
  -- that cannot be decoded end it as well.
  pub once-may_retry :
      (client : Client) (key url form accept : Text) (payload : Result Text)
      (headers : List (Text × Text)) (out : Option (Text → Result A)) (n : ℕ)
      → (may_retry (by_kind (get_once client key url headers out n))
          ≡ not (answered client body_limit (get_request url headers) n))
        × (may_retry (by_kind (post_once client key url headers payload out n))
            ≡ unanswered client url headers payload n)
        × (may_retry (by_kind (post_form_once client key url form accept out n))
            ≡ not (answered client body_limit (form_request url form accept) n))
        × (may_retry (by_kind (get_text_once client key url accept n))
            ≡ not (answered client body_limit (get_request url (accept_headers accept)) n))
  unfolding get_once post_form_once get_text_once again
  once-may_retry client key url form accept payload headers out n = (
    again-call client key (get_request url headers) n (decode_into key out)
        (decode_into-Final key out),
    post_once-again client key url payload headers out n,
    again-call client key (form_request url form accept) n (decode_into key out)
        (decode_into-Final key out),
    again-exchange client key labels body_limit (get_request url (accept_headers accept)) n
        (accepted key) (accepted_text-Final key),
  )

  -- GetJSON of a new transport ends whatever the server does, if the context is not cancelled: it makes
  -- k + 1 calls, at most three, with its pauses between them; none but the last of them reads a
  -- response, and if the last one reads none either, it is the third. Its answer is that of the last.
  pub get_json-Settled :
      (client : Client) (key url : Text) (headers : List (Text × Text))
      (out : Option (Text → Result A))
      → (k : ℕ) × (k ≤ 2)
        × ((i : ℕ) → i < k → answered client body_limit (get_request url headers) (suc i) ≡ false)
        × ((answered client body_limit (get_request url headers) (suc k) ≡ true) ⊎ (k ≡ 2))
        × (get_json (new_transport client) never key url headers out
            ≡ (get_once client key url headers out (suc k), schedule 1 k))
  get_json-Settled client key url headers out =
      unfold get_json new_transport in
      let again : (n : ℕ)
          → may_retry (by_kind (get_once client key url headers out n))
            ≡ not (answered client body_limit (get_request url headers) n) =
        λ n. (once-may_retry client key url [] [] (ok []) headers out n).0 in
      let h = retry-Settled none (λ n. by_kind (get_once client key url headers out n)) 2 in
      (
        h.k,
        h.in_time,
        λ i p.
            not-eq-true _
              (sym (again (suc i)) ∙ h.before (suc i) (omega arith) (omega (arith, p, h.place))),
        elim h.last_one [
          | inl e ↦ inl (
              not-eq-false _ (
                sym (again (suc h.k))
                ∙ subst (λ j. may_retry (by_kind (get_once client key url headers out j)) ≡ false)
                    (omega (arith, h.place)) e))
          | inr e ↦ inr e
        ],
        h.answer
            ∙ ap (λ r. (r, schedule 1 h.k))
                (reply_of-by_kind _
                  ∙ ap (get_once client key url headers out) (omega (arith, h.place))),
      )
