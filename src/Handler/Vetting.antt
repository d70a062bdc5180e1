-- ===== src/Handler/Vetting.antt =====
-- What a request of podping/src/handler.rs must have before its ping reaches the queue.
use Prim.Native.String.{len, slice, ◌++◌}
use podping_alpha.Prelude.{
  ℕ, ◌≤◌, String, ◌≡◌, ◌≢◌, refl, subst, ap, ◌∙◌, ◌⊎◌, inl, inr, Bool, true, Option, none, some,
  List, [], ◌∷◌, Result, ok, err, Outcome, done, panic, arith,
}
use podping_alpha.Ping.{Ping, Reason, Medium, update, podcast, reason_from_str, medium_from_str}
use podping_alpha.Queue.{Engine, add_ping_to_queue}
use podping_alpha.Queue.Rows.{Row}
use podping_alpha.Auth.{
  Publisher, Listed, check_auth, check_auth_hybrid, first_match, first_match-ok,
}
use podping_alpha.Handler.{
  Header, absent, opaque, text, Request, Response, Flow, next, reply, panics, ◌>>=◌, Engines,
  success, param, log_client, landing_page, check_authorization, check_user_agent, check_url,
  read_code, has_http_scheme, vet, vet_client, vet_ping, store, ping, bad_authorization,
}

-- The code read from a parameter: the default if there is none, the parsed text otherwise.
abbrev pub IsRead : {A : Type 0} → A → (String → Option A) → Option String → A → Type 0
IsRead default from_str none a = a ≡ default
IsRead default from_str (some given) a = from_str given ≡ some a

-- The whole token is a pattern for the publisher's value, or its first 22 bytes are for its start.
abbrev pub Admits : (String → String → Bool) → String → Publisher → Type 0
Admits like token p =
    (like token p.authval ≡ true)
    ⊎ ((22 ≤ len token) × (like (slice token 0 22 ++ "%") p.authval ≡ true))

pub record IsAccepted (like : String → String → Bool) (table : List Publisher) (now : ℕ)
    (req : Request) (p : Ping) : Type 0 where
  pub given : req.query ≢ []
  pub token : String
  pub authorization : req.authorization ≡ text token
  pub publisher : Publisher
  pub listed : Listed publisher table
  pub admitted : Admits like token publisher
  pub agent : String
  pub user_agent : req.user_agent ≡ text agent
  pub url : param "url" req.query ≡ some p.url
  pub full : len p.url ≢ 0
  pub scheme : has_http_scheme p.url ≡ true
  pub time : p.time ≡ now
  pub reason : IsRead update reason_from_str (param "reason" req.query) p.reason
  pub medium : IsRead podcast medium_from_str (param "medium" req.query) p.medium

>>=-eq-next {ℓ κ} :
    {A : Type ℓ} {B : Type κ} (m : Flow A) (f : A → Flow B) {b : B}
    → (m >>= f) ≡ next b
    → (a : A) × (m ≡ next a) × (f a ≡ next b)
>>=-eq-next (next a) f h = (a, refl, h)
>>=-eq-next (reply r) f h = cc
>>=-eq-next panics f h = cc

next_inj {ℓ} : {A : Type ℓ} {a b : A} → next a ≡ next b → a ≡ b
next_inj h = cc

landing_page-next :
    (page : Option String) (query : List (String × String)) {u : Unit {0}}
    → landing_page page query ≡ next u
    → query ≢ []
unfolding landing_page
landing_page-next none [] h = cc
landing_page-next (some p) [] h = cc
landing_page-next page (kv ∷ query) h = λ e. cc

check_user_agent-next :
    (h : Header) {u : Unit {0}} → check_user_agent h ≡ next u → (ua : String) × (h ≡ text ua)
unfolding check_user_agent
check_user_agent-next absent e = cc
check_user_agent-next opaque e = cc
check_user_agent-next (text ua) e = (ua, refl)

check_url-next :
    (o : Option String) {url : String}
    → check_url o ≡ next url
    → (o ≡ some url) × (len url ≢ 0) × (has_http_scheme url ≡ true)
unfolding check_url
check_url-next none h = cc
check_url-next (some u) {url} h = ground arith

read_code-next :
    {A : Type 0} (default : A) (from_str : String → Option A) (o : Option String) {a : A}
    → read_code default from_str o ≡ next a
    → IsRead default from_str o a
unfolding read_code
read_code-next default from_str none {a} h = cc
read_code-next {A} default from_str (some given) {a} h = go (from_str given) refl h
  where
    go :
        (o : Option A)
        → from_str given ≡ o
        → elim o [ none ↦ panics | some b ↦ next b ] ≡ next a
        → from_str given ≡ some a
    go none e k = cc
    go (some b) e k = cc

module _ (like : String → String → Bool) where
  hybrid-ok :
      (e : Engine) (token : String) (table : List Publisher) {name : String}
      → check_auth_hybrid like e token table ≡ done (ok name)
      → (22 ≤ len token) × (first_match like (slice token 0 22 ++ "%") table ≡ ok name)
  unfolding check_auth_hybrid
  hybrid-ok e token table {name} h = ground arith

  auth-ok :
      (e : Engine) (token : String) (table : List Publisher) {name : String}
      → check_auth like e token table ≡ done (ok name)
      → first_match like token table ≡ ok name
  unfolding check_auth
  auth-ok e token table {name} h = ground arith

  Admitted : List Publisher → Header → Type 0
  Admitted table h =
      (token : String) × (h ≡ text token) × (p : Publisher) × Listed p table × Admits like token p

  check_authorization-next :
      (es : Engines) (table : List Publisher) (h : Header) {u : Unit {0}}
      → check_authorization like es table h ≡ next u
      → Admitted table h
  unfolding check_authorization Admitted
  check_authorization-next es table absent e = cc
  check_authorization-next es table opaque e = cc
  check_authorization-next es table (text token) {u} e =
      first (check_auth like es.auth token table) refl e
    where
      second :
          (r : Outcome (Result String))
          → check_auth_hybrid like es.hybrid token table ≡ r
          → elim r [
            | done (ok name) ↦ next tt
            | done err ↦ reply bad_authorization
            | panic ↦ panics
          ]
            ≡ next u
          → Admitted table (text token)
      second (done (ok name)) e k =
          let (long, found) = hybrid-ok es.hybrid token table e in
          let (p, listed, named, matches) = first_match-ok like _ table found in
          (token, refl, p, listed, inr (long, matches))
      second (done err) e k = cc
      second panic e k = cc

      first :
          (r : Outcome (Result String))
          → check_auth like es.auth token table ≡ r
          → elim r [
            | done (ok name) ↦ next tt
            | done err ↦ elim (check_auth_hybrid like es.hybrid token table) [
              | done (ok name) ↦ next tt
              | done err ↦ reply bad_authorization
              | panic ↦ panics
            ]
            | panic ↦ panics
          ]
            ≡ next u
          → Admitted table (text token)
      first (done (ok name)) e k =
          let (p, listed, named, matches) =
            first_match-ok like token table (auth-ok es.auth token table e) in
          (token, refl, p, listed, inl matches)
      first (done err) e k = second (check_auth_hybrid like es.hybrid token table) refl k
      first panic e k = cc

  vet_client-next :
      (es : Engines) (table : List Publisher) (page : Option String) (req : Request) {u : Unit {0}}
      → vet_client like es table page req ≡ next u
      → (req.query ≢ [])
        × Admitted table req.authorization
        × ((ua : String) × (req.user_agent ≡ text ua))
  unfolding vet_client
  vet_client-next es table page req h =
      let (_, _, h₁) = >>=-eq-next (log_client req.cf_connecting_ip) _ h in
      let (_, e₂, h₂) = >>=-eq-next (landing_page page req.query) _ h₁ in
      let (_, e₃, e₄) = >>=-eq-next (check_authorization like es table req.authorization) _ h₂ in
      (
        landing_page-next page req.query e₂,
        check_authorization-next es table req.authorization e₃,
        check_user_agent-next req.user_agent e₄,
      )

  accept :
      (table : List Publisher) (now : ℕ) (req : Request) (url : String) (reason : Reason)
      (medium : Medium) (p : Ping)
      → (req.query ≢ [])
        × Admitted table req.authorization
        × ((ua : String) × (req.user_agent ≡ text ua))
      → check_url (param "url" req.query) ≡ next url
      → read_code update reason_from_str (param "reason" req.query) ≡ next reason
      → read_code podcast medium_from_str (param "medium" req.query) ≡ next medium
      → record { url = url; time = now; reason = reason; medium = medium } ≡ p
      → IsAccepted like table now req p
  unfolding Admitted
  accept table now req url reason medium p (given, (token, auth, pub', listed, admits), (ua, agent))
        e₁ e₂ e₃ e =
      let (found, full, scheme) = check_url-next (param "url" req.query) e₁ in
      subst (IsAccepted like table now req) e (record {
        given = given;
        token = token;
        authorization = auth;
        publisher = pub';
        listed = listed;
        admitted = admits;
        agent = ua;
        user_agent = agent;
        url = found;
        full = full;
        scheme = scheme;
        time = refl;
        reason = read_code-next update reason_from_str (param "reason" req.query) e₂;
        medium = read_code-next podcast medium_from_str (param "medium" req.query) e₃;
      })

  vet-IsAccepted :
      (es : Engines) (table : List Publisher) (page : Option String) (now : ℕ) (req : Request)
      {p : Ping}
      → vet like es table page now req ≡ next p
      → IsAccepted like table now req p
  unfolding vet vet_ping
  vet-IsAccepted es table page now req {p} h =
      let (_, e₁, h₁) = >>=-eq-next (vet_client like es table page req) _ h in
      let (_, e₂, h₂) = >>=-eq-next (check_url (param "url" req.query)) _ h₁ in
      let (_, e₃, h₃) =
        >>=-eq-next (read_code update reason_from_str (param "reason" req.query)) _ h₂ in
      let (_, e₄, h₄) =
        >>=-eq-next (read_code podcast medium_from_str (param "medium" req.query)) _ h₃ in
      accept table now req _ _ _ p (vet_client-next es table page req e₁) e₂ e₃ e₄ (next_inj h₄)

  -- A request that comes back with a response was turned away by one of the checks, with that
  -- check's response and the queue as it was, or it was accepted: it came from a client with an
  -- admitted token and a user agent, and asked for a ping with an HTTP URL and valid codes. Then the
  -- ping is handed to the queue, and the response is "Success!" whatever the queue answers.
  pub ping-done :
      (es : Engines) (table : List Publisher) (page : Option String) (now : ℕ) (req : Request)
      (queue after : List Row) (res : Response)
      → ping like es table page now req queue ≡ done (res, after)
      → ((vet like es table page now req ≡ reply res) × (after ≡ queue))
        ⊎ ((p : Ping) × (vet like es table page now req ≡ next p)
            × IsAccepted like table now req p
            × (after ≡ (add_ping_to_queue es.queue es.again p queue).1)
            × (res ≡ success))
  unfolding ping
  ping-done es table page now req queue after res = go (vet like es table page now req) refl
    where
      go :
          (m : Flow Ping)
          → vet like es table page now req ≡ m
          → store es queue m ≡ done (res, after)
          → ((vet like es table page now req ≡ reply res) × (after ≡ queue))
            ⊎ ((p : Ping) × (vet like es table page now req ≡ next p)
                × IsAccepted like table now req p
                × (after ≡ (add_ping_to_queue es.queue es.again p queue).1)
                × (res ≡ success))
      go (next p) e k = inr (p, e, vet-IsAccepted es table page now req e, cc, cc)
      go (reply r) e k = inl (e ∙ ap reply (cc), cc)
      go panics e k = cc
