-- ===== src/Handler/Faults.antt =====
-- Requests on which podping/src/handler.rs panics, or admits a client that no publisher's token was
-- given to. A panic ends the process, by the hook that podping/src/main.rs sets.
use Prim.Native.String.{len}
use podping_alpha.Prelude.{
  ℕ, ◌<◌, String, ◌≡◌, ◌≢◌, refl, Bool, true, Option, none, some, List, [], ◌∷◌, err, panic, arith,
  done,
}
use podping_alpha.Ping.{update, reason_from_str, Ping}
use podping_alpha.Queue.{sound, add_ping_to_queue}
use podping_alpha.Queue.Rows.{Row}
use podping_alpha.Auth.{Publisher, first_match, check_auth, check_auth_hybrid}
use podping_alpha.Handler.{
  Header, absent, opaque, text, Request, next, panics, Engines, param, log_client, landing_page,
  check_authorization, check_url, read_code, vet, vet_client, vet_ping, store, ping, success,
  check_user_agent,
}

log_client-next : (h : Header) → h ≢ opaque → log_client h ≡ next tt
unfolding log_client
log_client-next absent n = refl
log_client-next opaque n = absurd (n refl)
log_client-next (text ip) n = refl

landing_page-next :
    (page : Option String) (query : List (String × String))
    → query ≢ []
    → landing_page page query ≡ next tt
unfolding landing_page
landing_page-next page [] n = absurd (n refl)
landing_page-next none (kv ∷ query) n = refl
landing_page-next (some p) (kv ∷ query) n = refl

module _ (like : String → String → Bool) where
  check_authorization-panics :
      (es : Engines) (table : List Publisher) (token : String)
      → first_match like token table ≡ err
      → es.hybrid ≡ sound
      → len token < 22
      → check_authorization like es table (text token) ≡ panics
  unfolding check_authorization check_auth check_auth_hybrid
  check_authorization-panics es table token unmatched e short = ground arith

  -- A token of less than 22 bytes that no publisher's value matches makes the handler panic: the
  -- client needs no right for that, and the panic ends the whole process.
  pub ping_short_token :
      (es : Engines) (table : List Publisher) (page : Option String) (now : ℕ) (req : Request)
      (queue : List Row) (token : String)
      → req.cf_connecting_ip ≢ opaque
      → req.query ≢ []
      → req.authorization ≡ text token
      → first_match like token table ≡ err
      → es.hybrid ≡ sound
      → len token < 22
      → ping like es table page now req queue ≡ panic
  unfolding ping vet vet_client store
  ping_short_token es table page now req queue token ip given auth unmatched e short = rw (
    log_client-next req.cf_connecting_ip ip,
    landing_page-next page req.query given,
    auth,
    check_authorization-panics es table token unmatched e short,
  )

  check_authorization_wildcard :
      ((value : String) → like "%" value ≡ true)
      → (es : Engines) (p : Publisher) (table : List Publisher) → es.auth ≡ sound
      → check_authorization like es (p ∷ table) (text "%") ≡ next tt
  unfolding check_authorization check_auth first_match
  check_authorization_wildcard all es p table e = ground (arith, all p.authval)

  -- `LIKE` reads the client's token as a pattern: wherever `%` matches every text, and some publisher
  -- is in the table, a request with the token `%`, a user agent and a valid ping is answered with
  -- "Success!", and its ping is handed to the queue. Its client was given no publisher's token.
  pub ping_wildcard :
      ((value : String) → like "%" value ≡ true)
      → (es : Engines) (first : Publisher) (table : List Publisher) (page : Option String) (now : ℕ)
        (req : Request) (queue : List Row) (agent : String) (p : Ping)
      → es.auth ≡ sound
      → req.cf_connecting_ip ≢ opaque
      → req.query ≢ []
      → req.authorization ≡ text "%"
      → req.user_agent ≡ text agent
      → vet_ping now req.query ≡ next p
      → ping like es (first ∷ table) page now req queue
        ≡ done (success, (add_ping_to_queue es.queue es.again p queue).1)
  unfolding ping vet vet_client store check_user_agent
  ping_wildcard all es first table page now req queue agent p e ip given auth ua asked = rw (
    log_client-next req.cf_connecting_ip ip,
    landing_page-next page req.query given,
    auth,
    check_authorization_wildcard all es first table e,
    ua,
    asked,
  )

  read_code-panics :
      {A : Type 0} (default : A) (from_str : String → Option A) (given : String)
      → from_str given ≡ none
      → read_code default from_str (some given) ≡ panics
  unfolding read_code
  read_code-panics default from_str given e = rw (e, read_code)

  -- A reason that is no variant's name, from an admitted client, makes the handler panic.
  pub ping_unknown_reason :
      (es : Engines) (table : List Publisher) (page : Option String) (now : ℕ) (req : Request)
      (queue : List Row) (url given : String)
      → vet_client like es table page req ≡ next tt
      → check_url (param "url" req.query) ≡ next url
      → param "reason" req.query ≡ some given
      → reason_from_str given ≡ none
      → ping like es table page now req queue ≡ panic
  unfolding ping vet vet_ping store
  ping_unknown_reason es table page now req queue url given client found asked unknown =
      rw (client, found, asked, read_code-panics update reason_from_str given unknown)
