-- ===== src/Handler.antt =====
-- podping/src/handler.rs: the handlers of `/` and `/publishers`. The query's pairs arrive decoded by
-- the `url` crate; the clock and the landing page are arguments; logging is left out.
pub mod Vetting
pub mod Faults
mod Examples
use Prim.Native.String.{len, ◌++◌}
use Prim.Native.Char.{code}
use podping_alpha.Prelude.{
  ℕ, String, ◌≡◌, refl, Bool, true, false, ◌&&◌, Option, none, some, List, [], ◌∷◌, map, Result, ok,
  err, Outcome, done, panic, eqb, ◌==◌, if◌then◌else◌,
}
use podping_alpha.Ping.{
  Ping, Reason, Medium, update, podcast, codes, to_lower, reason_from_str, medium_from_str,
}
use podping_alpha.Queue.{Engine, add_ping_to_queue}
use podping_alpha.Queue.Rows.{Row}
use podping_alpha.Auth.{Publisher, check_auth, check_auth_hybrid, get_publishers}

-- A header is missing, a text, or bytes on which `to_str()` fails.
pub data Header : Type 0 where
  absent opaque : Header
  text : String → Header

pub record Request : Type 0 where
  pub cf_connecting_ip : Header
  pub authorization : Header
  pub user_agent : Header
  pub query : List (String × String)

pub record Response : Type 0 where
  pub status : ℕ
  pub body : String

-- A handler goes on, returns a response early, or panics.
pub data Flow {ℓ} (A : Type ℓ) : Type ℓ where
  next : A → Flow A
  reply : Response → Flow A
  panics : Flow A

infixl 5 ◌>>=◌ ◌>>◌
abbrev pub ◌>>=◌ {ℓ κ} : {A : Type ℓ} {B : Type κ} → Flow A → (A → Flow B) → Flow B
next a >>= f = f a
reply r >>= f = reply r
panics >>= f = panics

abbrev pub ◌>>◌ {ℓ} : {B : Type ℓ} → Flow (Unit {0}) → Flow B → Flow B
m >> k = m >>= λ _. k

abbrev pub landing : String → Response
landing page = record { status = 200; body = page }

abbrev pub success : Response
success = record { status = 200; body = "Success!" }

abbrev pub bad_authorization : Response
bad_authorization = record { status = 401; body = "Bad Authorization header check" }

abbrev pub no_authorization : Response
no_authorization = record { status = 401; body = "Invalid Authorization header" }

abbrev pub no_user_agent : Response
no_user_agent = record { status = 401; body = "User-Agent header is required" }

abbrev pub no_url : Response
no_url = record { status = 400; body = "Url parameter is missing.  Call as /?url=<podcast_url>" }

abbrev pub no_scheme : Response
no_scheme = record {
  status = 400;
  body = "Urls must contain a valid protocol schema prefix, like http:// or https://";
}

-- The pairs are collected into a `HashMap`, so the last pair of a key counts.
unfoldable pub param : String → List (String × String) → Option String
param key [] = none
param key ((k, v) ∷ rest) = elim (param key rest) [
  | some later ↦ some later
  | none ↦ if k == key then some v else none
]

unfoldable pub log_client : Header → Flow (Unit {0})
log_client absent = next tt
log_client opaque = panics
log_client (text ip) = next tt

-- The landing page, if there are no parameters: none where `home.html` cannot be read or rendered.
unfoldable pub landing_page : Option String → List (String × String) → Flow (Unit {0})
landing_page none [] = panics
landing_page (some page) [] = reply (landing page)
landing_page page (_ ∷ _) = next tt

-- `url_incoming.to_lowercase().find("http")` is at position 0. No other character than the ASCII
-- capitals has one of these letters as its lower case.
unfoldable pub starts_with_codes : List ℕ → List ℕ → Bool
starts_with_codes [] cs = true
starts_with_codes (p ∷ ps) [] = false
starts_with_codes (p ∷ ps) (c ∷ cs) = eqb p c && starts_with_codes ps cs

unfoldable pub has_http_scheme : String → Bool
unfolding starts_with_codes to_lower
has_http_scheme url = starts_with_codes (codes "http") (map to_lower (codes url))

unfoldable pub check_user_agent : Header → Flow (Unit {0})
check_user_agent absent = reply no_user_agent
check_user_agent opaque = panics
check_user_agent (text ua) = next tt

unfoldable pub check_url : Option String → Flow String
unfolding has_http_scheme
check_url none = reply no_url
check_url (some url) =
    if eqb (len url) 0
    then reply no_url
    else if has_http_scheme url
    then next url
    else reply no_scheme

-- A code that is given is read by `from_str(..).unwrap()`.
unfoldable pub read_code {ℓ} : {A : Type ℓ} → A → (String → Option A) → Option String → Flow A
read_code default from_str none = next default
read_code default from_str (some given) = elim (from_str given) [ none ↦ panics | some a ↦ next a ]

-- What the engine answers to the connections of one request.
pub record Engines : Type 0 where
  pub auth : Engine
  pub hybrid : Engine
  pub queue : Engine
  pub again : Engine

unfoldable pub vet_ping : ℕ → List (String × String) → Flow Ping
vet_ping now query = do
  url ← check_url (param "url" query)
  reason ← read_code update reason_from_str (param "reason" query)
  medium ← read_code podcast medium_from_str (param "medium" query)
  next (record { url = url; time = now; reason = reason; medium = medium })

-- The response does not depend on what the queue answers.
unfoldable pub store : Engines → List Row → Flow Ping → Outcome (Response × List Row)
store es queue (next p) = done (success, (add_ping_to_queue es.queue es.again p queue).1)
store es queue (reply r) = done (r, queue)
store es queue panics = panic

module _ (like : String → String → Bool) where
  unfoldable pub check_authorization : Engines → List Publisher → Header → Flow (Unit {0})
  check_authorization es table absent = reply no_authorization
  check_authorization es table opaque = panics
  check_authorization es table (text auth) = elim (check_auth like es.auth auth table) [
    | done (ok name) ↦ next tt
    | done err ↦ elim (check_auth_hybrid like es.hybrid auth table) [
      | done (ok name) ↦ next tt
      | done err ↦ reply bad_authorization
      | panic ↦ panics
    ]
    | panic ↦ panics
  ]

  unfoldable pub vet_client : Engines → List Publisher → Option String → Request → Flow (Unit {0})
  vet_client es table page req = do
    log_client req.cf_connecting_ip
    landing_page page req.query
    check_authorization es table req.authorization
    check_user_agent req.user_agent

  -- Everything up to the insertion: the ping that the request asks for.
  unfoldable pub vet : Engines → List Publisher → Option String → ℕ → Request → Flow Ping
  vet es table page now req = do vet_client es table page req; vet_ping now req.query

  unfoldable pub ping :
      Engines
      → List Publisher
      → Option String
      → ℕ
      → Request
      → List Row
      → Outcome (Response × List Row)
  unfolding store
  ping es table page now req queue = store es queue (vet es table page now req)

unfoldable pub page_of : List String → String
page_of [] = ""
page_of (name ∷ rest) = name ++ "\n" ++ page_of rest

-- The handler of `/publishers`.
unfoldable pub publishers : Engine → List Publisher → Request → Flow (Unit {0})
unfolding log_client check_user_agent page_of
publishers e table req = do
  log_client req.cf_connecting_ip
  check_user_agent req.user_agent
  elim (get_publishers e table) [
    | done (ok names) ↦ reply (record { status = 200; body = page_of names })
    | panic ↦ panics
    | done err ↦ reply (record { status = 204; body = "Error getting publishers list." })
  ]
