-- ===== src/Handler/Examples.antt =====
-- Tests of podping/src/handler.rs, and its theorems at concrete requests.
use podping_alpha.Prelude.{
  String, ◌≡◌, refl, ◌⊎◌, Bool, ◌||◌, none, List, [], ◌∷◌, done, panic, arith, ◌==◌,
}
use podping_alpha.Ping.{Ping, update, podcast}
use podping_alpha.Queue.{sound, row_of, add_ping_to_queue}
use podping_alpha.Auth.{Publisher, first_match, check_auth}
use podping_alpha.Handler.{
  reply, absent, text, Request, Response, next, Engines, success, param, check_authorization,
  check_url, vet, vet_client, ping,
}
use podping_alpha.Handler.Vetting.{IsAccepted, ping-done}
use podping_alpha.Handler.Faults.{ping_short_token, ping_wildcard}

-- A `LIKE` that knows `%` alone, and texts without wildcards.
abbrev like : String → String → Bool
like pattern value = (pattern == "%") || (pattern == value)

abbrev engines : Engines
engines = record { auth = sound; hybrid = sound; queue = sound; again = sound }

abbrev table : List Publisher
table = record { name = "host"; authval = "Blahblah^^12345678" } ∷ []

abbrev request : String → List (String × String) → Request
request token query = record {
  cf_connecting_ip = absent;
  authorization = text token;
  user_agent = text "test";
  query = query;
}

abbrev good : Request
good = request "Blahblah^^12345678" (("url", "HTTPS://feed") ∷ [])

abbrev wanted : Ping
wanted = record { url = "HTTPS://feed"; time = 7; reason = update; medium = podcast }

good_is_stored : ping like engines table none 7 good [] ≡ done (success, row_of wanted ∷ [])
unfolding ping vet vet_client podping_alpha.Handler.vet_ping podping_alpha.Handler.log_client
    podping_alpha.Handler.landing_page check_authorization check_auth first_match
    podping_alpha.Handler.check_user_agent check_url podping_alpha.Handler.read_code param
    add_ping_to_queue
good_is_stored = refl

ping-done_example :
    ((vet like engines table none 7 good ≡ reply success) × (row_of wanted ∷ [] ≡ []))
    ⊎ ((p : Ping) × (vet like engines table none 7 good ≡ next p)
        × IsAccepted like table 7 good p
        × (row_of wanted ∷ [] ≡ (add_ping_to_queue sound sound p []).1)
        × (success ≡ success))
ping-done_example =
    ping-done like engines table none 7 good [] (row_of wanted ∷ []) success good_is_stored

ping_short_token_example :
    ping like engines table none 7 (request "guess" (("url", "http://x") ∷ [])) [] ≡ panic
unfolding first_match
ping_short_token_example =
    ping_short_token like engines table none 7 (request "guess" (("url", "http://x") ∷ [])) []
      "guess" (λ e. cc) (λ e. cc) refl refl refl (omega arith)

ping_wildcard_example :
    ping like engines table none 7 (request "%" (("url", "HTTPS://feed") ∷ [])) []
    ≡ done (success, (add_ping_to_queue sound sound wanted []).1)
unfolding podping_alpha.Handler.vet_ping check_url podping_alpha.Handler.read_code param
ping_wildcard_example =
    ping_wildcard like (λ v. refl) engines
      (record { name = "host"; authval = "Blahblah^^12345678" }) [] none 7
      (request "%" (("url", "HTTPS://feed") ∷ [])) [] "test" wanted refl (λ e. cc) (λ e. cc) refl
      refl refl
