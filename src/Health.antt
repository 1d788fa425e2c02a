-- ===== src/Health.antt =====
-- The probes of endpoints: internal/helper/healthcheck/healthcheck.go, which filters them. What an
-- endpoint answers to a probe is a parameter, and `none` is a call that blocks for ever.
pub mod Probes
use cvms.Base.{
  ℕ, zero, suc, ◌≡◌, String, Bool, Option, none, some, false, List, [], ◌∷◌, if◌then◌else◌, ◌==◌,
  ◌||◌, not, string_eq, nat_eq, map, length, Result, ok, err, panic, message, bind,
}
use cvms.NodeApi.Calls.{HttpAnswer, failed, answered, status_ok}

-- no error, and StatusCode is http.StatusOK
abbrev pub is_ok : HttpAnswer → Bool
is_ok (failed e) = false
is_ok (answered code body) = code == status_ok

-- healthCheckForCosmos, healthCheckForEthereum and their RPC versions: what one goroutine sends.
unfoldable pub health_check_for : (String → HttpAnswer) → String → String
health_check_for answer url = if is_ok (answer url) then url else ""

abbrev pub known_chain_type : String → Bool
known_chain_type chain_type = chain_type == "cosmos" || chain_type == "ethereum"

-- What the goroutines send, in the order in which it arrives; for another type none is started.
abbrev pub probes : {A : Type 0} → String → (String → A) → (List A → List A) → List String → List A
probes chain_type probe arrive endpoints =
    if known_chain_type chain_type then arrive (map probe endpoints) else []

-- The loop that receives once for each endpoint.
unfoldable pub receive_healthy : ℕ → List String → Option (List String)
receive_healthy zero sent = some []
receive_healthy (suc n) [] = none
receive_healthy (suc n) (url ∷ sent) =
    let rest = receive_healthy n sent in if url == "" then rest else with_url url rest
  where
    with_url : String → Option (List String) → Option (List String)
    with_url url none = none
    with_url url (some urls) = some (url ∷ urls)

-- FilterHealthEndpoints and FilterHealthRPCEndpoints, which differ in the path alone.
unfoldable pub filter_health_endpoints :
    (List String → List String)
    → (String → HttpAnswer)
    → List String
    → String
    → Option (List String)
unfolding health_check_for receive_healthy
filter_health_endpoints arrive answer endpoints chain_type =
    receive_healthy (length endpoints)
      (probes chain_type (health_check_for answer) arrive endpoints)
