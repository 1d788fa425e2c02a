-- ===== src/Examples/HealthRuns.antt =====
-- Three endpoints, of which one answers.
use mathlib.Core.List.Permᴰ
use cvms.Base.{String, List, [], ◌∷◌, if◌then◌else◌, ◌==◌, string_eq, message}
use cvms.NodeApi.Calls.{HttpAnswer, answered, failed}
use cvms.Health.{filter_health_endpoints}
use cvms.Health.Probes.{Filtered, filter_health_endpoints-Filtered}

abbrev b_answers : String → HttpAnswer
b_answers url =
    if url == "b"
    then answered 200 "{}"
    else (if url == "a" then answered 503 "" else failed (message "timeout"))

abbrev three_urls : List String
three_urls = "a" ∷ "b" ∷ "c" ∷ []

filter_health_endpoints-Filtered_example :
    Filtered b_answers "cosmos" three_urls
      (filter_health_endpoints (λ l. l) b_answers three_urls "cosmos")
filter_health_endpoints-Filtered_example =
    filter_health_endpoints-Filtered (λ l. l) b_answers three_urls "cosmos" (λ l. Permᴰ.refl l)
