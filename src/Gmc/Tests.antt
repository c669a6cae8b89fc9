-- ===== src/Gmc/Tests.antt =====
-- A request that succeeds at its third attempt, a long Retry-After, and pages of products.
use shopify_gmc.Base.{
  ℕ, ◌^◌, ◌≡◌, refl, String, true, some, List, [], ◌∷◌, ◌==◌, string_eq, nat_eq, if◌then◌else◌, ◌⊎◌,
  inr,
}
use shopify_gmc.Base.Int.{pos}
use shopify_gmc.Gmc.{
  broken, replied, value, ok, rate_limited, Client, duration, step_of, wait_of, attempts_from,
  request, AccountIssue, ProductPage,
}
use shopify_gmc.Gmc.Retries.{IsRun, request_lem}
use shopify_gmc.Gmc.Reports.{Pages, final_page, next_page}

abbrev client : Client ℕ
client = record {
  has_token = true;
  max_retries = 0;
  answer =
      λ n. if n == 0 then broken else if n == 1 then replied 503 "7200" [] else replied 200 "" [];
  milliseconds = λ n. 250;
  atoi = λ s. if s == "7200" then some (pos 7200) else some (pos (10 ^ 10));
  decode = λ body. value 7;
}

third_attempt :
    request client
    ≡ record { result = ok 7; requests = 3; waits = 30250000000 ∷ 3600000000000 ∷ [] }
unfolding request attempts_from step_of wait_of duration
third_attempt = refl

-- A Retry-After of 10 ^ 10 seconds overflows the duration, and nothing is waited.
overflows : wait_of client 0 "10000000000" ≡ 0
unfolding wait_of duration
overflows = refl

gives_up : (request (record client { answer = λ n. replied 429 "" [] })).result ≡ rate_limited
unfolding request attempts_from step_of wait_of duration
gives_up = refl

request_lem_example :
    IsRun client (if client.max_retries == 0 then 4 else client.max_retries) 0 (request client)
request_lem_example = request_lem client refl

abbrev issues : List AccountIssue
issues =
    record { id = "a"; title = "A"; severity = "error"; detail = "" }
    ∷ record { id = "b"; title = "B"; severity = "critical"; detail = "" }
    ∷ []

abbrev pages : String → ℕ ⊎ ProductPage ℕ
pages token =
    if token == ""
    then inr (record { resources = 1 ∷ 2 ∷ []; next_page_token = "p2" })
    else inr (record { resources = 3 ∷ []; next_page_token = "" })

two_pages : Pages pages "" 2 (1 ∷ 2 ∷ 3 ∷ [])
two_pages = next_page refl refl (final_page refl refl)
