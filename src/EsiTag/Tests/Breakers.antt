-- ===== src/EsiTag/Tests/Breakers.antt =====
-- The circuit breaker, and the loop over the resources of a tag.
use caddy_esi.Prelude.{ℕ, zero, suc, ◌+◌, ◌/◌, ◌*◌, ◌<◌, ◌≤◌, ◌≡◌, refl, List, [], ◌∷◌, some, arith}
use caddy_esi.Prelude.Text.{codes}
use caddy_esi.EsiTag.Breaker.{
  Breaker, cb_state_open, cb_state_half_open, cb_state_closed, cb_max_failures, second, cb_state,
  cb_reset, threshold_passed, last_failure, last_failed, cb_threshold_calc,
}
use caddy_esi.EsiTag.Breaker.States.{
  deadline, record_all, cb_state_waits, cb_state-record_all, cb_state_stuck,
}
use caddy_esi.EsiTag.Query.{Resource, content, failure, Moment, query_from, query_resources}
use caddy_esi.EsiTag.Query.First.{Outcome, query_resources-Outcome}

-- Twelve failures, the last one in November 2016; the deadline is 4096 seconds later.
abbrev twelve : Breaker
twelve = record { cb_failures = 12; cb_last_failure_time = 1_480_000_000_000_000_000 }

abbrev unused : Breaker
unused = record { cb_failures = 0; cb_last_failure_time = 0 }

-- 33 failures: the deadline would be 272 years later.
abbrev many : Breaker
many = record { cb_failures = 33; cb_last_failure_time = 1_480_000_000_000_000_000 }

cb_state_waits_example :
    (1_480_000_100_000_000_000 ≤ deadline twelve / second * second
      → cb_state twelve 1_480_000_100_000_000_000 ≡ cb_state_open)
    × (deadline twelve + deadline twelve / second ≤ 1_480_000_100_000_000_000
        → cb_state twelve 1_480_000_100_000_000_000 ≡ cb_state_half_open)
cb_state_waits_example =
    cb_state_waits twelve 1_480_000_100_000_000_000 (omega arith) (omega arith) (omega arith)

cb_state-record_all_example :
    (2 < cb_max_failures
      → cb_state (record_all (cb_reset twelve) (7 ∷ 9 ∷ [])) 10 ≡ cb_state_closed)
    × (cb_state (record_all (cb_reset twelve) (7 ∷ 9 ∷ [])) 10 ≡ cb_state_closed
        → 2 < cb_max_failures)
cb_state-record_all_example = cb_state-record_all twelve (7 ∷ 9 ∷ []) 10 (omega arith)

cb_state_stuck_example : cb_state many 9_000_000_000_000_000_000 ≡ cb_state_open
cb_state_stuck_example =
    cb_state_stuck many 9_000_000_000_000_000_000 (omega arith) (omega arith) (omega arith)
      (omega arith)

abbrev resources : List Resource
resources =
    record { index = 0; url = codes "grpc"; breaker = twelve }
    ∷ record { index = 1; url = codes "redis"; breaker = unused }
    ∷ record { index = 2; url = codes "shell"; breaker = unused }
    ∷ []

-- The second resource fails, the others answer.
abbrev surroundings : ℕ → Moment
surroundings zero = record {
  asked_at = 1_480_000_000_000_000_005;
  reply = λ a. content (codes "A");
  failed_at = 0;
}
surroundings (suc zero) = record {
  asked_at = 1_480_000_000_000_000_006;
  reply = λ a. failure;
  failed_at = 1_480_000_000_000_000_007;
}
surroundings _ = record {
  asked_at = 1_480_000_000_000_000_008;
  reply = λ a. content a.key;
  failed_at = 0;
}

third_answers :
    (query_resources (λ x. x) surroundings (codes "key") resources).content ≡ some (codes "key")
unfolding query_resources query_from cb_state threshold_passed last_failure last_failed
    cb_threshold_calc
third_answers = refl

query_resources-Outcome_example :
    let q = query_resources (λ x. x) surroundings (codes "key") resources in
    Outcome (λ x. x) surroundings 0 (codes "key") resources q.content q.resources
query_resources-Outcome_example =
    query_resources-Outcome (λ x. x) surroundings (λ x. refl) (codes "key") resources
