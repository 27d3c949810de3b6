-- ===== src/Api/RateLimit/Windows.antt =====
-- How many requests a window admits.
use riskrail.Base.{ℕ, not, length, keep, List}
use riskrail.Api.RateLimit.{Arrival}

-- the requests that come while Redis is unreachable
abbrev pub unreachable : List Arrival → ℕ
unreachable arrivals = length (keep (λ (a : Arrival). not a.reachable) arrivals)
