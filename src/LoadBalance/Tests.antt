-- ===== src/LoadBalance/Tests.antt =====
-- Three endpoints of different weights, and the theorems at them.
use pavis.Prelude.{ℕ, ◌<◌, List, [], ◌∷◌, ◌≡◌, refl, arith}
use pavis.Prelude.Text.{bytes}
use pavis.LoadBalance.{EndpointAddr, Endpoint, round_robin, random, build_state_parts, select_index}
use pavis.LoadBalance.Linear.{linear_search, linear_search-IsSearch}
use pavis.LoadBalance.Owner.{owner, select_index-owner}
use pavis.LoadBalance.Share.{tally, round_robin_shares}

abbrev weighing : ℕ → Endpoint
weighing n = record { address = EndpointAddr.dns (bytes "a") 80; weight = n }

abbrev endpoints : List Endpoint
endpoints = weighing 2 ∷ weighing 1 ∷ weighing 3 ∷ []

abbrev last : ℕ → ℕ
last n = 5

selected_third : (select_index linear_search random endpoints (2 ∷ 3 ∷ 6 ∷ []) 0 6 last).0 ≡ 2
unfolding select_index
selected_third = refl

select_index-owner_example :
    let (weights, total) = build_state_parts endpoints in
    let index = (select_index linear_search random endpoints weights 7 total last).0 in
    (index ≡ owner endpoints 5) × (index < 3)
select_index-owner_example =
    select_index-owner linear_search linear_search-IsSearch random endpoints 7 last (omega arith)
      (omega arith) (omega arith)

round_robin_shares_example :
    let (weights, total) = build_state_parts endpoints in
    tally
      (λ counter. (select_index linear_search round_robin endpoints weights counter total last).0)
      2
      6
    ≡ 3
round_robin_shares_example =
    round_robin_shares linear_search linear_search-IsSearch endpoints last 2 (omega arith)
      (omega arith) (omega arith)
