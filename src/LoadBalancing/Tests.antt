-- ===== src/LoadBalancing/Tests.antt =====
-- runar-node/src/services/load_balancing.rs: runs of the balancer.
use rust_mono.Prelude.{ℕ, ◌≡◌, refl, List, [], ◌∷◌, arith}
use rust_mono.LoadBalancing.{RoundRobinLoadBalancer, new, select_handler, selections}
use rust_mono.LoadBalancing.Fair.{picks, selections_fair}

abbrev three : List ℕ
three = 5 ∷ 6 ∷ 7 ∷ []

abbrev fourth : RoundRobinLoadBalancer
fourth = record { current_index = 4 }

new_run : selections 4 three new ≡ 0 ∷ 1 ∷ 2 ∷ 0 ∷ []
unfolding selections select_handler new
new_run = refl

selections_fair_example : picks 1 (selections 3 three fourth) ≡ 1
selections_fair_example = selections_fair three fourth 1 (omega arith) (omega arith)
