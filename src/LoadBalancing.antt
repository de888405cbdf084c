-- ===== src/LoadBalancing.antt =====
-- runar-node/src/services/load_balancing.rs: `RoundRobinLoadBalancer`. The handlers are only counted;
-- the counter is a 64-bit `usize`, and `fetch_add` wraps around.
pub mod Fair
mod Tests
use rust_mono.Prelude.{ℕ, zero, suc, ◌+◌, ◌%◌, ◌^◌, List, [], ◌∷◌, length, is_empty, if◌then◌else◌}

pub record RoundRobinLoadBalancer : Type 0 where
  pub current_index : ℕ

unfoldable pub new : RoundRobinLoadBalancer
new = record { current_index = 0 }

unfoldable pub select_handler {ℓ} :
    {H : Type ℓ} → List H → RoundRobinLoadBalancer → ℕ × RoundRobinLoadBalancer
select_handler handlers balancer =
    let index = balancer.current_index in
    if is_empty handlers
    then (0, balancer)
    else (index % length handlers, record { current_index = (index + 1) % 2 ^ 64 })

-- The answers of a number of calls, one after the other, with the same handlers.
unfoldable pub selections {ℓ} : {H : Type ℓ} → ℕ → List H → RoundRobinLoadBalancer → List ℕ
unfolding select_handler
selections zero handlers balancer = []
selections (suc calls) handlers balancer =
    let (index, after) = select_handler handlers balancer in index ∷ selections calls handlers after
