-- ===== src/Balancer.antt =====
-- contracts/cw-croncat/src/balancer.rs: `RoundRobinBalancer` in its mode `ActivationOrder`.
pub mod Order
pub mod Tally
pub mod Shares
use mathlib.Core.Option
use cw_croncat.Base.{
  ℕ, zero, suc, ◌+◌, ◌-◌, ◌/◌, ◌%◌, Bool, true, false, Option, none, some, List, [], ◌∷◌, ◌++◌, map,
  ltb, leb, eqb, if◌then◌else◌, length, position,
}
use cw_croncat.Base.Outcome.{Outcome, ok, err, panic, bind, std, checked, u64_mod}
use cw_croncat.Types.{Addr, SlotType}
use cw_croncat.External.{External}
use cw_croncat.State.{State}

pub data BalancerMode : Type 0 where
  activation_order equalizer : BalancerMode

pub record AgentTaskResponse : Type 0 where
  pub num_block_tasks : ℕ
  pub num_block_tasks_extra : ℕ
  pub num_cron_tasks : ℕ
  pub num_cron_tasks_extra : ℕ

-- `(SlotType, u32, u32)`: a slot kind, an agent's index, its extra tasks.
abbrev pub Index : Type 0
Index = SlotType × ℕ × ℕ

abbrev pub contains_index : List ℕ → ℕ → Bool
contains_index [] a = false
contains_index (x ∷ xs) a = if eqb x a then true else contains_index xs a

unfoldable pub vect_difference : List ℕ → List ℕ → List ℕ
vect_difference [] v2 = []
vect_difference (x ∷ v1) v2 =
    if contains_index v2 x then vect_difference v1 v2 else x ∷ vect_difference v1 v2

abbrev pub position_index : List ℕ → ℕ → Option ℕ
position_index [] a = none
position_index (x ∷ xs) a = if eqb x a then some 0 else Option.map suc (position_index xs a)

-- `(0..n).collect()`, from a first index.
unfoldable pub indices_from : ℕ → ℕ → List ℕ
indices_from first zero = []
indices_from first (suc n) = first ∷ indices_from (first + 1) n

-- `.filter(|e| e.2 > 0)`
unfoldable pub rich : List Index → List Index
rich [] = []
rich ((slot, index, extra) ∷ es) = if ltb 0 extra then (slot, index, extra) ∷ rich es else rich es

-- `sort_by(|a, b| a.2.partial_cmp(&b.2))`, a stable sort: each entry goes before those above it.
unfoldable pub insert_index : Index → List Index → List Index
insert_index e [] = e ∷ []
insert_index (s, i, x) ((t, j, y) ∷ es) =
    if leb x y then (s, i, x) ∷ (t, j, y) ∷ es else (t, j, y) ∷ insert_index (s, i, x) es

unfoldable pub sort_indices : List Index → List Index
unfolding insert_index
sort_indices [] = []
sort_indices (e ∷ es) = insert_index e (sort_indices es)

-- The order of service: agents with no extra task first, then those with the fewest.
unfoldable pub service_order : ℕ → List Index → List ℕ
unfolding vect_difference indices_from rich sort_indices
service_order agent_count indices =
    let rich_indices = map (λ (e : Index). e.1) (sort_indices (rich indices)) in
    vect_difference (indices_from 0 agent_count) rich_indices ++ rich_indices

-- `1.saturating_sub(index.saturating_sub(total.saturating_sub(1)))`
unfoldable pub share : ℕ → ℕ → ℕ
share agent_index total = 1 - (agent_index - (total - 1))

unfoldable pub activation_ordering :
    List Index → (agent_count agent_index total_tasks : ℕ) → Outcome (ℕ × ℕ)
unfolding service_order share
activation_ordering indices agent_count agent_index total_tasks =
    if ltb total_tasks 1
    then ok (0, 0)
    else if leb total_tasks agent_count
    then (let n = share agent_index total_tasks in ok (n, n))
    else elim (position_index (service_order agent_count indices) agent_index) [
      | none ↦ panic
      | some order ↦
          let leftover = total_tasks % agent_count in
          let extra = if ltb 0 leftover then share order leftover else 0 in
          bind (checked u64_mod (total_tasks / agent_count + extra)) (λ n. ok (n, extra))
    ]

abbrev or_zero : List Index → ℕ → ℕ → Option ℕ → Outcome (ℕ × ℕ)
or_zero indices agent_count agent_index none = ok (0, 0)
or_zero indices agent_count agent_index (some total) =
    activation_ordering indices agent_count agent_index total

unfoldable pub serve_agent :
    List Index
    → (agent_count agent_index : ℕ) → Option ℕ
    → Option ℕ
    → Outcome (Option AgentTaskResponse)
unfolding activation_ordering
serve_agent indices agent_count agent_index blocks crons =
    bind (or_zero indices agent_count agent_index blocks) λ b.
      bind (or_zero indices agent_count agent_index crons) λ c. ok (
        some (record {
          num_block_tasks = b.0;
          num_block_tasks_extra = b.1;
          num_cron_tasks = c.0;
          num_cron_tasks_extra = c.1;
        }))

-- Nothing for no slot items; `Equalizer` is `todo!()`.
unfoldable pub balance_agent :
    List Index
    → (agent_count agent_index : ℕ) → BalancerMode
    → Option ℕ × Option ℕ
    → Outcome (Option AgentTaskResponse)
unfolding serve_agent
balance_agent indices agent_count agent_index mode (none, none) = ok none
balance_agent indices agent_count agent_index activation_order (blocks, crons) =
    serve_agent indices agent_count agent_index blocks crons
balance_agent indices agent_count agent_index equalizer (blocks, crons) = panic

module _ (E : External) where
  unfoldable pub get_agent_tasks :
      BalancerMode → Addr → Option ℕ × Option ℕ → State E → Outcome (Option AgentTaskResponse)
  unfolding balance_agent
  get_agent_tasks mode agent_id slot_items s = elim (position s.agent_active_queue agent_id) [
    | none ↦ err (std "Agent not registered")
    | some agent_index ↦
        balance_agent s.config.agent_active_indices (length s.agent_active_queue) agent_index mode
          slot_items
  ]
