-- ===== src/ComputeNode/Targets/Starvation.antt =====
-- Offloading leaves this node enough work (modules/broker/broker_compute_node_store.cpp).
use paracooba.Prelude.{
  ℕ, ◌+◌, ◌-◌, ◌*◌, ◌<◌, ◌≤◌, ◌≡◌, ◌≢◌, false, List, [], ◌∷◌, ltb, if◌then◌else◌, if_intro,
  Bool-cases, arith, inl, inr,
}
use paracooba.ComputeNode.{NodeStatus, Utilization, is_below, compute_future_utilization}
use paracooba.ComputeNode.Targets.{
  Peer, exceeds, two, future_utilization, ends_offloading, offload_loop,
}

-- How many of the nodes took a task.
abbrev pub taken : List Peer → ℕ
taken [] = 0
taken (p ∷ ps) = (if p.offloads then 1 else 0) + taken ps

-- A node that may be tried: another one, no busier than this one, and with at most twice as many
-- tasks as workers.
pub record IsTarget (this_id : ℕ) (this_utilization : Utilization) (p : Peer) : Type 0 where
  pub other : p.id ≢ this_id
  pub no_busier : exceeds p.utilization this_utilization ≡ false
  pub not_full : exceeds p.utilization two ≡ false

abbrev pub AllTargets : ℕ → Utilization → List Peer → Type 0
AllTargets this_id u [] = Unit {0}
AllTargets this_id u (p ∷ ps) = IsTarget this_id u p × AllTargets this_id u ps

-- The result of the loop: only targets were tried, each task that was taken is counted off, and
-- where one was, at least half as many tasks as workers are left.
pub record LeavesWork (this_id : ℕ) (own : NodeStatus) (u : Utilization) (size : ℕ)
    (r : List Peer × ℕ) : Type 0 where
  pub targets : AllTargets this_id u r.0
  pub counted : r.1 + taken r.0 ≡ size
  pub enough : r.1 < size → own.workers ≤ 2 * r.1

-- What a node that is tried has passed.
passed :
    (this_id : ℕ) (own : NodeStatus) (u : Utilization) (size : ℕ) (p : Peer)
    → 1 ≤ own.workers
    → ends_offloading this_id own u size p ≡ false
    → IsTarget this_id u p × ((1 ≤ size) × (own.workers ≤ 2 * (size - 1)))
unfolding ends_offloading is_below future_utilization compute_future_utilization
passed this_id own u size p w e = (
  record { other = ground arith; no_busier = ground arith; not_full = ground arith },
  (ground arith, ground arith),
)

-- One node that is tried before the rest.
tried_first :
    {this_id : ℕ} {own : NodeStatus} {u : Utilization} {size : ℕ} {p : Peer} {r : List Peer × ℕ}
    → IsTarget this_id u p
    → 1 ≤ size
    → own.workers ≤ 2 * (size - 1)
    → LeavesWork this_id own u (if p.offloads then size - 1 else size) r
    → LeavesWork this_id own u size (p ∷ r.0, r.1)
tried_first {own = own} {size = size} {p = p} {r = r} target some_left half rest = record {
  targets = (target, rest.targets);
  counted = ground (arith, rest.counted, some_left);
  enough = elim (Bool-cases p.offloads) [
    | inl t ↦
        let counted : r.1 + taken r.0 ≡ size - 1 = rw t at rest.counted in
        let enough : r.1 < size - 1 → own.workers ≤ 2 * r.1 = rw t at rest.enough in
        λ h. elim (Bool-cases (ltb r.1 (size - 1))) [
          | inl less ↦ enough (ground arith)
          | inr last ↦
              (let same : r.1 ≡ size - 1 = ground (arith, counted) in omega (arith, same, half))
        ]
    | inr f ↦ rw f at rest.enough
  ];
}

-- If this node has a worker, then whatever the order of the nodes and their answers, the loop of
-- tryOffloadingTasks tries only other nodes that are no busier than this one and have at most
-- twice as many tasks as workers, it counts off exactly the tasks that were taken, and if one
-- was, at least half as many tasks as workers are left.
pub offload_loop-LeavesWork :
    (this_id : ℕ) (own : NodeStatus) (u : Utilization) (size : ℕ) (ps : List Peer)
    → 1 ≤ own.workers
    → LeavesWork this_id own u size (offload_loop this_id own u size ps)
unfolding offload_loop
offload_loop-LeavesWork this_id own u size [] w = record {
  targets = tt;
  counted = omega arith;
  enough = λ h. absurd (omega arith);
}
offload_loop-LeavesWork this_id own u size (p ∷ ps) w =
    if_intro (LeavesWork this_id own u size) (ends_offloading this_id own u size p) _ _
      (λ _. record { targets = tt; counted = omega arith; enough = λ h. absurd (omega arith) })
      (λ e.
        let (target, (some_left, half)) = passed this_id own u size p w e in
        tried_first target some_left half
          (offload_loop-LeavesWork this_id own u (if p.offloads then size - 1 else size) ps w))
