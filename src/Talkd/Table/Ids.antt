-- ===== src/Talkd/Table/Ids.antt =====
-- `new_id` gives every number below MAX_ID but 0 before it gives one again.
use netkit.Base.{ℕ, zero, suc, ◌+◌, ◌-◌, ◌%◌, ◌<◌, ◌≡◌, ◌≢◌, arith}
use netkit.Talkd.Table.{new_id, max_id}

-- The id that stands after `k` calls.
pub nth_id : ℕ → ℕ → ℕ
nth_id zero id = id
nth_id (suc k) id = new_id (nth_id k id)

pub new_id_range : (id : ℕ) → (0 < new_id id) × (new_id id < max_id)
unfolding new_id
new_id_range id = ground arith

new_id-cycle : (id : ℕ) → 0 < id → id < max_id → new_id id ≡ id % 15999 + 1
unfolding new_id
new_id-cycle id lo hi = ground arith

nth_id_lem : (k id : ℕ) → 0 < id → id < max_id → nth_id k id ≡ (id - 1 + k) % 15999 + 1
unfolding nth_id
nth_id_lem zero id lo hi = omega arith
nth_id_lem (suc k) id lo hi = omega (arith, nth_id_lem k id lo hi, new_id-cycle (nth_id k id))

-- From an id on, fewer than 15999 further calls of `new_id` give neither 0 nor MAX_ID nor that id
-- again, and the 15999th gives it.
pub nth_id_unique :
    (k id : ℕ)
    → 0 < id
    → id < max_id
    → 0 < k
    → k < 15999
    → (0 < nth_id k id) × (nth_id k id < max_id) × (nth_id k id ≢ id) × (nth_id 15999 id ≡ id)
nth_id_unique k id lo hi pos small = (
  omega (arith, nth_id_lem k id lo hi),
  omega (arith, nth_id_lem k id lo hi),
  omega (arith, nth_id_lem k id lo hi),
  omega (arith, nth_id_lem 15999 id lo hi),
)
