-- ===== src/Scheduler/Sharding.antt =====
-- scheduler.go and store/memory.go divide the nodes among the shards alike.
use Prim.Native.Nat.{bit_xor}
use flux_forge.Base.{
  ℕ, ◌<◌, ◌%◌, ◌*◌, ◌^◌, ◌≡◌, ◌≢◌, refl, String, false, none, some, List, [], ◌∷◌, nat_eq,
  string_eq, arith, All, All-keep_if, ◌↔◌, map,
}
use flux_forge.Base.Text.{bytes}
use flux_forge.Store.Memory.{MemoryStore, list_states_by_status}
use flux_forge.Store.Memory
use flux_forge.Task.{ReconciliationTask}
use flux_forge.Scheduler.{Scheduler, submit, fnv_loop, fnv_hash, shard_of, is_foreign}
use flux_forge.Scheduler.Admission.{submit_needs}

hashes_loop : (h : ℕ) (s : List ℕ) → fnv_loop h s ≡ Memory.fnv_loop h s
unfolding fnv_loop Memory.fnv_loop
hashes_loop h [] = refl
hashes_loop h (b ∷ s) = hashes_loop (bit_xor (h * 16777619 % 2 ^ 32) b) s

-- The two copies of the hash function agree on every text.
pub fnv_hash_agree : (s : String) → fnv_hash s ≡ Memory.fnv_hash s
unfolding fnv_hash Memory.fnv_hash
fnv_hash_agree s = hashes_loop _ (bytes s)

-- Every node belongs to exactly one of the shards: its shard is in range, and a scheduler takes the node as its own just when it has that index.
pub shard_partition :
    {B : Type 0} (node_id : String) (s : Scheduler B)
    → 1 < s.shard_count
    → s.shard_count < 2 ^ 32
    → (shard_of node_id s.shard_count < s.shard_count)
      × ((is_foreign node_id s ≡ false) ↔ (s.shard_index ≡ shard_of node_id s.shard_count))
unfolding shard_of
shard_partition node_id s h k = ground arith

-- Of two schedulers with the same number of shards and different indices, at most one accepts a task.
pub submit_one_shard :
    {B : Type 0} (now later : ℕ) (task : ReconciliationTask) (s t s' t' : Scheduler B)
    (u v : ReconciliationTask)
    → 1 < s.shard_count
    → t.shard_count ≡ s.shard_count
    → t.shard_index ≢ s.shard_index
    → submit now task s ≡ some (s', u, none)
    → submit later task t ≢ some (t', v, none)
submit_one_shard now later task s t s' t' u v h c i p q =
    ground
      (arith, (submit_needs now task u s s' p).mine, (submit_needs later task v t t' q).mine, c)

-- Whatever status is asked for, no state that the store lists for a scheduler's shard belongs to a node of another shard.
pub listed_is_mine :
    {B : Type 0} (status : String) (store : MemoryStore) (s : Scheduler B)
    → All
        (λ st. is_foreign st.node_id s ≡ false)
        (list_states_by_status status s.shard_index s.shard_count store)
unfolding list_states_by_status shard_of
listed_is_mine status store s =
    All-keep_if _ _ (map (λ e. e.1) store.state_map)
      (λ st e. ground (arith, fnv_hash_agree st.node_id))
