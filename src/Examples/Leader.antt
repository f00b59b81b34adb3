-- ===== src/Examples/Leader.antt =====
-- Leader election over the in-memory store and a coordinator that keeps its leases in a map.
use flux_forge.Base.{
  ℕ, ◌*◌, String, true, false, Option, none, some, List, [], ◌∷◌, ◌≡◌, ◌≢◌, refl, ◌==◌, string_eq,
  if◌then◌else◌, arith, ==_refl, ==_iff,
}
use flux_forge.Base.Dict.{Dict, lookup, insert, delete, lookup-delete}
use flux_forge.Task.{second}
use flux_forge.Store.Memory.{
  MemoryStore, new_memory_store, increment_durable_epoch, get_durable_epoch,
}
use flux_forge.Leader.{
  LockMetadata, Coordinator, Loop, new_leader_elector, start_loop, tick, follower_tick,
  election_resource, become_leader,
}
use flux_forge.Leader.Janitor.{clean, is_fenced, is_epoch_key, Holds, clean_keeps, clean_fences}
use flux_forge.Leader.Fencing.{Round, follower_outdates}
use flux_forge.Leader.MemoryEpochs.{memory_epochs, durable, memory_epochs-IsMonotone}
use flux_forge.Leader.Backoff.{IsPaced, IsCutOff, cut_off-follows, start_loop-IsPaced}

abbrev Leases : Type 0
Leases = Dict String String

abbrev holder : Option String → String
holder none = ""
holder (some v) = v

abbrev held : Leases → String → String
held c k = holder (lookup k c)

abbrev leases : Coordinator Leases
leases = record {
  acquire_lease =
      λ k v ttl c. if held c k == "" then (insert k v c, true, none) else (c, false, none);
  renew_lease = λ k v ttl c. (c, held c k == v, none);
  release_lease = λ k v c. (if held c k == v then delete k c else c, none);
  get_lock_owner = λ k c. (held c k, none);
  scan_locks = λ pattern c. ("fluxforge:lock:leader" ∷ [], none);
}

leases-Holds : Holds leases held
leases-Holds = record {
  owner = λ k v c h. cc;
  released = λ k v c h. ground (arith, h, lookup-delete k k c, ==_refl k, ==_iff (held c k) v);
  kept = λ k v j c n. ground (arith, lookup-delete k j c, ==_iff k j, n);
}

-- A node's name is all that this stand-in keeps of the metadata's JSON.
abbrev marshal : LockMetadata → String
marshal meta = meta.owner_pod

abbrev loop_of : String → Loop
loop_of node_id = start_loop (new_leader_elector node_id (30 * second))

abbrev ticks : List Round
ticks =
    record { node = 0; now = 10 * second; req_id = "r1" }
    ∷ record { node = 1; now = 11 * second; req_id = "r2" }
    ∷ record { node = 0; now = 20 * second; req_id = "r3" }
    ∷ []

abbrev lock_of : ℕ → ℕ → LockMetadata
lock_of epoch expires = record {
  owner_pod = "n1";
  epoch = epoch;
  req_id = "r1";
  created_at = 10 * second;
  expires_at = expires;
}

abbrev first_epoch : MemoryStore
first_epoch = (increment_durable_epoch election_resource new_memory_store).0

abbrev led_by_n1 : Leases
led_by_n1 = ("fluxforge:lock:leader", "n1") ∷ []

-- The follower n2 tries while n1 leads with epoch 1.
attempt : (memory_epochs.increment_durable_epoch election_resource first_epoch).1 ≡ some 2
unfolding increment_durable_epoch get_durable_epoch new_memory_store insert lookup
attempt = refl

follower_outdates_example : is_fenced 2 (lock_of 1 (40 * second)) ≡ true
unfolding increment_durable_epoch get_durable_epoch new_memory_store insert lookup follower_tick
follower_outdates_example =
    follower_outdates leases memory_epochs marshal durable memory_epochs-IsMonotone (11 * second)
      "r2" (loop_of "n2") led_by_n1 first_epoch
      (increment_durable_epoch election_resource first_epoch).0 2 2 (lock_of 1 (40 * second)) refl
      refl (omega arith)

start-IsPaced : IsPaced (loop_of "n1")
start-IsPaced = start_loop-IsPaced "n1" (30 * second)

abbrev unreachable : Coordinator Leases
unreachable = record leases {
  acquire_lease = λ k v ttl c. (c, false, some "i/o timeout");
  renew_lease = λ k v ttl c. (c, false, some "i/o timeout");
}

unreachable-IsCutOff : IsCutOff unreachable memory_epochs marshal
unreachable-IsCutOff = record { renewals = λ k v ttl c h. cc; attempts = λ k v ttl c h. cc }

abbrev leading : Loop
leading = record (loop_of "n1") {
  elector = record (become_leader (new_leader_elector "n1" (30 * second))) { current_value = "n1" };
}

cut_off-follows_example :
    let (s₁, c₁, d₁, _) =
      tick unreachable memory_epochs marshal 1 "r1" leading led_by_n1 first_epoch in
    let (s₂, c₂, d₂, _) = tick unreachable memory_epochs marshal 2 "r2" s₁ c₁ d₁ in
    let (s₃, _, _, _) = tick unreachable memory_epochs marshal 3 "r3" s₂ c₂ d₂ in
    s₃.elector.is_leader ≡ false
cut_off-follows_example =
    cut_off-follows unreachable memory_epochs marshal unreachable-IsCutOff 1 2 3 "r1" "r2" "r3"
      leading led_by_n1 first_epoch

abbrev unmarshal : ℕ → String → Option LockMetadata
unmarshal epoch value = if value == "n1" then some (lock_of epoch (40 * second)) else none

clean_keeps_example :
    held
      (clean leases memory_epochs (unmarshal 1) (44 * second) led_by_n1 first_epoch)
      "fluxforge:lock:leader"
    ≡ held led_by_n1 "fluxforge:lock:leader"
unfolding increment_durable_epoch get_durable_epoch new_memory_store insert lookup
clean_keeps_example =
    clean_keeps leases memory_epochs (unmarshal 1) held leases-Holds (44 * second) 1
      "fluxforge:lock:leader" (lock_of 1 (40 * second)) led_by_n1 first_epoch refl refl
      (omega arith) (omega arith)

n1-ne-empty : ◌≢◌ {A = String} "n1" ""
n1-ne-empty h = cc (fact, (==_iff {A = String} "n1" "").1 h)
  where
    fact : (◌==◌ {A = String} "n1" "") ≡ false
    fact = refl

-- The lease of a leader that is alive: it expires in 29 seconds.
clean_fences_example :
    held
      (clean leases memory_epochs (unmarshal 0) (11 * second) led_by_n1 first_epoch)
      "fluxforge:lock:leader"
    ≡ ""
unfolding increment_durable_epoch get_durable_epoch new_memory_store insert lookup is_epoch_key
clean_fences_example =
    clean_fences leases memory_epochs (unmarshal 0) held leases-Holds (11 * second) 1
      "fluxforge:lock:leader" "n1" (lock_of 0 (40 * second)) led_by_n1 first_epoch refl refl refl
      refl n1-ne-empty refl (omega arith) refl
