-- ===== src/Redis/Records/Mirror.antt =====
-- control_plane/store/redis.go against control_plane/store/memory.go: the two stores of agents.
use flux_forge.Base.{
  ℕ, String, Option, none, some, ◌≡◌, refl, ◌∙◌, sym, ◌==◌, string_eq, if◌then◌else◌, arith, inl,
  inr, Option-cases, subst,
}
use flux_forge.Base.Dict.{lookup, insert, lookup-insert}
use flux_forge.Store.{Agent, agents, tenant_key}
use flux_forge.Store.Memory.{MemoryStore}
use flux_forge.Store.Memory
use flux_forge.Redis.{RedisServer, TextLaws}
use flux_forge.Redis.Calls.{call_cases, read_cases}
use flux_forge.Redis.Records.{
  Codec, put, stored, fetch, fetched, parsed, upsert_agent, get_agent, update_agent_heartbeat, beat,
}

abbrev encoded : Codec Agent → Option Agent → Option String
encoded codec none = none
encoded codec (some a) = some (codec.marshal a)

-- Redis holds the text of every agent that the memory store holds, under the same key, and no other
-- agent.
abbrev pub Mirrors : {S : Type 0} → RedisServer S → Codec Agent → S → MemoryStore → Type 0
Mirrors redis codec s m =
    (tenant_id node_id : String)
    → redis.get (tenant_key tenant_id agents node_id) s
      ≡ encoded codec (Memory.get_agent tenant_id node_id m)

-- A heartbeat's agent was registered under its own names and is active: Redis writes both anew.
abbrev pub IsOwnActive : String → String → MemoryStore → Type 0
IsOwnActive tenant_id node_id m =
    (a : Agent)
    → Memory.get_agent tenant_id node_id m ≡ some a
    → (a.tenant_id ≡ tenant_id) × (a.node_id ≡ node_id) × (a.status ≡ "active")

-- The JSON of every stored agent is read back as it was.
abbrev pub IsReadable : Codec Agent → MemoryStore → Type 0
IsReadable codec m =
    (tenant_id node_id : String) (a : Agent)
    → Memory.get_agent tenant_id node_id m ≡ some a
    → codec.unmarshal (codec.marshal a) ≡ some a

-- The same registrations and heartbeats reach both stores, and Redis reports no error.
pub data Runs {S : Type 0} (redis : RedisServer S) (codec : Codec Agent) (s₀ : S) (m₀ : MemoryStore)
    : S → MemoryStore → Type 0 where
  start : Runs redis codec s₀ m₀ s₀ m₀
  registered :
      {s : S} {m : MemoryStore}
      → Runs redis codec s₀ m₀ s m
      → (tenant_id : String) (a : Agent) → (upsert_agent redis codec tenant_id a s).1 ≡ none
      → Runs redis codec s₀ m₀
          (upsert_agent redis codec tenant_id a s).0
          (Memory.upsert_agent tenant_id a m)
  beaten :
      {s : S} {m : MemoryStore}
      → Runs redis codec s₀ m₀ s m
      → (tenant_id node_id : String) (t : ℕ) → IsOwnActive tenant_id node_id m
      → IsReadable codec m
      → (update_agent_heartbeat redis codec tenant_id node_id t s).1 ≡ none
      → Runs redis codec s₀ m₀
          (update_agent_heartbeat redis codec tenant_id node_id t s).0
          (Memory.update_agent_heartbeat tenant_id node_id t m).0

module _ {S : Type 0} (redis : RedisServer S) (laws : TextLaws redis) (codec : Codec Agent) where
  put_texts :
      (k j v : String) (s : S)
      → (put redis k v s).1 ≡ none
      → redis.get j (put redis k v s).0 ≡ (if k == j then some v else redis.get j s)
  unfolding put stored
  put_texts k j v s =
      call_cases redis
        (λ r.
          (stored r).1 ≡ none
          → redis.get j (stored r).0 ≡ (if k == j then some v else redis.get j s))
        (λ x. (redis.set k v 0 x, tt)) s (λ e h. ground arith) (λ e h. ground arith)
        (λ h. laws.get-set k j v 0 s)

  upsert-Mirrors :
      (tenant_id : String) (a : Agent) (s : S) (m : MemoryStore)
      → Mirrors redis codec s m
      → (upsert_agent redis codec tenant_id a s).1 ≡ none
      → Mirrors redis codec
          (upsert_agent redis codec tenant_id a s).0
          (Memory.upsert_agent tenant_id a m)
  unfolding upsert_agent Memory.upsert_agent Memory.get_agent
  upsert-Mirrors tenant_id a s m mirrors done t n =
      let k = tenant_key tenant_id agents a.node_id in
      let j = tenant_key t agents n in
      let bound : Agent = record a { tenant_id = tenant_id } in
      let agree : (if k == j then some (codec.marshal bound) else redis.get j s)
          ≡ encoded codec (lookup j (insert k bound m.agent_map)) =
        ground (arith, mirrors t n, lookup-insert k j bound m.agent_map) in
      put_texts k j (codec.marshal bound) s done ∙ agree

  get_agent_agrees :
      (tenant_id node_id : String) (s : S) (m : MemoryStore)
      → IsReadable codec m
      → Mirrors redis codec s m
      → (get_agent redis codec tenant_id node_id s).1 ≡ none
      → (get_agent redis codec tenant_id node_id s).0 ≡ Memory.get_agent tenant_id node_id m
  unfolding get_agent fetch fetched parsed
  get_agent_agrees tenant_id node_id s m reads mirrors =
      let k = tenant_key tenant_id agents node_id in
      let here = mirrors tenant_id node_id in
      read_cases redis
        (λ r.
          (fetched codec r).1 ≡ none → (fetched codec r).0 ≡ Memory.get_agent tenant_id node_id m)
        (redis.get k) s (λ e h. ground arith)
        (λ h. elim (Option-cases (Memory.get_agent tenant_id node_id m)) [
          | inl free ↦
              let missing : redis.get k s ≡ none = rw free at here in rw (missing, free) refl
          | inr (a, held) ↦
              let found : redis.get k s ≡ some (codec.marshal a) = rw held at here in
              rw (found, held, reads tenant_id node_id a held) refl
        ])

  -- The agent that Redis writes for a heartbeat of its own is the memory store's.
  same_beat :
      (tenant_id node_id : String) (t : ℕ) (a : Agent) (m : MemoryStore)
      → Memory.get_agent tenant_id node_id m ≡ some a
      → IsOwnActive tenant_id node_id m
      → Memory.upsert_agent tenant_id (record a { last_heartbeat = t; status = "active" }) m
        ≡ (Memory.update_agent_heartbeat tenant_id node_id t m).0
  unfolding Memory.upsert_agent Memory.get_agent Memory.update_agent_heartbeat
  same_beat tenant_id node_id t a m held own =
      let (tenant, node, status) = own a held in rw (held, ← tenant, ← node, ← status) refl

  beat-Mirrors :
      (tenant_id node_id : String) (t : ℕ) (s : S) (m : MemoryStore)
      (answer : Option Agent × Option String)
      → Mirrors redis codec s m
      → IsOwnActive tenant_id node_id m
      → answer.0 ≡ Memory.get_agent tenant_id node_id m
      → (beat redis codec tenant_id node_id t s answer).1 ≡ none
      → Mirrors redis codec
          (beat redis codec tenant_id node_id t s answer).0
          (Memory.update_agent_heartbeat tenant_id node_id t m).0
  unfolding beat
  beat-Mirrors tenant_id node_id t s m (a, some e) mirrors own agrees done = ground arith
  beat-Mirrors tenant_id node_id t s m (none, none) mirrors own agrees done = ground arith
  beat-Mirrors tenant_id node_id t s m (some a, none) mirrors own agrees done =
      subst (Mirrors redis codec _) (same_beat tenant_id node_id t a m (sym agrees) own) (
        upsert-Mirrors tenant_id (record a { last_heartbeat = t; status = "active" }) s m mirrors
          done)

  beat_error :
      (tenant_id node_id : String) (t : ℕ) (s : S) (answer : Option Agent × Option String)
      → (beat redis codec tenant_id node_id t s answer).1 ≡ none
      → answer.1 ≡ none
  unfolding beat
  beat_error tenant_id node_id t s (a, some e) h = ground arith
  beat_error tenant_id node_id t s (a, none) h = refl

  heartbeat-Mirrors :
      (tenant_id node_id : String) (t : ℕ) (s : S) (m : MemoryStore)
      → Mirrors redis codec s m
      → IsOwnActive tenant_id node_id m
      → IsReadable codec m
      → (update_agent_heartbeat redis codec tenant_id node_id t s).1 ≡ none
      → Mirrors redis codec
          (update_agent_heartbeat redis codec tenant_id node_id t s).0
          (Memory.update_agent_heartbeat tenant_id node_id t m).0
  unfolding update_agent_heartbeat
  heartbeat-Mirrors tenant_id node_id t s m mirrors own reads done =
      let answer = get_agent redis codec tenant_id node_id s in
      let found = beat_error tenant_id node_id t s answer done in
      let agrees = get_agent_agrees tenant_id node_id s m reads mirrors found in
      beat-Mirrors tenant_id node_id t s m answer mirrors own agrees done

  Runs-Mirrors :
      (s₀ : S) (m₀ : MemoryStore) (s : S) (m : MemoryStore)
      → Runs redis codec s₀ m₀ s m
      → Mirrors redis codec s₀ m₀
      → Mirrors redis codec s m
  Runs-Mirrors s₀ m₀ _ _ start mirrors = mirrors
  Runs-Mirrors s₀ m₀ _ _ (registered {s} {m} before tenant_id a done) mirrors =
      upsert-Mirrors tenant_id a s m (Runs-Mirrors s₀ m₀ s m before mirrors) done
  Runs-Mirrors s₀ m₀ _ _ (beaten {s} {m} before tenant_id node_id t own reads done) mirrors =
      heartbeat-Mirrors tenant_id node_id t s m (Runs-Mirrors s₀ m₀ s m before mirrors) own reads
        done

  -- Redis and the memory store agree on agents: after the same registrations and heartbeats on both, from stores that hold the same agents, GetAgent answers the same, if Redis reports no error and every heartbeat was of an agent that is active and registered under its own names. The JSON of the stored agents is read back.
  pub agents_agree :
      (s₀ s : S) (m₀ m : MemoryStore) (tenant_id node_id : String)
      → Mirrors redis codec s₀ m₀
      → Runs redis codec s₀ m₀ s m
      → IsReadable codec m
      → (get_agent redis codec tenant_id node_id s).1 ≡ none
      → (get_agent redis codec tenant_id node_id s).0 ≡ Memory.get_agent tenant_id node_id m
  agents_agree s₀ s m₀ m tenant_id node_id mirrors runs reads =
      get_agent_agrees tenant_id node_id s m reads (Runs-Mirrors s₀ m₀ s m runs mirrors)
