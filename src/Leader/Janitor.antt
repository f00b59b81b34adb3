-- ===== src/Leader/Janitor.antt =====
-- control_plane/coordination/janitor.go: the worker that releases fenced and stale locks, one round at
-- a time. Reading the JSON of a lock's metadata is a parameter.
use flux_forge.Base.{
  ℕ, subst, ◌+◌, ◌*◌, ◌-◌, ◌<◌, ◌≤◌, String, Bool, false, Option, none, some, List, [], ◌∷◌, ◌≡◌,
  ◌≢◌, refl, ◌∙◌, inl, inr, ◌==◌, nat_eq, string_eq, ltb, if◌then◌else◌, arith, length, Bool-cases,
  Option-cases, ==_iff, ==_ne,
}
use flux_forge.Base.Text.{bytes, drop_bytes, same_bytes}
use flux_forge.Task.{second}
use flux_forge.Leader.{LockMetadata, Coordinator, EpochStore, election_resource}

-- `len(key) > 6 && key[len(key)-6:] == ":epoch"`
unfoldable pub is_epoch_key : String → Bool
unfolding drop_bytes same_bytes bytes
is_epoch_key key =
    let size = length (bytes key) in
    if ltb 6 size then same_bytes (drop_bytes (size - 6) (bytes key)) (bytes ":epoch") else false

unfoldable pub is_fenced : ℕ → LockMetadata → Bool
is_fenced current_epoch meta = ltb meta.epoch current_epoch

unfoldable pub is_expired : ℕ → LockMetadata → Bool
is_expired now meta = ltb (meta.expires_at + 5 * second) now

module _ {C D : Type 0} (coordinator : Coordinator C) (epochs : EpochStore D)
    (unmarshal : String → Option LockMetadata) where
  judge_lock : ℕ → ℕ → String → String → C → Option LockMetadata → C
  judge_lock now epoch key value c none = c
  judge_lock now epoch key value c (some meta) =
      if is_fenced epoch meta
      then (coordinator.release_lease key value c).0
      else if is_expired now meta
      then (coordinator.release_lease key value c).0
      else c

  owned : ℕ → ℕ → String → C → String × Option String → C
  unfolding judge_lock
  owned now epoch key c (value, some err) = c
  owned now epoch key c (value, none) =
      if value == "" then c else judge_lock now epoch key value c (unmarshal value)

  -- The body of the loop over the keys.
  unfoldable pub clean_key : ℕ → ℕ → String → C → C
  unfolding owned
  clean_key now epoch key c =
      if is_epoch_key key then c else owned now epoch key c (coordinator.get_lock_owner key c)

  unfoldable pub clean_keys : ℕ → ℕ → List String → C → C
  unfolding clean_key
  clean_keys now epoch [] c = c
  clean_keys now epoch (key ∷ keys) c = clean_keys now epoch keys (clean_key now epoch key c)

  scanned : ℕ → ℕ → C → List String × Option String → C
  unfolding clean_keys
  scanned now epoch c (keys, some err) = c
  scanned now epoch c (keys, none) = clean_keys now epoch keys c

  unfoldable pub clean : ℕ → C → D → C
  unfolding scanned
  clean now c d = elim (epochs.get_durable_epoch election_resource d) [
    | none ↦ c
    | some epoch ↦ scanned now epoch c (coordinator.scan_locks "fluxforge:lock:*" c)
  ]

-- What the coordinator promises, by the value that it holds under a key, the empty text for none: the
-- owner that it reports is the value held, and a release touches its own key only, and that only
-- where the value is the one held and the call reports no error.
pub record Holds {C : Type 0} (coordinator : Coordinator C) (held : C → String → String)
    : Type 0 where
  pub owner : (k v : String) (c : C) → coordinator.get_lock_owner k c ≡ (v, none) → held c k ≡ v
  pub released :
      (k v : String) (c : C)
      → held c k ≡ v
      → (coordinator.release_lease k v c).1 ≡ none
      → held (coordinator.release_lease k v c).0 k ≡ ""
  pub kept :
      (k v j : String) (c : C) → k ≢ j → held (coordinator.release_lease k v c).0 j ≡ held c j

module _ {C D : Type 0} (coordinator : Coordinator C) (epochs : EpochStore D)
    (unmarshal : String → Option LockMetadata) (held : C → String → String)
    (holds : Holds coordinator held) where
  owned_keeps :
      (now epoch : ℕ) (key k : String) (meta : LockMetadata) (c : C)
      (reply : String × Option String)
      → coordinator.get_lock_owner key c ≡ reply
      → unmarshal (held c k) ≡ some meta
      → epoch ≤ meta.epoch
      → now ≤ meta.expires_at + 5 * second
      → held (owned coordinator epochs unmarshal now epoch key c reply) k ≡ held c k
  unfolding owned is_fenced is_expired
  owned_keeps now epoch key k meta c (v, some e) g u young live = refl
  owned_keeps now epoch key k meta c (v, none) g u young live = elim (Bool-cases (key == k)) [
    | inl e ↦
        let same = (==_iff key k).0 e in
        let own : held c k ≡ v = subst (λ j. held c j ≡ v) same (holds.owner key v c g) in
        let read : unmarshal v ≡ some meta = subst (λ x. unmarshal x ≡ some meta) own u in
        rw read (ground arith)
    | inr e ↦
        let apart : key ≢ k = λ same. cc (e, (==_iff key k).1 same) in
        let kept = holds.kept key v k c apart in
        elim (Option-cases (unmarshal v)) [
          | inl none_read ↦ rw none_read (ground arith)
          | inr (other, read) ↦ rw read (ground (arith, kept))
        ]
  ]

  clean_keys_keeps :
      (now epoch : ℕ) (keys : List String) (k : String) (meta : LockMetadata) (c : C)
      → unmarshal (held c k) ≡ some meta
      → epoch ≤ meta.epoch
      → now ≤ meta.expires_at + 5 * second
      → held (clean_keys coordinator epochs unmarshal now epoch keys c) k ≡ held c k
  unfolding clean_keys clean_key
  clean_keys_keeps now epoch [] k meta c u young live = refl
  clean_keys_keeps now epoch (key ∷ keys) k meta c u young live =
      let here =
        owned_keeps now epoch key k meta c (coordinator.get_lock_owner key c) refl u young live in
      let c' = clean_key coordinator epochs unmarshal now epoch key c in
      let step : held c' k ≡ held c k = ground (arith, here) in
      let u' : unmarshal (held c' k) ≡ some meta = rw step u in
      clean_keys_keeps now epoch keys k meta c' u' young live ∙ step

  -- With a coordinator that keeps its promises, a round of the janitor leaves a lock alone whose epoch is the durable epoch or later and that is not expired for more than five seconds.
  pub clean_keeps :
      (now epoch : ℕ) (k : String) (meta : LockMetadata) (c : C) (d : D)
      → epochs.get_durable_epoch election_resource d ≡ some epoch
      → unmarshal (held c k) ≡ some meta
      → epoch ≤ meta.epoch
      → now ≤ meta.expires_at + 5 * second
      → held (clean coordinator epochs unmarshal now c d) k ≡ held c k
  unfolding clean scanned
  clean_keeps now epoch k meta c d g u young live =
      rw (g, clean)
        (scanned_keeps now epoch k meta c (coordinator.scan_locks "fluxforge:lock:*" c) u young
          live)
    where
      scanned_keeps :
          (now epoch : ℕ) (k : String) (meta : LockMetadata) (c : C)
          (reply : List String × Option String)
          → unmarshal (held c k) ≡ some meta
          → epoch ≤ meta.epoch
          → now ≤ meta.expires_at + 5 * second
          → held (scanned coordinator epochs unmarshal now epoch c reply) k ≡ held c k
      scanned_keeps now epoch k meta c (keys, some e) u young live = refl
      scanned_keeps now epoch k meta c (keys, none) u young live =
          clean_keys_keeps now epoch keys k meta c u young live

  -- A round of the janitor whose scan reports one key, not of an epoch, and a value with an older epoch than the durable one releases that lock, expired or not, if the release reports no error.
  pub clean_fences :
      (now epoch : ℕ) (k v : String) (meta : LockMetadata) (c : C) (d : D)
      → epochs.get_durable_epoch election_resource d ≡ some epoch
      → coordinator.scan_locks "fluxforge:lock:*" c ≡ (k ∷ [], none)
      → is_epoch_key k ≡ false
      → coordinator.get_lock_owner k c ≡ (v, none)
      → v ≢ ""
      → unmarshal v ≡ some meta
      → meta.epoch < epoch
      → (coordinator.release_lease k v c).1 ≡ none
      → held (clean coordinator epochs unmarshal now c d) k ≡ ""
  unfolding clean scanned clean_keys clean_key owned judge_lock is_fenced
  clean_fences now epoch k v meta c d g s plain o n u old done =
      let gone = holds.released k v c (holds.owner k v c o) done in
      ground (arith, g, s, plain, o, ==_ne v "" n, u, gone)
