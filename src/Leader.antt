-- ===== src/Leader.antt =====
-- control_plane/coordination/leader.go: a node's elector. Its loop is modelled tick by tick; callbacks
-- are the outcome of a tick. The coordinator (control_plane/store/coordinator.go, an interface) and the
-- durable store of epochs are parameters with states of their own, and so is the JSON of a lock's
-- metadata. A context is the epoch that it carries and whether it is live. Metrics are left out.
pub mod Janitor
pub mod Backoff
pub mod Fencing
pub mod MemoryEpochs
use flux_forge.Base.{
  ℕ, suc, ◌+◌, ◌*◌, ◌/◌, String, Bool, true, false, not, Option, none, some, List, ◌==◌, string_eq,
  ltb, leb, if◌then◌else◌,
}
use flux_forge.Task.{second}

pub record LockMetadata : Type 0 where
  pub owner_pod : String
  pub epoch : ℕ
  pub req_id : String
  pub created_at : ℕ
  pub expires_at : ℕ

-- The part of the Coordinator interface that the elector and the janitor call. An operation returns
-- its result and an error.
pub record Coordinator (C : Type 0) : Type 0 where
  pub acquire_lease : String → String → ℕ → C → C × Bool × Option String
  pub renew_lease : String → String → ℕ → C → C × Bool × Option String
  pub release_lease : String → String → C → C × Option String
  pub get_lock_owner : String → C → String × Option String
  pub scan_locks : String → C → List String × Option String

-- IncrementDurableEpoch and GetDurableEpoch of the store; `none` is an error.
pub record EpochStore (D : Type 0) : Type 0 where
  pub increment_durable_epoch : String → D → D × Option ℕ
  pub get_durable_epoch : String → D → Option ℕ

pub record FencedContext : Type 0 where
  pub fencing_epoch : ℕ
  pub live : Bool

pub record LeaderElector : Type 0 where
  pub node_id : String
  pub lock_key : String
  pub ttl : ℕ
  pub leader_ctx : Option FencedContext
  pub is_leader : Bool
  pub current_value : String
  pub current_epoch : ℕ
  pub step_down_time : ℕ
  pub transitions : ℕ

-- The elector with the variables of its loop.
pub record Loop : Type 0 where
  pub elector : LeaderElector
  pub interval : ℕ
  pub renew_failures : ℕ

-- The callback that a tick ends with.
pub data Callback : Type 0 where
  quiet lost : Callback
  elected : ℕ → Callback

pub record LeaderState : Type 0 where
  pub is_leader : Bool
  pub current_epoch : ℕ
  pub transitions : ℕ
  pub node_id : String

abbrev pub election_resource : String
election_resource = "leader_election"

unfoldable pub new_leader_elector : String → ℕ → LeaderElector
new_leader_elector node_id ttl = record {
  node_id = node_id;
  lock_key = "fluxforge:lock:leader";
  ttl = ttl;
  leader_ctx = none;
  is_leader = false;
  current_value = "";
  current_epoch = 0;
  step_down_time = 0;
  transitions = 0;
}

unfoldable pub start_loop : LeaderElector → Loop
start_loop l = record { elector = l; interval = l.ttl / 3; renew_failures = 0 }

unfoldable pub get_state : LeaderElector → LeaderState
get_state l = record {
  is_leader = l.is_leader;
  current_epoch = l.current_epoch;
  transitions = l.transitions;
  node_id = l.node_id;
}

unfoldable pub become_leader : LeaderElector → LeaderElector
become_leader l = record l {
  is_leader = true;
  transitions = suc l.transitions;
  leader_ctx = some (record { fencing_epoch = l.current_epoch; live = true });
  step_down_time = 0;
}

cancel : Option FencedContext → Option FencedContext
cancel none = none
cancel (some c) = some (record c { live = false })

unfoldable pub step_down : ℕ → LeaderElector → LeaderElector
unfolding cancel
step_down now l = if not l.is_leader then l else record l {
  is_leader = false;
  transitions = suc l.transitions;
  step_down_time = now;
  leader_ctx = cancel l.leader_ctx;
}

-- The backoff at the end of a tick.
unfoldable pub next_interval : ℕ → Bool → ℕ → ℕ
next_interval ttl failed interval =
    if failed then (if ltb (10 * ttl) (interval * 2) then 10 * ttl else interval * 2) else ttl / 3

-- The renewed, failed or refused renewal, on the loop's variables.
unfoldable pub after_renew : ℕ → Bool → Option String → Loop → Loop × Callback
unfolding step_down next_interval
after_renew now renewed none s =
    let backed : Loop = record {
      elector = s.elector;
      interval = next_interval s.elector.ttl false s.interval;
      renew_failures = 0;
    } in
    if renewed then (backed, quiet) else (record backed { elector = step_down now s.elector }, lost)
after_renew now renewed (some err) s =
    let failures = suc s.renew_failures in
    let backed : Loop = record {
      elector = s.elector;
      interval = next_interval s.elector.ttl true s.interval;
      renew_failures = failures;
    } in
    if leb 3 failures
    then (record backed { elector = step_down now s.elector; renew_failures = 0 }, lost)
    else (backed, quiet)

module _ {C D : Type 0} (coordinator : Coordinator C) (epochs : EpochStore D)
    (marshal : LockMetadata → String) where
  lease :
      String → LeaderElector → C × Bool × Option String → LeaderElector × C × Bool × Option String
  lease value l (c, acquired, none) =
      (if acquired then record l { current_value = value } else l, c, acquired, none)
  lease value l (c, acquired, some err) = (l, c, false, some err)

  -- The epoch is raised before the lease is asked for.
  acquire_with :
      ℕ → String → LeaderElector → C → D × Option ℕ → LeaderElector × C × D × Bool × Option String
  unfolding lease
  acquire_with now req_id l c (d, none) = (l, c, d, false, some "epoch")
  acquire_with now req_id l c (d, some epoch) =
      let value = marshal (record {
        owner_pod = l.node_id;
        epoch = epoch;
        req_id = req_id;
        created_at = now;
        expires_at = now + l.ttl;
      }) in
      let (l', c', acquired, err) =
        lease value (record l { current_epoch = epoch })
          (coordinator.acquire_lease l.lock_key value l.ttl c) in
      (l', c', d, acquired, err)

  unfoldable pub acquire :
      ℕ → String → LeaderElector → C → D → LeaderElector × C × D × Bool × Option String
  unfolding acquire_with
  acquire now req_id l c d =
      acquire_with now req_id l c (epochs.increment_durable_epoch election_resource d)

  -- The renewal of an elector that holds no value is refused without a call.
  unfoldable pub renew : LeaderElector → C → C × Bool × Option String
  renew l c =
      if l.current_value == ""
      then (c, false, none)
      else coordinator.renew_lease l.lock_key l.current_value l.ttl c

  unfoldable pub release : LeaderElector → C → C
  release l c =
      if l.current_value == ""
      then c
      else (coordinator.release_lease l.lock_key l.current_value c).0

  -- The context of Start is done, or Stop is called.
  unfoldable pub shut_down : LeaderElector → C → C
  unfolding release
  shut_down l c = if l.is_leader then release l c else c

  -- The attempt of a follower, on the loop's variables.
  after_acquire : Bool → Option String → LeaderElector → Loop → Loop × Callback
  unfolding become_leader next_interval
  after_acquire acquired none l s =
      let backed : Loop = record {
        elector = l;
        interval = next_interval l.ttl false s.interval;
        renew_failures = s.renew_failures;
      } in
      if acquired
      then (
        record backed { elector = become_leader l; renew_failures = 0 },
        elected l.current_epoch,
      )
      else (backed, quiet)
  after_acquire acquired (some err) l s = (
    record {
      elector = l;
      interval = next_interval l.ttl true s.interval;
      renew_failures = s.renew_failures;
    },
    quiet,
  )

  unfoldable pub leader_tick : ℕ → Loop → C → Loop × C × Callback
  unfolding after_renew renew
  leader_tick now s c =
      let (c', renewed, err) = renew s.elector c in
      let (s', callback) = after_renew now renewed err s in (s', c', callback)

  unfoldable pub follower_tick : ℕ → String → Loop → C → D → Loop × C × D × Callback
  unfolding acquire after_acquire
  follower_tick now req_id s c d =
      let (l, c', d', acquired, err) = acquire now req_id s.elector c d in
      let (s', callback) = after_acquire acquired err l s in (s', c', d', callback)

  -- One round of the loop: its timer has fired.
  unfoldable pub tick : ℕ → String → Loop → C → D → Loop × C × D × Callback
  unfolding leader_tick follower_tick
  tick now req_id s c d =
      let (led, c₁, led_callback) = leader_tick now s c in
      let followed = follower_tick now req_id s c d in
      if s.elector.is_leader then (led, c₁, d, led_callback) else followed
