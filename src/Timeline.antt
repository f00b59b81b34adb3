-- ===== src/Timeline.antt =====
-- control_plane/timeline/store.go: the append-only log of reconcile events.
-- The Metadata map may be nil.
use flux_forge.Base.{
  ℕ, ◌++◌, String, Bool, false, Option, none, some, List, [], ◌∷◌, ◌==◌, string_eq, nat_eq, keep_if,
  if◌then◌else◌,
}
use flux_forge.Base.Dict.{Dict, lookup}

pub record ReconcileEvent : Type 0 where
  pub req_id : String
  pub stage : String
  pub timestamp : ℕ
  pub node_id : String
  pub tenant_id : String
  pub metadata : Option (Dict String String)

abbrev pub Timeline : Type 0
Timeline = List ReconcileEvent

unfoldable pub record_event : ℕ → ReconcileEvent → Timeline → Timeline
record_event now e events =
    events ++ (if e.timestamp == 0 then record e { timestamp = now } else e) ∷ []

unfoldable pub get_events : String → Timeline → List ReconcileEvent
get_events req_id events = keep_if (λ e. e.req_id == req_id) events

-- `e.Metadata["state_id"] == stateID`: a missing key reads as the empty string.
abbrev pub has_value : Option String → String → Bool
has_value none v = "" == v
has_value (some w) v = w == v

-- The test of the loop: a nil map is not compared.
abbrev pub mentions_state : String → ReconcileEvent → Bool
mentions_state state_id e = elim e.metadata [
  | none ↦ false
  | some meta ↦ has_value (lookup "state_id" meta) state_id
]

unfoldable pub get_events_by_state_id : String → Timeline → List ReconcileEvent
get_events_by_state_id state_id events = keep_if (mentions_state state_id) events

unfoldable pub get_all_events : Timeline → List ReconcileEvent
get_all_events events = events
