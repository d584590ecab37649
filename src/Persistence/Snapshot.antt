-- ===== src/Persistence/Snapshot.antt =====
-- nan/persistence/snapshot.py: `AgentSnapshot`, its JSON form, and `InFlight`.
use nan_itself.Base.{
  ℕ, String, ◌≡◌, refl, ap, Bool, true, ◌&&◌, Option, none, some, List, [], ◌∷◌, map, if◌then◌else◌,
  ◌==◌, string_eq, nat_eq, last?,
}
use nan_itself.Base.Int.{pos}
use nan_itself.Base.Json.{Json, bool, int, str, arr, obj, end, field, get}
use nan_itself.Base.Read.{Read, ok, missing, invalid, untyped, ◌>>=◌, item, iterate, read_each}
use nan_itself.Turn.Model.{Turn, TurnPhase, observed, committed, Death, InboxMessage}
use nan_itself.Turn.Codec.{
  Dtos, null_or, nat, list, each, message_json, message_of, turn_json, turn_of,
}
use nan_itself.Turn.RoundTrip.{
  IsFaithful, stored, message_lem, same_lem, list_lem, turn_of-turn_json,
}

pub record AgentSnapshot : Type 0 where
  pub agent_id : String
  pub parent_id : Option String
  pub depth : ℕ
  pub turns : List Turn
  pub pending : List InboxMessage

-- The test of `__post_init__`.
unfoldable pub owns : (agent_id : String) → List Turn → Bool
owns i [] = true
owns i (t ∷ ts) = t.agent_id == i && owns i ts

-- The property `death`: the first exit record.
unfoldable pub death_in : List Turn → Option Death
death_in [] = none
death_in (t ∷ ts) = let rest = death_in ts in elim t.death [ none ↦ rest | some d ↦ some d ]

-- `isinstance(depth, int)`, which a bool passes too.
abbrev pub as_depth : Json → Read ℕ
as_depth (int (pos n)) = ok n
as_depth (int _) = untyped
as_depth (bool b) = untyped
as_depth _ = invalid

abbrev pub as_id : Json → Read String
as_id (str s) = ok s
as_id _ = invalid

-- `parent_id if isinstance(parent_id, str) else None`
abbrev pub as_parent : Json → Option String
as_parent (str s) = some s
as_parent _ = none

-- `isinstance(turns, list)`
abbrev pub as_list : Json → Read (List Json)
as_list (arr xs) = iterate (arr xs)
as_list _ = invalid

-- A missing key is raised again as a ValueError.
abbrev pub required : {A : Type 0} → Read A → Read A
required missing = invalid
required r = r

-- `__post_init__`
abbrev pub checked : AgentSnapshot → Read AgentSnapshot
checked s = if owns s.agent_id s.turns then ok s else invalid

parent_lem : (o : Option String) → as_parent (null_or str o) ≡ o
parent_lem none = refl
parent_lem (some s) = refl

module _ (d : Dtos) where
  -- `AgentSnapshot.to_json`
  unfoldable pub snapshot_json : AgentSnapshot → Json
  snapshot_json s = obj (
      field "agent_id" (str s.agent_id) (
        field "parent_id" (null_or str s.parent_id) (
          field "depth" (nat s.depth) (
            field "turns" (list (turn_json d) s.turns)
              (field "pending" (list message_json s.pending) end)))))

  -- `AgentSnapshot.from_json`
  unfoldable pub snapshot_of : Json → Read AgentSnapshot
  snapshot_of j = do
    i ← required (item "agent_id" j)
    p ← required (item "parent_id" j)
    n ← required (item "depth" j)
    ts ← required (item "turns" j)
    agent_id ← as_id i
    depth ← as_depth n
    items ← as_list ts
    turns ← read_each (turn_of d) items
    pending ← each d "pending" message_of j
    checked (record {
      agent_id = agent_id;
      parent_id = as_parent p;
      depth = depth;
      turns = turns;
      pending = pending;
    })

-- What a snapshot keeps of an agent.
abbrev pub kept : AgentSnapshot → AgentSnapshot
kept s = record s { turns = map stored s.turns }

owns-stored : (i : String) (ts : List Turn) → owns i (map stored ts) ≡ owns i ts
unfolding owns stored
owns-stored i [] = refl
owns-stored i (t ∷ ts) = ap (λ b. t.agent_id == i && b) (owns-stored i ts)

module _ (d : Dtos) (f : IsFaithful d) where
  -- A snapshot of an agent's own turns is read back whole, less the errors of calls.
  pub snapshot_of-snapshot_json :
      (s : AgentSnapshot)
      → (owns s.agent_id s.turns ≡ true)
      → snapshot_of d (snapshot_json d s) ≡ ok (kept s)
  unfolding snapshot_of snapshot_json get string_eq
  snapshot_of-snapshot_json s own =
      let turns = list_lem (turn_of d) (turn_json d) stored (turn_of-turn_json d f) s.turns in
      let pending = same_lem message_of message_json message_lem s.pending in
      rw (turns, pending, parent_lem s.parent_id, owns-stored s.agent_id s.turns, own) refl

-- `InFlight`: what a restore does with the last turn.
pub data InFlight : Type 0 where
  clean : InFlight
  requeue : (inbox : List InboxMessage) → InFlight
  resume : InFlight

abbrev pub in_flight_at : TurnPhase → List InboxMessage → InFlight
in_flight_at committed inbox = clean
in_flight_at observed inbox = requeue inbox
in_flight_at _ inbox = resume

-- `InFlight.read`, `unobserved` and `inbox_to_requeue`
unfoldable pub in_flight : List Turn → InFlight
in_flight ts = elim (last? ts) [ none ↦ clean | some t ↦ in_flight_at t.phase t.inbox ]
