-- ===== src/Tests/Persistence.antt =====
-- A snapshot of one agent, and one file that cannot be read.
use nan_itself.Base.{
  String, ◌≡◌, refl, ◌≢◌, ◌⊎◌, true, none, some, [], ◌∷◌, if◌then◌else◌, ◌==◌, string_eq, nat_eq,
}
use nan_itself.Base.Dict.{Dict, insert, lookup}
use nan_itself.Base.Json.{Json, int, str, arr, obj, end, field, nil, cons, get}
use nan_itself.Base.Int.{pos}
use nan_itself.Base.Read.{ok, missing, read_each}
use nan_itself.Turn.Model.{InboxMessage, InboxKind}
use nan_itself.Turn.Codec.{turn_json, turn_of}
use nan_itself.Turn.RoundTrip.{stored, turn_of-turn_json}
use nan_itself.Persistence.Snapshot.{AgentSnapshot, owns, snapshot_json, snapshot_of, kept}
use nan_itself.Persistence.Store.{
  JsonText, dumped, Directory, read_snapshot, load_all, write, whole, raises,
}
use nan_itself.Persistence.Saved.{load_all-write, load_all-key_error}
use nan_itself.Persistence.Atomic.{write-atomic}
use nan_itself.Tests.Turns.{stopped}
use nan_itself.Tests.Codec.{dtos, dtos-IsFaithful}

turn_of-turn_json_example : turn_of dtos (turn_json dtos stopped) ≡ ok (stored stopped)
turn_of-turn_json_example = turn_of-turn_json dtos dtos-IsFaithful stopped

abbrev waiting : InboxMessage
waiting = record {
  kind = InboxKind.user;
  source = "user";
  text = "hello";
  event = "send";
  received_at = 3;
}

abbrev snapshot : AgentSnapshot
snapshot = record {
  agent_id = "r0";
  parent_id = none;
  depth = 0;
  turns = stopped ∷ [];
  pending = waiting ∷ [];
}

own : owns "r0" (stopped ∷ []) ≡ true
unfolding owns string_eq
own = refl

-- A `json` module that knows two texts: the snapshot's, and the one of an agent whose turn lacks
-- its keys.
abbrev broken : Json
broken = obj (
    field "agent_id" (str "r1") (
      field "parent_id" (str "r0")
        (field "depth" (int (pos 1)) (field "turns" (arr (cons (obj end) nil)) end))))

abbrev json : JsonText
json = record {
  pieces = λ j. "sa" ∷ "ved" ∷ [];
  loads = λ s. if s == "saved" then some (snapshot_json dtos snapshot) else some broken;
}

loaded_back :
    json.loads (dumped json (snapshot_json dtos snapshot)) ≡ some (snapshot_json dtos snapshot)
unfolding string_eq
loaded_back = refl

abbrev empty_directory : Directory
empty_directory = record {
  files = [];
  temporary = [];
  unsynced_contents = [];
  unsynced_entries = [];
}

nothing_found : load_all dtos json empty_directory ≡ ok []
unfolding load_all
nothing_found = refl

load_all-write_example :
    (now : Dict String AgentSnapshot) × (load_all dtos json
        (write dtos json "tmp" snapshot whole empty_directory)
      ≡ ok now)
    × ((j : String) → lookup j now ≡ (if j == "r0" then some (kept snapshot) else lookup j []))
load_all-write_example =
    load_all-write dtos json dtos-IsFaithful "tmp" snapshot empty_directory [] loaded_back own tt
      nothing_found

write-atomic_example :
    let after = write dtos json "tmp" snapshot whole empty_directory in
    let now = write dtos json "tmp" snapshot (raises 2) empty_directory in
    (after.files ≡ insert "r0" "saved" [])
    × (after.unsynced_entries ≡ [])
    × ((load_all dtos json now ≡ load_all dtos json empty_directory)
        ⊎ (load_all dtos json now ≡ load_all dtos json after))
    × (now.unsynced_contents ≡ [])
write-atomic_example = write-atomic dtos json "tmp" snapshot (raises 2) empty_directory

abbrev one_broken : Directory
one_broken = record {
  files = ("r1", "broken") ∷ [];
  temporary = [];
  unsynced_contents = [];
  unsynced_entries = [];
}

broken_held : lookup "r1" one_broken.files ≡ some "broken"
unfolding lookup string_eq
broken_held = refl

broken_raises : read_snapshot dtos json "r1" "broken" ≡ missing
unfolding read_snapshot snapshot_of turn_of get string_eq read_each
broken_raises = refl

load_all-key_error_example : load_all dtos json one_broken ≢ ok []
load_all-key_error_example =
    load_all-key_error dtos json one_broken "r1" "broken" [] broken_held broken_raises
