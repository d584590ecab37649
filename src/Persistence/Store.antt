-- ===== src/Persistence/Store.antt =====
-- nan/persistence/snapshot.py: `SnapshotStore`. The directory holds the snapshot files by their
-- stems, and the temporary files of writes. `json.dump` and `json.loads` are parameters.
use nan_itself.Base.{
  ℕ, zero, suc, String, ◌<>◌, Bool, not, Option, none, some, List, [], ◌∷◌, if◌then◌else◌, ◌==◌,
  string_eq, nat_eq, select, false, true, map, ◌++◌,
}
use nan_itself.Base.Dict.{Dict, insert, erase}
use nan_itself.Base.Json.{Json}
use nan_itself.Base.Text.{le, concat}
use nan_itself.Base.Read.{Read, ok, missing, invalid, untyped, ◌>>=◌}
use nan_itself.Turn.Codec.{Dtos}
use nan_itself.Persistence.Snapshot.{AgentSnapshot, snapshot_json, snapshot_of}

-- The two functions of the `json` module: the pieces that `json.dump` writes one after the other, and
-- `json.loads`, where a text that does not parse is `none`.
pub record JsonText : Type 0 where
  pub pieces : Json → List String
  pub loads : String → Option Json

-- The text that `json.dump` writes.
abbrev pub dumped : JsonText → Json → String
dumped json j = concat (json.pieces j)

-- Of the snapshot files also, which got their place before their contents were synced, and which have
-- been replaced or removed since the directory was synced.
pub record Directory : Type 0 where
  pub files : Dict String String
  pub temporary : List String
  pub unsynced_contents : List String
  pub unsynced_entries : List String

-- A write under way: what its handle still holds, what its temporary file holds, and whether that
-- is synced.
pub record Writing : Type 0 where
  pub directory : Directory
  pub buffered : String
  pub contents : String
  pub synced : Bool

abbrev pub parsed : Option Json → Read Json
parsed none = invalid
parsed (some j) = ok j

-- The order of the paths: a stem with its suffix.
abbrev pub before : String → String → Bool
before a b = le (a <> ".json") (b <> ".json")

-- `sorted(directory.glob("*.json"))`
unfoldable pub put_file : String → String → Dict String String → Dict String String
put_file k v [] = (k, v) ∷ []
put_file k v ((j, w) ∷ d) = if before k j then (k, v) ∷ (j, w) ∷ d else (j, w) ∷ put_file k v d

unfoldable pub sorted_files : Dict String String → Dict String String
unfolding put_file
sorted_files [] = []
sorted_files ((k, v) ∷ d) = put_file k v (sorted_files d)

-- How a write ends: whole, by an exception after some steps, or with the process.
pub data Ending : Type 0 where
  whole : Ending
  raises dies : (steps : ℕ) → Ending

-- So many steps are made, or all.
unfoldable pub make_steps : ℕ → List (Writing → Writing) → Writing → Writing
make_steps zero steps w = w
make_steps (suc n) [] w = w
make_steps (suc n) (step ∷ steps) w = make_steps n steps (step w)

unfoldable pub make_all : List (Writing → Writing) → Writing → Writing
make_all [] w = w
make_all (step ∷ steps) w = make_all steps (step w)

-- `tempfile.mkstemp` and `os.fdopen`
abbrev pub make_temporary : (name : String) → Writing → Writing
make_temporary name w = record {
  directory = record w.directory { temporary = name ∷ w.directory.temporary };
  buffered = "";
  contents = "";
  synced = false;
}

-- One `handle.write` of `json.dump`. What a full buffer passes on earlier ends up in the same contents.
abbrev pub put : (piece : String) → Writing → Writing
put piece w = record w { buffered = w.buffered <> piece }

-- `handle.flush()`
abbrev pub flush : Writing → Writing
flush w = record w { buffered = ""; contents = w.contents <> w.buffered; synced = false }

-- `os.fsync(handle.fileno())`
abbrev pub fsync : Writing → Writing
fsync w = record w { synced = true }

-- `os.unlink(tmp_name)`
abbrev pub unlink : (name : String) → Directory → Directory
unlink name dir = record dir { temporary = select (λ t. not (t == name)) dir.temporary }

-- `os.replace(tmp_name, target)`: the target is from now on what the temporary file is.
abbrev pub replace : (name agent_id : String) → Writing → Writing
replace name i w =
    let dir = unlink name w.directory in
    record w {
      directory = record dir {
        files = insert i w.contents dir.files;
        unsynced_contents = if w.synced then dir.unsynced_contents else i ∷ dir.unsynced_contents;
        unsynced_entries = i ∷ dir.unsynced_entries;
      };
    }

-- `os.fsync(directory_fd)`
abbrev pub fsync_directory : Writing → Writing
fsync_directory w = record w { directory = record w.directory { unsynced_entries = [] } }

abbrev pub begin_write : Directory → Writing
begin_write dir = record { directory = dir; buffered = ""; contents = ""; synced = false }

module _ (d : Dtos) (json : JsonText) where
  abbrev pub own_file : (stem : String) → AgentSnapshot → Read AgentSnapshot
  own_file stem s = if s.agent_id == stem then ok s else invalid

  -- `_read_snapshot`: `invalid` is the logged case, in which the function returns None.
  unfoldable pub read_snapshot : (stem text : String) → Read AgentSnapshot
  read_snapshot stem text = do j ← parsed (json.loads text); s ← snapshot_of d j; own_file stem s

  abbrev pub collect :
      Read AgentSnapshot
      → (Dict String AgentSnapshot → Read (Dict String AgentSnapshot))
      → Dict String AgentSnapshot
      → Read (Dict String AgentSnapshot)
  collect (ok s) next found = next (insert s.agent_id s found)
  collect invalid next found = next found
  collect missing next found = missing
  collect untyped next found = untyped

  -- The loop of `load_all`.
  unfoldable pub load_files :
      Dict String String → Dict String AgentSnapshot → Read (Dict String AgentSnapshot)
  load_files [] found = ok found
  load_files ((stem, text) ∷ files) found =
      collect (read_snapshot stem text) (load_files files) found

  -- `load_all`. A KeyError of a file ends it.
  unfoldable pub load_all : Directory → Read (Dict String AgentSnapshot)
  unfolding load_files sorted_files
  load_all dir = load_files (sorted_files dir.files) []

  -- The steps of `_write`.
  abbrev pub write_steps : (name : String) → AgentSnapshot → List (Writing → Writing)
  write_steps name s =
      make_temporary name
      ∷ (map put (json.pieces (snapshot_json d s))
          ++ flush ∷ fsync ∷ replace name s.agent_id ∷ fsync_directory ∷ [])

  unfoldable pub write : (name : String) → AgentSnapshot → Ending → Directory → Directory
  unfolding make_steps make_all
  write name s whole dir = (make_all (write_steps name s) (begin_write dir)).directory
  write name s (dies n) dir = (make_steps n (write_steps name s) (begin_write dir)).directory
  write name s (raises n) dir =
      unlink name (make_steps n (write_steps name s) (begin_write dir)).directory

  -- `remove`
  unfoldable pub remove : (agent_id : String) → Directory → Directory
  remove i dir = record dir {
    files = erase i dir.files;
    unsynced_entries = i ∷ dir.unsynced_entries;
  }
