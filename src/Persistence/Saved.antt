-- ===== src/Persistence/Saved.antt =====
-- nan/persistence/snapshot.py: what `load_all` finds, agent by agent, before and after a `save`.
use nan_itself.Turn.RoundTrip.{IsFaithful}
use nan_itself.Base.Json.{Json}
use nan_itself.Persistence.Atomic.{write-Done}
use nan_itself.Persistence.Snapshot.{
  AgentSnapshot, snapshot_of, owns, kept, snapshot_json, snapshot_of-snapshot_json,
}
use nan_itself.Turn.Codec.{Dtos}
use nan_itself.Base.Read.{missing, invalid, untyped, Read, ok, ◌>>=◌}
use nan_itself.Base.Dict.{insert, lookup-insert, lookup-nil, insert-Unique, Dict, lookup, Unique}
use nan_itself.Base.{
  String, ◌≡◌, refl, ap, ◌∙◌, inl, inr, none, some, [], ◌∷◌, arith, if◌then◌else◌, Bool-cases, ◌==◌,
  string_eq, nat_eq, All, Option, ==_iff, true, ==_refl, sym, subst, ◌≢◌,
}
use nan_itself.Persistence.Store.{
  sorted_files, JsonText, read_snapshot, load_files, own_file, collect, parsed, Directory, load_all,
  write, whole, dumped,
}
use nan_itself.Persistence.Files.{
  lookup-sorted_files, sorted_files-Unique, All-insert, All-sorted_files, All-unsorted,
}

-- What the loop does with one file's snapshot.
abbrev shows : Read AgentSnapshot → Option AgentSnapshot → Option AgentSnapshot
shows (ok s) old = some s
shows _ old = old

-- A file that neither stops `load_all` nor leaves the annotated types.
abbrev IsTame : Read AgentSnapshot → Type 0
IsTame (ok s) = Unit
IsTame invalid = Unit
IsTame _ = ⊥

module _ (d : Dtos) (json : JsonText) where
  abbrev read : String → String → Read AgentSnapshot
  read = read_snapshot d json

  abbrev TameFile : String × String → Type 0
  TameFile (k, text) = IsTame (read k text)

  own_file-id :
      (k : String) (r : Read AgentSnapshot) (s : AgentSnapshot)
      → ((r >>= own_file d json k) ≡ ok s)
      → s.agent_id ≡ k
  own_file-id k (ok s') s h = ground arith
  own_file-id k missing s h = cc
  own_file-id k invalid s h = cc
  own_file-id k untyped s h = cc

  read-id : (k text : String) (s : AgentSnapshot) → (read k text ≡ ok s) → s.agent_id ≡ k
  unfolding read_snapshot
  read-id k text s h = from (parsed (json.loads text)) h
    where
      from :
          (r : Read Json)
          → ((r >>= λ j. snapshot_of d j >>= own_file d json k) ≡ ok s)
          → s.agent_id ≡ k
      from (ok j) h = own_file-id k (snapshot_of d j) s h
      from missing h = cc
      from invalid h = cc
      from untyped h = cc

  -- What the rest of the loop starts from.
  abbrev goes_on : Read AgentSnapshot → Dict String AgentSnapshot → Dict String AgentSnapshot
  goes_on (ok s) found = insert s.agent_id s found
  goes_on _ found = found

  collect-IsTame :
      (r : Read AgentSnapshot) (next : Dict String AgentSnapshot → Read (Dict String AgentSnapshot))
      (found out : Dict String AgentSnapshot)
      → (collect d json r next found ≡ ok out)
      → IsTame r × (next (goes_on r found) ≡ ok out)
  collect-IsTame (ok s) next found out h = (tt, h)
  collect-IsTame invalid next found out h = (tt, h)
  collect-IsTame missing next found out h = cc
  collect-IsTame untyped next found out h = cc

  IsTame-collect :
      (r : Read AgentSnapshot) (next : Dict String AgentSnapshot → Read (Dict String AgentSnapshot))
      (found : Dict String AgentSnapshot)
      → IsTame r
      → collect d json r next found ≡ next (goes_on r found)
  IsTame-collect (ok s) next found h = refl
  IsTame-collect invalid next found h = refl
  IsTame-collect missing next found h = absurd h
  IsTame-collect untyped next found h = absurd h

  load_files-TameFile :
      (fs : Dict String String) (found out : Dict String AgentSnapshot)
      → (load_files d json fs found ≡ ok out)
      → All TameFile fs
  unfolding load_files
  load_files-TameFile [] found out h = tt
  load_files-TameFile ((k, t) ∷ fs) found out h =
      let (tame, rest) = collect-IsTame (read k t) (load_files d json fs) found out h in
      (tame, load_files-TameFile fs (goes_on (read k t) found) out rest)

  TameFile-load_files :
      (fs : Dict String String) (found : Dict String AgentSnapshot)
      → All TameFile fs
      → (out : Dict String AgentSnapshot) × (load_files d json fs found ≡ ok out)
  unfolding load_files
  TameFile-load_files [] found h = (found, refl)
  TameFile-load_files ((k, t) ∷ fs) found (h, hs) =
      let (out, e) = TameFile-load_files fs (goes_on (read k t) found) hs in
      (out, IsTame-collect (read k t) (load_files d json fs) found h ∙ e)

  abbrev from_file : String → Option String → Option AgentSnapshot → Option AgentSnapshot
  from_file j none old = old
  from_file j (some text) old = shows (read j text) old

  goes_on-lookup :
      (j k : String) (r : Read AgentSnapshot) (found : Dict String AgentSnapshot)
      → ((s : AgentSnapshot) → (r ≡ ok s) → s.agent_id ≡ k)
      → lookup j (goes_on r found) ≡ (if j == k then shows r (lookup j found) else lookup j found)
  goes_on-lookup j k (ok s) found h = ground (arith, h s refl, lookup-insert j s.agent_id s found)
  goes_on-lookup j k missing found h = ground arith
  goes_on-lookup j k invalid found h = ground arith
  goes_on-lookup j k untyped found h = ground arith

  load_files-lookup :
      (fs : Dict String String) (found out : Dict String AgentSnapshot) (j : String)
      → (load_files d json fs found ≡ ok out)
      → Unique fs
      → lookup j out ≡ from_file j (lookup j fs) (lookup j found)
  unfolding load_files lookup
  load_files-lookup [] found out j h u = ground arith
  load_files-lookup ((k, t) ∷ fs) found out j h (fresh, u) =
      let (tame, rest) = collect-IsTame (read k t) (load_files d json fs) found out h in
      let ih = load_files-lookup fs (goes_on (read k t) found) out j rest u in
      ih
      ∙ ap (from_file j (lookup j fs)) (goes_on-lookup j k (read k t) found (read-id k t))
      ∙ elim (Bool-cases (j == k)) [
        | inl yes_ ↦ let e = (==_iff j k).0 yes_ in rw (yes_, e, fresh) refl
        | inr no_ ↦ rw no_ refl
      ]

  read-kept :
      IsFaithful d
      → (s : AgentSnapshot)
      → (json.loads (dumped json (snapshot_json d s)) ≡ some (snapshot_json d s))
      → (owns s.agent_id s.turns ≡ true)
      → read s.agent_id (dumped json (snapshot_json d s)) ≡ ok (kept s)
  unfolding read_snapshot
  read-kept f s text own = rw (text, snapshot_of-snapshot_json d f s own, ==_refl s.agent_id) refl

  load_all-lookup :
      (dir : Directory) (found : Dict String AgentSnapshot) (j : String)
      → Unique dir.files
      → (load_all d json dir ≡ ok found)
      → lookup j found ≡ from_file j (lookup j dir.files) none
  unfolding load_all
  load_all-lookup dir found j u h =
      load_files-lookup (sorted_files dir.files) [] found j h (sorted_files-Unique dir.files u)
      ∙ ap (λ o. from_file j o (lookup j [])) (lookup-sorted_files j dir.files u)
      ∙ ap (from_file j (lookup j dir.files)) (lookup-nil j)

  -- Saving the snapshot of an agent's own turns, where `load_all` returned before, `json.loads` reads
  -- the text that `json.dump` wrote for it and no stem stands twice: `load_all` then returns, finds
  -- that snapshot under the agent's id, less the errors of its calls, and of every other agent what it
  -- found before.
  pub load_all-write :
      IsFaithful d
      → (name : String) (s : AgentSnapshot) (dir : Directory) (found : Dict String AgentSnapshot)
      → (json.loads (dumped json (snapshot_json d s)) ≡ some (snapshot_json d s))
      → (owns s.agent_id s.turns ≡ true)
      → Unique dir.files
      → (load_all d json dir ≡ ok found)
      → (now : Dict String AgentSnapshot) × (load_all d json (write d json name s whole dir)
          ≡ ok now)
        × ((j : String)
            → lookup j now ≡ (if j == s.agent_id then some (kept s) else lookup j found))
  unfolding load_all
  load_all-write f name s dir found text own u h =
      let file = dumped json (snapshot_json d s) in
      let files = insert s.agent_id file dir.files in
      let read_back = read-kept f s text own in
      let tame =
        All-unsorted TameFile dir.files (load_files-TameFile (sorted_files dir.files) [] found h) in
      let tame' =
        All-sorted_files TameFile files
          (All-insert TameFile s.agent_id file dir.files (rw read_back tt) tame) in
      let (now, e) = TameFile-load_files (sorted_files files) [] tame' in
      let after = (write-Done d json name s dir).0 in
      let e' = ap (λ fs. load_files d json (sorted_files fs) []) after ∙ e in
      (
        now,
        e',
        λ j.
            load_all-lookup (write d json name s whole dir) now j
              (subst Unique (sym after) (insert-Unique s.agent_id file dir.files u)) e'
            ∙ ap (λ fs. from_file j (lookup j fs) none) after
            ∙ ap (λ o. from_file j o none) (lookup-insert j s.agent_id file dir.files)
            ∙ elim (Bool-cases (j == s.agent_id)) [
              | inl yes_ ↦
                  let same = (==_iff j s.agent_id).0 yes_ in rw (yes_, same, read_back) refl
              | inr no_ ↦ rw no_ (sym (load_all-lookup dir found j u h))
            ],
      )

All-lookup {κ} :
    (P : String × String → Type κ) (k v : String) (d : Dict String String)
    → All P d
    → (lookup k d ≡ some v)
    → P (k, v)
unfolding lookup
All-lookup P k v [] ps h = cc
All-lookup P k v ((j, w) ∷ d) (p, ps) h = elim (Bool-cases (k == j)) [
  | inl yes_ ↦
      let e = (==_iff k j).0 yes_ in
      let same : some w ≡ some v = rw yes_ at h in subst P (pair e same) p
  | inr no_ ↦ All-lookup P k v d ps (rw no_ at h)
]
  where
    pair : (k ≡ j) → (some w ≡ some v) → ◌≡◌ {A = String × String} (j, w) (k, v)
    pair e s = cc

-- One file whose reading raises a KeyError, as a turn with no `depth` does, is not skipped:
-- `load_all` then returns nothing, whatever the other files hold.
pub load_all-key_error :
    (d : Dtos) (json : JsonText) (dir : Directory) (stem text : String)
    (found : Dict String AgentSnapshot)
    → (lookup stem dir.files ≡ some text)
    → (read_snapshot d json stem text ≡ missing)
    → load_all d json dir ≢ ok found
unfolding load_all
load_all-key_error d json dir stem text found held raised h =
    let tame =
      All-unsorted (TameFile d json) dir.files
        (load_files-TameFile d json (sorted_files dir.files) [] found h) in
    let t : IsTame (read_snapshot d json stem text) =
      All-lookup (TameFile d json) stem text dir.files tame held in
    subst IsTame raised t
