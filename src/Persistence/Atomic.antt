-- ===== src/Persistence/Atomic.antt =====
-- nan/persistence/snapshot.py: a write that is cut short, by an exception or by the end of the
-- process.
use nan_itself.Base.{
  ℕ, zero, suc, String, ◌<>◌, ◌≡◌, refl, sym, ap, ◌∙◌, subst, ◌⊎◌, inl, inr, List, [], ◌∷◌, ◌++◌,
  map, string_eq, nat_eq,
}
use nan_itself.Base.Dict.{Dict, insert}
use text.Mathlib.TextLemmas
use nan_itself.Base.Text.{concat}
use nan_itself.Persistence.Store.{
  sorted_files, load_files, load_all, JsonText, Directory, make_steps, make_all, write_steps,
  Writing, flush, fsync, fsync_directory, replace, put, make_temporary, begin_write, dumped, Ending,
  whole, raises, dies, write,
}
use nan_itself.Turn.Codec.{Dtos}
use nan_itself.Persistence.Snapshot.{AgentSnapshot, snapshot_json}

module _ (d : Dtos) (json : JsonText) (name : String) (s : AgentSnapshot) where
  abbrev i : String
  i = s.agent_id

  abbrev closing : List (Writing → Writing)
  closing = flush ∷ fsync ∷ replace name i ∷ fsync_directory ∷ []

  abbrev puts : List String → List (Writing → Writing)
  puts ps = map (put) ps ++ closing

  -- The files are the old ones, or the agent's is a text; and none is in its place without a sync of its
  -- contents that was not before.
  abbrev Whole : Directory → (text : String) → Directory → Type 0
  Whole old text new =
      ((new.files ≡ old.files) ⊎ (new.files ≡ insert i text old.files))
      × (new.unsynced_contents ≡ old.unsynced_contents)

  closing-Whole :
      (n : ℕ) (w : Writing)
      → Whole w.directory (w.contents <> w.buffered) (make_steps n closing w).directory
  unfolding make_steps
  closing-Whole zero w = (inl refl, refl)
  closing-Whole (suc zero) w = (inl refl, refl)
  closing-Whole (suc (suc zero)) w = (inl refl, refl)
  closing-Whole (suc (suc (suc zero))) w = (inr refl, refl)
  closing-Whole (suc (suc (suc (suc zero)))) w = (inr refl, refl)
  closing-Whole (suc (suc (suc (suc (suc n))))) w = (inr refl, refl)

  joined : (a b p q : String) → a <> ((b <> p) <> q) ≡ a <> (b <> (p <> q))
  joined a b p q = ap (λ t. a <> t) (TextLemmas.append_assoc b p q)

  puts-Whole :
      (n : ℕ) (ps : List String) (w : Writing)
      → Whole w.directory
          (w.contents <> (w.buffered <> concat ps))
          (make_steps n (puts ps) w).directory
  unfolding make_steps
  puts-Whole n [] w = rw (TextLemmas.append-nil w.buffered) (closing-Whole n w)
  puts-Whole zero (p ∷ ps) w = (inl refl, refl)
  puts-Whole (suc n) (p ∷ ps) w =
      subst (λ t. Whole w.directory t (make_steps n (puts ps) (put p w)).directory)
        (joined w.contents w.buffered p (concat ps)) (puts-Whole n ps (put p w))

  abbrev saved : String
  saved = dumped json (snapshot_json d s)

  nothing_before : (t : String) → "" <> ("" <> t) ≡ t
  nothing_before t = TextLemmas.nil-append ("" <> t) ∙ TextLemmas.nil-append t

  steps-Whole :
      (n : ℕ) (dir : Directory)
      → Whole dir saved (make_steps n (write_steps d json name s) (begin_write dir)).directory
  unfolding make_steps
  steps-Whole zero dir = (inl refl, refl)
  steps-Whole (suc n) dir =
      let w = make_temporary name (begin_write dir) in
      subst (λ t. Whole dir t (make_steps n (puts (json.pieces (snapshot_json d s))) w).directory)
        (nothing_before saved) (puts-Whole n (json.pieces (snapshot_json d s)) w)

  -- After all the steps.
  abbrev Done : Directory → (text : String) → Directory → Type 0
  Done old t new =
      (new.files ≡ insert i t old.files)
      × (new.unsynced_contents ≡ old.unsynced_contents)
      × (new.unsynced_entries ≡ [])

  puts-Done :
      (ps : List String) (w : Writing)
      → Done w.directory (w.contents <> (w.buffered <> concat ps)) (make_all (puts ps) w).directory
  unfolding make_all
  puts-Done [] w = rw (TextLemmas.append-nil w.buffered) (refl, refl, refl)
  puts-Done (p ∷ ps) w =
      subst (λ t. Done w.directory t (make_all (puts ps) (put p w)).directory)
        (joined w.contents w.buffered p (concat ps)) (puts-Done ps (put p w))

  pub write-Done : (dir : Directory) → Done dir saved (write d json name s whole dir)
  unfolding write make_all
  write-Done dir =
      let w = make_temporary name (begin_write dir) in
      subst (λ t. Done dir t (make_all (puts (json.pieces (snapshot_json d s))) w).directory)
        (nothing_before saved) (puts-Done (json.pieces (snapshot_json d s)) w)

  write-Whole : (e : Ending) (dir : Directory) → Whole dir saved (write d json name s e dir)
  unfolding write
  write-Whole whole dir = let (files, contents, entries) = write-Done dir in (inr files, contents)
  write-Whole (raises n) dir = steps-Whole n dir
  write-Whole (dies n) dir = steps-Whole n dir

  -- A write is all or nothing. A whole one leaves the text of the snapshot in the agent's file, and the
  -- directory synced. Wherever an exception or the end of the process stops it, the next `load_all`
  -- reads what it read before, or what it reads after the whole write, and no file is put in
  -- place whose contents are not synced.
  pub write-atomic :
      (e : Ending) (dir : Directory)
      → let after = write d json name s whole dir in
        (after.files ≡ insert s.agent_id (dumped json (snapshot_json d s)) dir.files)
        × (after.unsynced_entries ≡ [])
        × ((load_all d json (write d json name s e dir) ≡ load_all d json dir)
            ⊎ (load_all d json (write d json name s e dir) ≡ load_all d json after))
        × ((write d json name s e dir).unsynced_contents ≡ dir.unsynced_contents)
  unfolding load_all
  write-atomic e dir =
      let (files, contents, entries) = write-Done dir in
      let (either, same) = write-Whole e dir in
      let loads = λ (fs : Dict String String). load_files d json (sorted_files fs) [] in
      (
        files,
        entries,
        elim either [ inl old ↦ inl (ap loads old) | inr new ↦ inr (ap loads (new ∙ sym files)) ],
        same,
      )
