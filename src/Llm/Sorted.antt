-- ===== src/Llm/Sorted.antt =====
-- nan/llm/provider.py: the order in which `_stream_openai` makes its calls, `sorted` of the keys of
-- the buffers, and which keys these are.
use nan_itself.Llm.Types.{VerbCall}
use nan_itself.Base.{
  ℕ, ◌<◌, String, ◌≡◌, refl, sym, ap, ◌∙◌, inl, inr, Bool, true, false, ◌||◌, Option, none, some,
  List, [], ◌∷◌, map, arith, leb, if◌then◌else◌, Bool-cases, ◌==◌, contains, ==_iff, ==_refl,
  string_eq, nat_eq, All,
}
use nan_itself.Base.Dict.{
  Dict, keys, lookup, insert, lookup-insert, Unique, insert-Unique, lookup-nil,
}
use nan_itself.Llm.Calls.{Loads, build_verb_call}
use nan_itself.Llm.Stream.{
  ToolDelta, Buffer, buffer_or_new, fill, take_tool_deltas, place, sort_keys, built, built_calls,
  Chunk,
}
use nan_itself.Llm.Assembly.{last_given, fragments, tool_deltas, take_tool_deltas_lem}

-- Each number is below all that follow it.
abbrev pub IsIncreasing : List ℕ → Type 0
IsIncreasing [] = Unit
IsIncreasing (i ∷ is) = All (λ j. i < j) is × IsIncreasing is

abbrev pub occurs : ℕ → List ToolDelta → Bool
occurs i [] = false
occurs i (d ∷ ds) = let rest = occurs i ds in i == d.index || rest

-- The call that one index's deltas make.
abbrev pub call_of : Loads → (fresh : ℕ → String) → List ToolDelta → ℕ → VerbCall
call_of l fresh ds i =
    build_verb_call l (fresh i) (last_given (λ (d : ToolDelta). d.id) i ds "")
      (last_given (λ (d : ToolDelta). d.name) i ds "") (fragments i ds)

abbrev is_there : Option Buffer → Bool
is_there none = false
is_there (some b) = true

take_tool_deltas-occurs :
    (i : ℕ) (ds : List ToolDelta) (d : Dict ℕ Buffer)
    → is_there (lookup i (take_tool_deltas ds d)) ≡ (occurs i ds || is_there (lookup i d))
unfolding take_tool_deltas
take_tool_deltas-occurs i [] d = refl
take_tool_deltas-occurs i (x ∷ ds) d =
    let b = fill x (buffer_or_new (lookup x.index d)) in
    take_tool_deltas-occurs i ds (insert x.index b d)
    ∙ ap (λ o. occurs i ds || is_there o) (lookup-insert i x.index b d)
    ∙ ground arith

take_tool_deltas-Unique :
    (ds : List ToolDelta) (d : Dict ℕ Buffer) → Unique d → Unique (take_tool_deltas ds d)
unfolding take_tool_deltas
take_tool_deltas-Unique [] d u = u
take_tool_deltas-Unique (x ∷ ds) d u =
    let b = fill x (buffer_or_new (lookup x.index d)) in
    take_tool_deltas-Unique ds (insert x.index b d) (insert-Unique x.index b d u)

lookup-place :
    (j k : ℕ) (v : Buffer) (d : Dict ℕ Buffer)
    → lookup k d ≡ none
    → lookup j (place leb k v d) ≡ (if j == k then some v else lookup j d)
unfolding place lookup
lookup-place j k v [] e = refl
lookup-place j k v ((i, w) ∷ d) e =
    ground (arith, lookup-place j k v d, ==_iff j k, ==_iff j i, ==_iff k i)

place-Unique :
    (k : ℕ) (v : Buffer) (d : Dict ℕ Buffer)
    → lookup k d ≡ none
    → Unique d
    → Unique (place leb k v d)
unfolding place lookup
place-Unique k v [] e u = (lookup-nil k, tt)
place-Unique k v ((i, w) ∷ d) e (fresh, u) = elim (Bool-cases (leb k i)) [
  | inl le ↦ rw le (e, (fresh, u))
  | inr gt ↦
      let e' : lookup k d ≡ none = ground arith in
      let other : (i == k) ≡ false = ground (arith, ==_iff i k, ==_iff k i) in
      rw gt (lookup-place i k v d e' ∙ rw other fresh, place-Unique k v d e' u)
]

sort_keys-laws :
    (d : Dict ℕ Buffer)
    → Unique d
    → Unique (sort_keys leb d) × ((j : ℕ) → lookup j (sort_keys leb d) ≡ lookup j d)
unfolding sort_keys lookup
sort_keys-laws [] u = (tt, λ j. refl)
sort_keys-laws ((k, v) ∷ d) (fresh, u) =
    let (us, same) = sort_keys-laws d u in
    let fresh' = same k ∙ fresh in
    (
      place-Unique k v (sort_keys leb d) fresh' us,
      λ j.
          lookup-place j k v (sort_keys leb d) fresh'
          ∙ ap (λ o. if j == k then some v else o) (same j),
    )

place-All :
    (P : ℕ → Type 0) (k : ℕ) (v : Buffer) (d : Dict ℕ Buffer)
    → P k
    → All P (keys d)
    → All P (keys (place leb k v d))
unfolding place
place-All P k v [] p ps = (p, tt)
place-All P k v ((i, w) ∷ d) p (q, qs) = elim (Bool-cases (leb k i)) [
  | inl le ↦ rw le (p, (q, qs))
  | inr gt ↦ rw gt (q, place-All P k v d p qs)
]

All-below : (k i : ℕ) (is : List ℕ) → (k < i) → All (λ j. i < j) is → All (λ j. k < j) is
All-below k i [] h _ = tt
All-below k i (j ∷ js) h (p, ps) = (omega (arith, h, p), All-below k i js h ps)

place-IsIncreasing :
    (k : ℕ) (v : Buffer) (d : Dict ℕ Buffer)
    → lookup k d ≡ none
    → IsIncreasing (keys d)
    → IsIncreasing (keys (place leb k v d))
unfolding place lookup
place-IsIncreasing k v [] e h = (tt, tt)
place-IsIncreasing k v ((i, w) ∷ d) e (below, h) = elim (Bool-cases (leb k i)) [
  | inl le ↦
      let less : k < i = ground (arith, ==_iff k i) in
      rw le ((less, All-below k i (keys d) less below), (below, h))
  | inr gt ↦
      let less : i < k = ground (arith) in
      let e' : lookup k d ≡ none = ground arith in
      rw gt (place-All (λ j. i < j) k v d less below, place-IsIncreasing k v d e' h)
]

sort_keys-IsIncreasing : (d : Dict ℕ Buffer) → Unique d → IsIncreasing (keys (sort_keys leb d))
unfolding sort_keys
sort_keys-IsIncreasing [] u = tt
sort_keys-IsIncreasing ((k, v) ∷ d) (fresh, u) =
    place-IsIncreasing k v (sort_keys leb d) ((sort_keys-laws d u).1 k ∙ fresh)
      (sort_keys-IsIncreasing d u)

contains-keys : (i : ℕ) (d : Dict ℕ Buffer) → contains (keys d) i ≡ is_there (lookup i d)
unfolding lookup
contains-keys i [] = refl
contains-keys i ((k, v) ∷ d) = ground (arith, contains-keys i d)

map-built :
    (f : ℕ × Buffer → VerbCall) (g : ℕ → VerbCall) (d : Dict ℕ Buffer)
    → Unique d
    → ((j : ℕ) (b : Buffer) → lookup j d ≡ some b → f (j, b) ≡ g j)
    → map f d ≡ map g (keys d)
unfolding lookup
map-built f g [] u h = refl
map-built f g ((k, v) ∷ d) (fresh, u) h =
    let rest = map-built f g d u (λ j b e. h j b (ground (arith, ==_iff j k))) in
    let first = h k v (rw (==_refl k) refl) in rw (first, rest) refl

or_false : (b : Bool) → (b || false) ≡ b
or_false false = refl
or_false true = refl

same_call :
    (l : Loads) (fresh : ℕ → String) (chunks : List Chunk) (j : ℕ) (b : Buffer)
    → lookup j (take_tool_deltas (tool_deltas chunks) []) ≡ some b
    → built l fresh (j, b) ≡ call_of l fresh (tool_deltas chunks) j
same_call l fresh chunks j b e =
    ap (λ (x : Buffer). build_verb_call l (fresh j) x.id x.name x.arguments)
      (ap buffer_or_new (sym e) ∙ take_tool_deltas_lem j chunks)

-- The calls of a stream: their indices increase, they are the indices that occur in its deltas, and
-- each call is made of its own index's deltas.
pub built_calls-IsIncreasing :
    (l : Loads) (fresh : ℕ → String) (chunks : List Chunk)
    → let ds = tool_deltas chunks in
      (is : List ℕ) × IsIncreasing is
      × ((i : ℕ) → contains is i ≡ occurs i ds)
      × (built_calls l fresh (take_tool_deltas ds []) ≡ map (call_of l fresh ds) is)
built_calls-IsIncreasing l fresh chunks =
    let ds = tool_deltas chunks in
    let d = take_tool_deltas ds [] in
    let u = take_tool_deltas-Unique ds [] tt in
    let (us, same) = sort_keys-laws d u in
    (
      keys (sort_keys leb d),
      sort_keys-IsIncreasing d u,
      λ i.
          contains-keys i (sort_keys leb d)
          ∙ ap is_there (same i)
          ∙ take_tool_deltas-occurs i ds []
          ∙ rw (lookup-nil {V = Buffer} i) (or_false (occurs i ds)),
      map-built (built l fresh) (call_of l fresh ds) (sort_keys leb d) us
          (λ j b e. same_call l fresh chunks j b (sym (same j) ∙ e)),
    )
