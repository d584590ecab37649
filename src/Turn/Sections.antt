-- ===== src/Turn/Sections.antt =====
-- nan/turn/render.py, `_delta_section`: how the system-state lines of a turn are grouped; and what
-- a frozen turn keeps.
use nan_itself.Base.{
  String, ◌≡◌, refl, sym, ap, ◌∙◌, Option, none, some, List, [], ◌∷◌, ◌++◌, map, append_assoc,
  append-nil, arith, if◌then◌else◌, ◌==◌, contains, string_eq, nat_eq,
}
use nan_itself.Base.Dict.{Dict, keys, lookup}
use nan_itself.Turn.Model.{Turn, DeltaEvent}
use nan_itself.Turn.Render.{file_under, group, render_turn, freeze_turn}

-- The lines of one section, in the order of the events.
abbrev pub lines_of : String → List DeltaEvent → List String
lines_of s [] = []
lines_of s (e ∷ es) = let rest = lines_of s es in if s == e.section then e.line ∷ rest else rest

-- What an entry becomes when lines are appended to it.
abbrev pub extend : Option (List String) → List String → Option (List String)
extend none [] = none
extend none (l ∷ ls) = some (l ∷ ls)
extend (some old) ls = some (old ++ ls)

-- The names of a list, each where it stands first.
abbrev pub first_seen : List String → List String → List String
first_seen seen [] = seen
first_seen seen (s ∷ ss) = first_seen (if contains seen s then seen else seen ++ s ∷ []) ss

extend-nil : (o : Option (List String)) → extend o [] ≡ o
extend-nil none = refl
extend-nil (some old) = ap some (append-nil old)

lookup-file_under :
    (s section line : String) (d : Dict String (List String))
    → lookup s (file_under section line d)
      ≡ extend (lookup s d) (if s == section then line ∷ [] else [])
unfolding lookup
lookup-file_under s section line [] = ground arith
lookup-file_under s section line ((j, ls) ∷ d) =
    ground (arith, lookup-file_under s section line d, extend-nil (lookup s d), append-nil ls)

extend-extend :
    (o : Option (List String)) (xs ys : List String) → extend (extend o xs) ys ≡ extend o (xs ++ ys)
extend-extend none [] ys = refl
extend-extend none (x ∷ xs) ys = refl
extend-extend (some old) xs ys = ap some (append_assoc old xs ys)

lookup-group :
    (s : String) (d : Dict String (List String)) (es : List DeltaEvent)
    → lookup s (group d es) ≡ extend (lookup s d) (lines_of s es)
unfolding group
lookup-group s d [] = sym (extend-nil (lookup s d))
lookup-group s d (e ∷ es) =
    lookup-group s (file_under e.section e.line d) es
    ∙ ap (λ o. extend o (lines_of s es)) (lookup-file_under s e.section e.line d)
    ∙ extend-extend (lookup s d) _ (lines_of s es)
    ∙ ap (extend (lookup s d)) (ground arith)

keys-file_under :
    (section line : String) (d : Dict String (List String))
    → keys (file_under section line d)
      ≡ (if contains (keys d) section then keys d else keys d ++ section ∷ [])
keys-file_under section line [] = refl
keys-file_under section line ((j, ls) ∷ d) = ground (arith, keys-file_under section line d)

keys-group :
    (d : Dict String (List String)) (es : List DeltaEvent)
    → keys (group d es) ≡ first_seen (keys d) (map (λ (e : DeltaEvent). e.section) es)
unfolding group
keys-group d [] = refl
keys-group d (e ∷ es) =
    keys-group (file_under e.section e.line d) es
    ∙ ap (λ ks. first_seen ks (map (λ (x : DeltaEvent). x.section) es))
        (keys-file_under e.section e.line d)

-- The grouping of the delta lines loses, adds and reorders nothing: the sections stand in the
-- order in which they are first seen, and under each stand exactly its lines, in their order.
pub group_exact :
    (es : List DeltaEvent)
    → (keys (group [] es) ≡ first_seen [] (map (λ (e : DeltaEvent). e.section) es))
      × ((s : String) → lookup s (group [] es) ≡ extend none (lines_of s es))
unfolding lookup
group_exact es = (keys-group [] es, λ s. lookup-group s [] es)

-- A turn is rendered once: freezing a frozen turn again changes nothing, even when the turn it is
-- read from was changed in any field but the frozen messages, and a first freeze stores what the
-- turn renders as at that moment.
pub freeze_turn-stable :
    (t u : Turn)
    → u.rendered ≡ (freeze_turn t).rendered
    → (freeze_turn u ≡ u) × (t.rendered ≡ none → u.rendered ≡ some (render_turn t))
unfolding freeze_turn
freeze_turn-stable t u h = ground arith
