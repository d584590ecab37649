-- ===== src/Base/Json.antt =====
-- The values that `json` reads and writes. A Python float is counted in thousandths.
use mathlib.Core.Bool.{Bool}
use mathlib.Core.Option.{Option, none, some}
use mathlib.Core.List.{List, [], ◌∷◌}
use Prim.Native.String.{String}
use nan_itself.Base.Tests.{if◌then◌else◌}
use nan_itself.Base.Equality.{◌==◌, string_eq}
use nan_itself.Base.Int.{ℤ}

mutual
  pub data Json : Type 0 where
    null : Json
    bool : Bool → Json
    int : ℤ → Json
    float : ℤ → Json
    str : String → Json
    arr : Items → Json
    obj : Fields → Json

  pub data Items : Type 0 where
    nil : Items
    cons : Json → Items → Items

  pub data Fields : Type 0 where
    end : Fields
    field : String → Json → Fields → Fields

-- `d.get(k)`, which tells a missing key from a null only by `none`
unfoldable pub get : String → Fields → Option Json
get k end = none
get k (field j v d) = if k == j then some v else get k d

abbrev pub to_items : List Json → Items
to_items [] = nil
to_items (x ∷ xs) = cons x (to_items xs)

abbrev pub of_items : Items → List Json
of_items nil = []
of_items (cons x xs) = x ∷ of_items xs
