-- ===== src/Base/Read.antt =====
-- Reading JSON values the way the program's `from_json` functions do: what subscripting, `.get` and
-- a loop do to a value of any shape, and which exception they raise.
use mathlib.Core.Path.{◌≡◌, refl}
use mathlib.Core.Bool.{Bool}
use mathlib.Core.Option.{Option, none, some}
use mathlib.Core.List.{List, [], ◌∷◌, map}
use Prim.Native.Nat.{ℕ}
use Prim.Native.String.{String}
use nan_itself.Base.Int.{pos}
use nan_itself.Base.Json.{
  Json, null, bool, int, float, str, arr, obj, Fields, end, field, get, of_items, to_items,
}

-- A value, a KeyError, another exception (ValueError, TypeError or AttributeError), or a value that
-- the annotations exclude: Python takes such a value as it is, and the model stops there.
pub data Read {ℓ} (A : Type ℓ) : Type ℓ where
  ok : A → Read A
  missing invalid untyped : Read A

infixl 5 ◌>>=◌
abbrev pub ◌>>=◌ {ℓ κ} : {A : Type ℓ} {B : Type κ} → Read A → (A → Read B) → Read B
ok a >>= f = f a
missing >>= f = missing
invalid >>= f = invalid
untyped >>= f = untyped

abbrev or_missing : Option Json → Read Json
or_missing none = missing
or_missing (some j) = ok j

abbrev or_default : Option Json → Json → Read Json
or_default none d = ok d
or_default (some j) d = ok j

-- `data[k]`
abbrev pub item : String → Json → Read Json
item k (obj fs) = or_missing (get k fs)
item k _ = invalid

-- `data.get(k, d)`
abbrev pub item_or : String → Json → Json → Read Json
item_or k d (obj fs) = or_default (get k fs) d
item_or k d _ = invalid

abbrev names : Fields → List Json
names end = []
names (field k v fs) = str k ∷ names fs

abbrev letters : String → List Json
letters String.[] = []
letters (String.◌∷◌ c s) = str (String.◌∷◌ c "") ∷ letters s

-- `for x in data`
abbrev pub iterate : Json → Read (List Json)
iterate (arr xs) = ok (of_items xs)
iterate (obj fs) = ok (names fs)
iterate (str s) = ok (letters s)
iterate _ = invalid

abbrev pub as_text : Json → Read String
as_text (str s) = ok s
as_text _ = untyped

abbrev pub as_nat : Json → Read ℕ
as_nat (int (pos n)) = ok n
as_nat _ = untyped

abbrev pub as_time : Json → Read ℕ
as_time (float (pos n)) = ok n
as_time _ = untyped

abbrev pub as_bool : Json → Read Bool
as_bool (bool b) = ok b
as_bool _ = untyped

-- A value that may be null.
abbrev pub as_option {ℓ} : {A : Type ℓ} → (Json → Read A) → Json → Read (Option A)
as_option f null = ok none
as_option f j = f j >>= λ a. ok (some a)

-- `tuple(f(x) for x in data)`
unfoldable pub read_each {ℓ} : {A : Type ℓ} → (Json → Read A) → List Json → Read (List A)
read_each f [] = ok []
read_each f (j ∷ js) = f j >>= λ a. read_each f js >>= λ xs. ok (a ∷ xs)

module _ {ℓ κ} {A : Type ℓ} {B : Type κ} where
  -- Elements that are each read back as `g` of what was written.
  pub read_each-map :
      (f : Json → Read B) (enc : A → Json) (g : A → B)
      → ((a : A) → f (enc a) ≡ ok (g a))
      → (xs : List A) → read_each f (map enc xs) ≡ ok (map g xs)
  unfolding read_each
  read_each-map f enc g h [] = refl
  read_each-map f enc g h (x ∷ xs) = rw (h x, read_each-map f enc g h xs) refl

pub of_items-to_items : (js : List Json) → of_items (to_items js) ≡ js
of_items-to_items [] = refl
of_items-to_items (j ∷ js) = rw (of_items-to_items js) refl
