-- ===== src/Base/Text.antt =====
-- Python's text operations that the program uses: `join`, `len` and a test for blank text.
pub mod Digits
use Prim.Native.Nat.{ℕ, zero, suc, ◌/◌, ◌%◌, Ordering}
use mathlib.Core.Path.{◌≡◌, refl, ap, ◌∙◌}
use mathlib.Core.Bool.{Bool, true, false, ◌&&◌, ◌||◌}
use native.Mathlib.Omega.{arith}
use nan_itself.Base.Equality.{contains, ◌==◌, string_eq}
use nan_itself.Base.Tests.{leb, ltb, if◌then◌else◌}
use Prim.Native.Char.{code}
use Prim.Native.String.{compare, String, ◌++◌}
use mathlib.Core.List.{List}

-- `sep.join(parts)`
abbrev pub join : String → List String → String
join sep List.[] = ""
join sep (List.◌∷◌ s List.[]) = s
join sep (List.◌∷◌ s (List.◌∷◌ t rest)) = s ++ (sep ++ join sep (List.◌∷◌ t rest))

-- `"".join(parts)`
abbrev pub concat : List String → String
concat List.[] = ""
concat (List.◌∷◌ s rest) = s ++ concat rest

-- One decimal digit.
abbrev pub digit : ℕ → String
digit zero = "0"
digit (suc zero) = "1"
digit (suc (suc zero)) = "2"
digit (suc (suc (suc zero))) = "3"
digit (suc (suc (suc (suc zero)))) = "4"
digit (suc (suc (suc (suc (suc zero))))) = "5"
digit (suc (suc (suc (suc (suc (suc zero)))))) = "6"
digit (suc (suc (suc (suc (suc (suc (suc zero))))))) = "7"
digit (suc (suc (suc (suc (suc (suc (suc (suc zero)))))))) = "8"
digit _ = "9"

-- `str(n)` of a number that is not negative, by its last digit first. The fuel `n` is enough,
-- since a division by ten at least halves a positive number.
decimal_from : (fuel : ℕ) → ℕ → String
decimal_from zero n = digit n
decimal_from (suc fuel) n =
    let rest = decimal_from fuel (n / 10) ++ digit (n % 10) in if ltb n 10 then digit n else rest

unfoldable pub decimal : ℕ → String
unfolding decimal_from
decimal n = decimal_from n n

decimal_test : decimal 4096 ++ decimal 7 ≡ "40967"
unfolding decimal
decimal_test = refl

-- `str.isspace` of one character.
is_space : ℕ → Bool
is_space c =
    (leb 9 c && leb c 13)
    || (leb 28 c && leb c 32)
    || (leb 133 c && leb c 133)
    || (leb 160 c && leb c 160)
    || (leb 5760 c && leb c 5760)
    || (leb 8192 c && leb c 8202)
    || (leb 8232 c && leb c 8233)
    || (leb 8239 c && leb c 8239)
    || (leb 8287 c && leb c 8287)
    || (leb 12288 c && leb c 12288)

strip_left : String → String
strip_left String.[] = ""
strip_left (String.◌∷◌ c s) =
    let rest = strip_left s in if is_space (code c) then rest else String.◌∷◌ c s

strip_right : String → String
strip_right String.[] = ""
strip_right (String.◌∷◌ c s) =
    let rest = strip_right s in
    elim rest [
      | String.[] ↦ if is_space (code c) then "" else String.◌∷◌ c ""
      | String.◌∷◌ d t ↦ String.◌∷◌ c (String.◌∷◌ d t)
    ]

-- `s.strip()`
unfoldable pub strip : String → String
unfolding strip_left strip_right is_space
strip s = strip_left (strip_right s)

strip_test : strip " a b  " ≡ "a b"
unfolding strip
strip_test = refl

abbrev pub le : String → String → Bool
le s t = elim (compare s t) [ Ordering.gt ↦ false | _ ↦ true ]

insert_sorted : String → List String → List String
insert_sorted s List.[] = List.◌∷◌ s List.[]
insert_sorted s (List.◌∷◌ t ts) =
    if le s t then List.◌∷◌ s (List.◌∷◌ t ts) else List.◌∷◌ t (insert_sorted s ts)

-- `sorted(names)`
unfoldable pub sorted : List String → List String
unfolding insert_sorted
sorted List.[] = List.[]
sorted (List.◌∷◌ s ss) = insert_sorted s (sorted ss)

contains-insert_sorted :
    (i s : String) (ss : List String) → contains (insert_sorted s ss) i ≡ (i == s || contains ss i)
unfolding insert_sorted
contains-insert_sorted i s List.[] = refl
contains-insert_sorted i s (List.◌∷◌ t ts) = ground (arith, contains-insert_sorted i s ts)

pub contains-sorted : (i : String) (ss : List String) → contains (sorted ss) i ≡ contains ss i
unfolding sorted
contains-sorted i List.[] = refl
contains-sorted i (List.◌∷◌ s ss) =
    contains-insert_sorted i s (sorted ss) ∙ ap (λ b. i == s || b) (contains-sorted i ss)

-- `s[:n]` and `s[n:]`, for `n` not negative
unfoldable pub take_text : ℕ → String → String
take_text zero s = ""
take_text (suc n) String.[] = ""
take_text (suc n) (String.◌∷◌ c s) = String.◌∷◌ c (take_text n s)
