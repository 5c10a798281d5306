-- ===== src/Shared/Texts.antt =====
-- Texts in parts: the split at slashes and its inverse, and the texts that `strip` leaves as they are.
use Prim.Native.Nat.{ℕ}
use Prim.Native.Char.{Char, code}
use Prim.Native.String.{String, ◌++◌}
use mathlib.Core.Path.{◌≡◌, refl}
use mathlib.Core.Bool.{Bool, true, false, ◌&&◌, ◌||◌, not}
use mathlib.Core.List.{List, [], ◌∷◌}
use crytpo_data.Shared.Tests.{◌==◌, leb, if◌then◌else◌}
use crytpo_data.Shared.Keys.{contains, nat_eq}

abbrev pub onto_first : Char → List String → List String
onto_first c [] = (String.◌∷◌ c String.[]) ∷ []
onto_first c (w ∷ ws) = (String.◌∷◌ c w) ∷ ws

-- `text.split("/")`
abbrev pub split_slashes : String → List String
split_slashes String.[] = "" ∷ []
split_slashes (String.◌∷◌ c s) =
    let rest = split_slashes s in if code c == b'/' then "" ∷ rest else onto_first c rest

-- `"/".join(parts)`
abbrev pub join_slashes : List String → String
join_slashes [] = ""
join_slashes (w ∷ []) = w
join_slashes (w ∷ v ∷ vs) = w ++ "/" ++ join_slashes (v ∷ vs)

-- The code points that `str.strip` takes away.
abbrev is_space : ℕ → Bool
is_space c =
    (leb 9 c && leb c 13)
    || ((leb 28 c && leb c 32)
        || ((leb 8192 c && leb c 8202)
            || contains (133 ∷ 160 ∷ 5760 ∷ 8232 ∷ 8233 ∷ 8239 ∷ 8287 ∷ 12288 ∷ []) c))

abbrev ends_in_space : String → Bool
ends_in_space String.[] = false
ends_in_space (String.◌∷◌ c String.[]) = is_space (code c)
ends_in_space (String.◌∷◌ c (String.◌∷◌ d s)) = ends_in_space (String.◌∷◌ d s)

-- `text == text.strip()`
abbrev pub is_stripped : String → Bool
is_stripped String.[] = true
is_stripped (String.◌∷◌ c s) = not (is_space (code c)) && not (ends_in_space (String.◌∷◌ c s))

-- `"/" in text`
abbrev pub has_slash : String → Bool
has_slash String.[] = false
has_slash (String.◌∷◌ c s) = code c == b'/' || has_slash s

test-split : split_slashes "raw/okx//x" ≡ "raw" ∷ "okx" ∷ "" ∷ "x" ∷ []
test-split = refl

test-stripped : is_stripped " a" ≡ false
test-stripped = refl
