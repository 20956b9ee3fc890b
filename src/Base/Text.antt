-- ===== src/Base/Text.antt =====
-- `strings.Split` at one character.
use Prim.Native.Char.{Char, code}
use Prim.Native.String.{String}
use mathlib.Core.Path.{◌≡◌, refl}
use mathlib.Core.Logic.{◌≢◌}
use native.Mathlib.Omega.{arith}
use mathlib.Core.List.{List, [], ◌∷◌}
use veloera.Base.Tests.{◌==◌, if◌then◌else◌}

-- The parts found behind a character that is no separator.
abbrev glue : Char → List String → List String
glue c [] = String.◌∷◌ c String.[] ∷ []
glue c (part ∷ parts) = String.◌∷◌ c part ∷ parts

glue-ne-nil : (c : Char) (parts : List String) → glue c parts ≢ []
glue-ne-nil c [] = ground arith
glue-ne-nil c (part ∷ parts) = ground arith

-- The separator is a code point.
unfoldable pub split_at : String → Char → List String
split_at String.[] sep = String.[] ∷ []
split_at (String.◌∷◌ c s) sep =
    let parts = split_at s sep in if code c == code sep then String.[] ∷ parts else glue c parts

two_parts : split_at "ab,c" "," ≡ "ab" ∷ "c" ∷ []
unfolding split_at
two_parts = refl

no_part : split_at "" "," ≡ "" ∷ []
unfolding split_at
no_part = refl

pub split_at-ne-nil : (s : String) (sep : Char) → split_at s sep ≢ []
unfolding split_at
split_at-ne-nil String.[] sep = ground arith
split_at-ne-nil (String.◌∷◌ c s) sep = ground (arith, glue-ne-nil c (split_at s sep))
