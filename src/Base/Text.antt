-- ===== src/Base/Text.antt =====
-- The text functions of Go's `strings`, `strconv` and `fmt` that the program calls. Texts are
-- native strings, walked by code points; the topics and identifiers of the program are ASCII.
use Prim.Native.Char.{Char, code}
use Prim.Native.String
use chukrun.Base.{
  ℕ, zero, suc, ◌+◌, ◌/◌, ◌%◌, String, ◌≡◌, refl, List, [], ◌∷◌, ◌==◌, ltb, if◌then◌else◌,
}
use chukrun.Base.Int.{ℤ, pos, negsuc}

-- The `+` of texts.
infixr 66 ◌<>◌
abbrev pub ◌<>◌ : String → String → String
s <> t = String.◌++◌ s t

-- One round of `strings.Split` over the first part of the list.
push_char : Char → List String → List String
push_char c [] = String.◌∷◌ c "" ∷ []
push_char c (part ∷ parts) = String.◌∷◌ c part ∷ parts

-- `strings.Split(s, sep)` for a separator of one character.
unfoldable pub split : ℕ → String → List String
unfolding push_char
split sep String.[] = "" ∷ []
split sep (String.◌∷◌ c s) = if code c == sep then "" ∷ split sep s else push_char c (split sep s)

-- `strings.Join(parts, sep)`.
unfoldable pub join : String → List String → String
join sep [] = ""
join sep (part ∷ []) = part
join sep (part ∷ next ∷ parts) = part <> (sep <> join sep (next ∷ parts))

-- The entry of a list at a position, the empty text behind its end.
at_place : ℕ → List String → String
at_place i [] = ""
at_place zero (s ∷ ss) = s
at_place (suc i) (s ∷ ss) = at_place i ss

digit : ℕ → String
unfolding at_place split
digit n = at_place n (split 44 "0,1,2,3,4,5,6,7,8,9")

-- `%d` of a natural number; a number below `10 ^ fuel` has at most `fuel` digits.
show_from : ℕ → ℕ → String → String
unfolding digit
show_from zero n acc = acc
show_from (suc fuel) n acc =
    let longer = show_from fuel (n / 10) (digit (n % 10) <> acc) in
    if ltb n 10 then digit n <> acc else longer

unfoldable pub show_ℕ : ℕ → String
unfolding show_from
show_ℕ n = show_from (suc n) n ""

-- `%d` of an `int`.
unfoldable pub show_ℤ : ℤ → String
unfolding show_ℕ
show_ℤ (pos n) = show_ℕ n
show_ℤ (negsuc n) = "-" <> show_ℕ (n + 1)

split_test : split b'.' "execution..started" ≡ "execution" ∷ "" ∷ "started" ∷ []
unfolding split
split_test = refl

show_test : show_ℕ 1050 ≡ "1050"
unfolding show_ℕ
show_test = refl
