-- ===== src/Prelude/Text.antt =====
-- The few functions of Go's `fmt` and `strings` that the program applies to whole texts.
use Prim.Native.Nat.{ℕ, zero, suc, ◌/◌, ◌%◌}
use Prim.Native.Char.{Char, code}
use Prim.Native.String.{String, ◌++◌}
use mathlib.Core.Path.{◌≡◌, refl}
use mathlib.Core.Bool.{Bool, ◌||◌, ◌&&◌}
use mathlib.Core.List.{List, [], ◌∷◌}
use project_talos.Prelude.Tests.{◌==◌, nat_eq, string_eq, ltb, leb, if◌then◌else◌}

digit : ℕ → String
digit zero = "0"
digit (suc zero) = "1"
digit (suc (suc zero)) = "2"
digit (suc (suc (suc zero))) = "3"
digit (suc (suc (suc (suc zero)))) = "4"
digit (suc (suc (suc (suc (suc zero))))) = "5"
digit (suc (suc (suc (suc (suc (suc zero)))))) = "6"
digit (suc (suc (suc (suc (suc (suc (suc zero))))))) = "7"
digit (suc (suc (suc (suc (suc (suc (suc (suc zero)))))))) = "8"
digit _ = "9"

-- Each round drops a digit, so `n` rounds are more than enough for `n`.
digits : ℕ → ℕ → String → String
digits zero n acc = acc
digits (suc f) n acc =
    let text = digit (n % 10) ++ acc in
    let rest = digits f (n / 10) text in if ltb n 10 then text else rest

-- `%d`
unfoldable pub show : ℕ → String
unfolding digits digit
show n = digits (suc n) n ""

show_port : show 40001 ≡ "40001"
unfolding show
show_port = refl

-- `unicode.IsSpace`
unfoldable pub is_space : Char → Bool
is_space c =
    let n = code c in
    n == 32
    || n == 9
    || n == 10
    || n == 11
    || n == 12
    || n == 13
    || n == 133
    || n == 160
    || n == 5760
    || (leb 8192 n && leb n 8202)
    || n == 8232
    || n == 8233
    || n == 8239
    || n == 8287
    || n == 12288

unfoldable pub trim_left : String → String
trim_left String.[] = ""
trim_left (String.◌∷◌ c s) = let rest = trim_left s in if is_space c then rest else String.◌∷◌ c s

unfoldable pub trim_right : String → String
trim_right String.[] = ""
trim_right (String.◌∷◌ c s) =
    let rest = trim_right s in
    if rest == "" then (if is_space c then "" else String.◌∷◌ c "") else String.◌∷◌ c rest

-- `strings.TrimSpace`
unfoldable pub trim_space : String → String
unfolding is_space trim_left trim_right
trim_space s = trim_right (trim_left s)

-- `strings.Join`
abbrev pub join : String → List String → String
join sep [] = ""
join sep (x ∷ []) = x
join sep (x ∷ y ∷ rest) = x ++ sep ++ join sep (y ∷ rest)

trim_space_test : trim_space "  app.example.com \n" ≡ "app.example.com"
unfolding trim_space
trim_space_test = refl
