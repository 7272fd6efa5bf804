-- ===== src/Base/Text.antt =====
-- Texts of C as lists of character codes. A string ends at its first NUL; in a list, its end stands
-- for one.
use Prim.Native.Nat.{ℕ, ◌+◌, ◌/◌, ◌%◌}
use Prim.Native.Char.{code}
use Prim.Native.String.{String}
use mathlib.Core.Bool.{Bool, true, false, ◌&&◌}
use mathlib.Core.Option.{Option, none, some}
use mathlib.Core.List.{List, [], ◌∷◌}
use package.purv.Base.Tests.{ltb, ◌==◌, if◌then◌else◌}

-- The codes of a literal.
abbrev pub codes : String → List ℕ
codes String.[] = []
codes (String.◌∷◌ c s) = code c ∷ codes s

-- The string that begins at the list's head.
abbrev pub c_str : List ℕ → List ℕ
c_str [] = []
c_str (c ∷ s) = if c == 0 then [] else c ∷ c_str s

abbrev pub list_eq : List ℕ → List ℕ → Bool
list_eq [] [] = true
list_eq [] (b ∷ t) = false
list_eq (a ∷ s) [] = false
list_eq (a ∷ s) (b ∷ t) = a == b && list_eq s t

-- `!strcmp(s, t)` for a literal `t`.
abbrev pub str_eq : List ℕ → List ℕ → Bool
str_eq s t = list_eq (c_str s) t

-- `!strncmp(s, t, strlen(t))` for a literal `t`.
abbrev pub starts_with : List ℕ → List ℕ → Bool
starts_with s [] = true
starts_with [] (b ∷ t) = false
starts_with (a ∷ s) (b ∷ t) = a == b && starts_with s t

-- What follows the first `c` of a string, `strchr(s, c) + 1`.
abbrev pub after_char : ℕ → List ℕ → Option (List ℕ)
after_char c [] = none
after_char c (a ∷ s) = if a == c then some s else if a == 0 then none else after_char c s

-- `if (*p == c) p++`
abbrev pub skip_char : ℕ → List ℕ → List ℕ
skip_char c [] = []
skip_char c (a ∷ s) = if a == c then s else a ∷ s

-- `s[i]`, at the NUL included.
abbrev pub head_or_nul : List ℕ → ℕ
head_or_nul [] = 0
head_or_nul (a ∷ s) = a

-- `%d`, below 100.
abbrev pub decimal : ℕ → List ℕ
decimal n = if ltb n 10 then (b'0' + n) ∷ [] else (b'0' + n / 10) ∷ (b'0' + n % 10) ∷ []
