-- ===== src/Prelude/Text.antt =====
-- The functions of package strings that the code calls, on ASCII letters and white space.
use Prim.Native.Nat.{ℕ, ◌+◌, ◌-◌, ◌≤◌}
use mathlib.Core.Path.{◌≡◌}
use native.Mathlib.Omega.{arith}
use package.netprobe_ir.Prelude.Lists.{length}
use mathlib.Core.Bool.{Bool, true, false, ◌&&◌, ◌||◌}
use mathlib.Core.List.{List, [], ◌∷◌, ◌++◌, map, reverse}
use mathlib.Core.Option.{Option, none, some}
use package.netprobe_ir.Prelude.Tests.{ltb, leb, ◌==◌, if◌then◌else◌, Bytes, str_eq}

-- strings.ToLower
abbrev pub to_lower : Bytes → Bytes
to_lower = map (λ c. if leb 65 c && leb c 90 then c + 32 else c)

-- tab, line feed, vertical tab, form feed, carriage return and space
abbrev pub is_space : ℕ → Bool
is_space c = c == 32 || leb 9 c && leb c 13

unfoldable pub trim_left : Bytes → Bytes
trim_left [] = []
trim_left (c ∷ cs) = let rest = trim_left cs in if is_space c then rest else c ∷ cs

-- what is left of the text before the white space at its end
unfoldable pub trim_right : Bytes → Bytes
trim_right [] = []
trim_right (c ∷ cs) =
    let rest = trim_right cs in if str_eq rest [] && is_space c then [] else c ∷ rest

abbrev pub trim_space : Bytes → Bytes
trim_space s = trim_right (trim_left s)

-- strings.HasPrefix and strings.Contains
unfoldable pub starts_with : Bytes → Bytes → Bool
starts_with s [] = true
starts_with [] (c ∷ cs) = false
starts_with (x ∷ xs) (c ∷ cs) = x == c && starts_with xs cs

pub starts_with-length : (s t : Bytes) → starts_with s t ≡ true → length t ≤ length s
unfolding starts_with
starts_with-length s [] h = omega arith
starts_with-length [] (c ∷ cs) h = absurd (ground (arith, h))
starts_with-length (x ∷ xs) (c ∷ cs) h =
    let rest : length cs ≤ length xs = starts_with-length xs cs (ground (arith, h)) in omega arith

unfoldable pub has_text : Bytes → Bytes → Bool
unfolding starts_with
has_text [] t = starts_with [] t
has_text (x ∷ xs) t = starts_with (x ∷ xs) t || has_text xs t

abbrev pub equal_fold : Bytes → Bytes → Bool
equal_fold s t = str_eq (to_lower s) (to_lower t)

-- strings.HasSuffix
unfoldable pub ends_with : Bytes → Bytes → Bool
ends_with s t = starts_with (reverse s) (reverse t)

-- strings.ToUpper
abbrev pub to_upper : Bytes → Bytes
to_upper = map (λ c. if leb 97 c && leb c 122 then c - 32 else c)

-- `s < t` on strings
unfoldable pub str_less : Bytes → Bytes → Bool
str_less s [] = false
str_less [] (y ∷ ys) = true
str_less (x ∷ xs) (y ∷ ys) = ltb x y || x == y && str_less xs ys

-- strings.Join
unfoldable pub join : Bytes → List Bytes → Bytes
join sep [] = []
join sep (s ∷ []) = s
join sep (s ∷ (t ∷ ts)) = s ++ (sep ++ join sep (t ∷ ts))

-- strings.IndexByte, as the text in front of the first such byte and the text behind it
unfoldable pub cut_at : ℕ → Bytes → Option (Bytes × Bytes)
cut_at c [] = none
cut_at c (x ∷ xs) =
    let rest = cut_at c xs in
    if x == c then some ([], xs) else elim rest [ none ↦ none | some (a, b) ↦ some (x ∷ a, b) ]
