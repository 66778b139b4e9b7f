-- ===== src/Common/Texts.antt =====
-- Text where the program looks into it: the code units of a string, in the ASCII range that its
-- patterns and the `i` flag of its regular expressions are about.
use Prim.Native.Nat.{◌-◌, ℕ, ◌+◌}
use Prim.Native.Char.{code}
use Prim.Native.String.{String}
use mathlib.Core.Bool.{Bool, true, false, ◌&&◌, ◌||◌}
use mathlib.Core.List.{List, [], ◌∷◌, ◌++◌, map}
use mathlib.Core.Path.{◌≡◌, refl, ap₂, subst}
use mathlib.Core.Logic.{◌↔◌}
use tallei_ai.Common.Tests.{leb, ◌==◌, if◌then◌else◌, &&_split, ==_iff}

abbrev pub codes : String → List ℕ
codes String.[] = []
codes (String.◌∷◌ c s) = code c ∷ codes s

-- A string as JavaScript indexes it, by its code units.
abbrev pub Text : Type 0
Text = List ℕ

abbrev pub lower : ℕ → ℕ
lower c = if leb b'A' c && leb c b'Z' then c + 32 else c

unfoldable pub starts : List ℕ → List ℕ → Bool
starts [] text = true
starts (p ∷ ps) [] = false
starts (p ∷ ps) (c ∷ cs) = (p == c) && starts ps cs

unfoldable pub includes : List ℕ → List ℕ → Bool
unfolding starts
includes part [] = starts part []
includes part (c ∷ cs) = starts part (c ∷ cs) || includes part cs

-- `/part/i.test(text)`, for a part with no special characters, in lower case.
unfoldable pub mentions : String → String → Bool
unfolding includes
mentions part text = includes (codes part) (map lower (codes text))

abbrev pub upper : ℕ → ℕ
upper c = if leb b'a' c && leb c b'z' then c - 32 else c

-- The class `\s`, which is also what `trim` removes.
abbrev pub is_space : ℕ → Bool
is_space c =
    (leb 9 c && leb c 13)
    || ((c == 32)
        || ((c == 160)
            || ((c == 5760)
                || ((leb 8192 c && leb c 8202)
                    || ((c == 8232)
                        || ((c == 8233)
                            || ((c == 8239)
                                || ((c == 8287) || ((c == 12288) || (c == 65279))))))))))

unfoldable pub trim_start : Text → Text
trim_start [] = []
trim_start (c ∷ cs) = let rest = trim_start cs in if is_space c then rest else c ∷ cs

abbrev cons_unless_blank : ℕ → Text → Text
cons_unless_blank c [] = if is_space c then [] else c ∷ []
cons_unless_blank c (d ∷ ds) = c ∷ d ∷ ds

unfoldable pub trim_end : Text → Text
trim_end [] = []
trim_end (c ∷ cs) = cons_unless_blank c (trim_end cs)

unfoldable pub trim : Text → Text
unfolding trim_start trim_end
trim t = trim_end (trim_start t)

unfoldable pub text_eq : Text → Text → Bool
text_eq [] [] = true
text_eq [] (d ∷ ds) = false
text_eq (c ∷ cs) [] = false
text_eq (c ∷ cs) (d ∷ ds) = (c == d) && text_eq cs ds

unfoldable pub join : Text → List Text → Text
join separator [] = []
join separator (t ∷ []) = t
join separator (t ∷ u ∷ us) = t ++ separator ++ join separator (u ∷ us)

pub text_eq→eq : (t u : Text) → text_eq t u ≡ true → t ≡ u
unfolding text_eq
text_eq→eq [] [] e = refl
text_eq→eq [] (d ∷ ds) e = cc
text_eq→eq (c ∷ cs) [] e = cc
text_eq→eq (c ∷ cs) (d ∷ ds) e =
    let (h, hs) = &&_split (c == d) (text_eq cs ds) e in
    ap₂ (λ x xs. x ∷ xs) ((==_iff c d).0 h) (text_eq→eq cs ds hs)

pub text_eq_refl : (t : Text) → text_eq t t ≡ true
unfolding text_eq
text_eq_refl [] = refl
text_eq_refl (c ∷ cs) = rw ((==_iff c c).1 refl) (text_eq_refl cs)

pub text_eq_iff : (t u : Text) → (text_eq t u ≡ true) ↔ (t ≡ u)
text_eq_iff t u = (text_eq→eq t u, λ e. subst (λ v. text_eq t v ≡ true) e (text_eq_refl t))
