-- ===== src/OAuth/Scopes.antt =====
-- The scopes that a token has to have.
use mathlib.Core.List.{◌∷◌, List, Memᴰ}
use mathlib.Core.List.Memᴰ
use tallei_ai.Common.{
  refl, [], false, str_eq_iff, inr, sym, inl, Bool-cases, str_eq, All, ◌↔◌, true, ◌≡◌, String,
}
use tallei_ai.OAuth.{has_required_scopes, has}

has-Memᴰ : (granted : List String) (s : String) → has granted s ≡ true → Memᴰ s granted
unfolding has
has-Memᴰ [] s e = cc
has-Memᴰ (g ∷ gs) s e = elim (Bool-cases (str_eq g s)) [
  | inl same ↦ Memᴰ.head (sym ((str_eq_iff g s).0 same))
  | inr other ↦ Memᴰ.tail (has-Memᴰ gs s (rw other at e))
]

Memᴰ-has : (granted : List String) (s : String) → Memᴰ s granted → has granted s ≡ true
unfolding has
Memᴰ-has [] s m = absurd (Memᴰ.not-nil m)
Memᴰ-has (g ∷ gs) s (Memᴰ.head e) =
    let same : str_eq g s ≡ true = (str_eq_iff g s).1 (sym e) in rw same refl
Memᴰ-has (g ∷ gs) s (Memᴰ.tail m) = elim (Bool-cases (str_eq g s)) [
  | inl same ↦ rw same refl
  | inr other ↦ rw other (Memᴰ-has gs s m)
]

-- A token has the required scopes exactly if each of them is among those that were granted.
pub has_required_scopes-Memᴰ :
    (granted required : List String)
    → (has_required_scopes granted required ≡ true) ↔ All (λ s. Memᴰ s granted) required
unfolding has_required_scopes
has_required_scopes-Memᴰ granted [] = ((λ e. tt), (λ h. refl))
has_required_scopes-Memᴰ granted (s ∷ ss) =
    let (there, back) = has_required_scopes-Memᴰ granted ss in
    (
      λ e. (elim (Bool-cases (has granted s)) [
        | inl yes_it ↦ (has-Memᴰ granted s yes_it, there (rw yes_it at e))
        | inr no_it ↦ let bad : false ≡ true = rw no_it at e in cc
      ]),
      λ h. (let first : has granted s ≡ true = Memᴰ-has granted s h.0 in rw first (back h.1)),
    )
