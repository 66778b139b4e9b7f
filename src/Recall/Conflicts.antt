-- ===== src/Recall/Conflicts.antt =====
-- Hints at conflicts: `detectConflicts`.
use tallei_ai.Common.{
  text_eq→eq, text_eq, text_eq_refl, Text, String, List, Bool, ℕ, true, false, some, [], ◌∷◌, map,
  length, ltb, select_where, mem-select_where, arith, ◌≤◌, dedupe, delete_where, ◌≡◌, ◌≢◌, refl,
  sym, ◌∙◌, ap, Bool-cases, inl, inr, str_eq, str_eq_iff, Option-cases,
}
use mathlib.Core.List.{Memᴰ}
use mathlib.Core.List.Memᴰ
use tallei_ai.Recall.{BucketMemory}
use tallei_ai.Recall.Results.{
  is_subject, ConflictHint, subject_of, about, subjects, hints_for, detect_conflicts,
  group_platforms, ref_of,
}

mem-delete_where {ℓ} :
    {A : Type ℓ} (p : A → Bool) (xs : List A) {x : A}
    → Memᴰ x xs
    → p x ≡ false
    → Memᴰ x (delete_where p xs)
unfolding delete_where
mem-delete_where p [] m n = absurd (Memᴰ.not-nil m)
mem-delete_where p (y ∷ ys) (Memᴰ.head e) n =
    let n' : p y ≡ false = rw e at n in rw n' (Memᴰ.head e)
mem-delete_where p (y ∷ ys) (Memᴰ.tail m) n =
    let rest = mem-delete_where p ys m n in
    elim (Bool-cases (p y)) [ inl t ↦ rw t rest | inr f ↦ rw f (Memᴰ.tail rest) ]

mem-dedupe {ℓ} :
    {A : Type ℓ} (same : A → A → Bool) (xs : List A) {x : A}
    → ((y z : A) → same y z ≡ true → y ≡ z)
    → Memᴰ x xs
    → Memᴰ x (dedupe same xs)
unfolding dedupe
mem-dedupe same [] h m = absurd (Memᴰ.not-nil m)
mem-dedupe same (y ∷ ys) h (Memᴰ.head e) = Memᴰ.head e
mem-dedupe same (y ∷ ys) {x} h (Memᴰ.tail m) = elim (Bool-cases (same y x)) [
  | inl e ↦ Memᴰ.head (sym (h y x e))
  | inr n ↦ Memᴰ.tail (mem-delete_where (same y) (dedupe same ys) (mem-dedupe same ys h m) n)
]

same_name : (s t : String) → str_eq s t ≡ true → s ≡ t
same_name s t e = (str_eq_iff s t).0 e

-- Two different texts in a list make it long.
two_members {ℓ} :
    {A : Type ℓ} (xs : List A) {x y : A} → Memᴰ x xs → Memᴰ y xs → x ≢ y → 2 ≤ length xs
two_members [] m m' ne = absurd (Memᴰ.not-nil m)
two_members (z ∷ []) (Memᴰ.head e) (Memᴰ.head e') ne = absurd (ne (e ∙ sym e'))
two_members (z ∷ []) (Memᴰ.tail m) m' ne = absurd (Memᴰ.not-nil m)
two_members (z ∷ []) (Memᴰ.head e) (Memᴰ.tail m') ne = absurd (Memᴰ.not-nil m')
two_members (z ∷ w ∷ ws) m m' ne = omega arith

not_below : (n : ℕ) → 2 ≤ n → ltb n 2 ≡ false
not_below n h = ground arith

module _ {S : Type 0} where
  subjects-mem :
      (ms : List (BucketMemory S)) {m : BucketMemory S} {s : Text}
      → Memᴰ m ms
      → subject_of m ≡ some s
      → Memᴰ s (subjects ms)
  unfolding subjects
  subjects-mem [] h e = absurd (Memᴰ.not-nil h)
  subjects-mem (x ∷ xs) {s = s} (Memᴰ.head same) e =
      let e' : subject_of x ≡ some s = ap subject_of (sym same) ∙ e in
      rw (subjects, e') (Memᴰ.head refl)
  subjects-mem (x ∷ xs) (Memᴰ.tail h) e =
      let rest = subjects-mem xs h e in
      elim (Option-cases (subject_of x)) [
        | inl n ↦ rw (subjects, n) rest
        | inr (t, e') ↦ rw (subjects, e') (Memᴰ.tail rest)
      ]

  about-subject : (s : Text) (m : BucketMemory S) → subject_of m ≡ some s → about s m ≡ true
  about-subject s m e = ap (is_subject s) e ∙ text_eq_refl s

  -- The hint of a subject
  abbrev hint_of : Text → List (BucketMemory S) → ConflictHint
  hint_of s ms =
      let group = select_where (about s) ms in
      record { subject = s; platforms = group_platforms group; refs = map ref_of group }

  hints_for-mem :
      (ms : List (BucketMemory S)) (ss : List Text) {s : Text}
      → Memᴰ s ss
      → 2 ≤ length (select_where (about s) ms)
      → 2 ≤ length (group_platforms (select_where (about s) ms))
      → Memᴰ (hint_of s ms) (hints_for ms ss)
  unfolding hints_for
  hints_for-mem ms [] m two platforms = absurd (Memᴰ.not-nil m)
  hints_for-mem ms (t ∷ ts) {s} (Memᴰ.head e) two platforms =
      let not_one : ltb (length (select_where (about t) ms)) 2 ≡ false =
        rw (← e) (not_below _ two) in
      let not_same : ltb (length (group_platforms (select_where (about t) ms))) 2 ≡ false =
        rw (← e) (not_below _ platforms) in
      rw (not_one, not_same) (Memᴰ.head (ap (λ u. hint_of u ms) e))
  hints_for-mem ms (t ∷ ts) (Memᴰ.tail m) two platforms =
      let rest = hints_for-mem ms ts m two platforms in
      elim (Bool-cases (ltb (length (select_where (about t) ms)) 2)) [
        | inl a ↦ rw a rest
        | inr n ↦ elim (Bool-cases (ltb (length (group_platforms (select_where (about t) ms))) 2)) [
          | inl b ↦ rw (n, b) rest
          | inr n' ↦ rw (n, n') (Memᴰ.tail rest)
        ]
      ]

  -- Two memories with one subject, that came from different platforms, are reported: there is a hint
  -- with their subject, whose references have both, and their platforms.
  pub detect_conflicts-Reported :
      (ms : List (BucketMemory S)) (m m' : BucketMemory S) (s : Text)
      → Memᴰ m ms
      → Memᴰ m' ms
      → subject_of m ≡ some s
      → subject_of m' ≡ some s
      → m.metadata.platform ≢ m'.metadata.platform
      → (h : ConflictHint) × Memᴰ h (detect_conflicts ms)
        × (h.subject ≡ s)
        × Memᴰ (ref_of m) h.refs
        × Memᴰ (ref_of m') h.refs
        × Memᴰ m.metadata.platform h.platforms
        × Memᴰ m'.metadata.platform h.platforms
  unfolding detect_conflicts
  detect_conflicts-Reported ms m m' s h h' e e' ne =
      let group = select_where (about s) ms in
      let inside = mem-select_where (about s) ms h (about-subject s m e) in
      let inside' = mem-select_where (about s) ms h' (about-subject s m' e') in
      let platform = mem-dedupe str_eq _ same_name (Memᴰ.map (λ x. x.metadata.platform) inside) in
      let platform' = mem-dedupe str_eq _ same_name (Memᴰ.map (λ x. x.metadata.platform) inside') in
      let two =
        two_members group inside inside' (λ same. ne (ap (λ x. x.metadata.platform) same)) in
      (
        hint_of s ms,
        hints_for-mem ms _ (mem-dedupe text_eq _ text_eq→eq (subjects-mem ms h e)) two
            (two_members _ platform platform' ne),
        refl,
        Memᴰ.map ref_of inside,
        Memᴰ.map ref_of inside',
        platform,
        platform',
      )
