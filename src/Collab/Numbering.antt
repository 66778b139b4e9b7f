-- ===== src/Collab/Numbering.antt =====
-- The transcripts of the tasks, over any run of requests of any users.
use tallei_ai.Common.{
  sym, length-append, All-update_where, Bool-cases, ap, arith, refl, update_where-Distinct, ◌≢◌,
  ◌∙◌, All-append, All-delete_where, inr, [], ◌+◌, append-Distinct, All, inl, length, ◌++◌, ◌∷◌,
  Distinct, ◌≡◌, Bool, delete_where, Option, List, ℕ,
}
use tallei_ai.Collab.{
  none, some, Collab, CollabActor, CollabTranscriptEntry, CollabTaskRow, AuthContext,
}
use tallei_ai.Collab.Writes.{Written, Continues}
use tallei_ai.Collab.Requests.{Run}
use tallei_ai.Collab.Effects.{handle-Written}

-- The turns are numbered one after the other, the first one with the number after `n`.
abbrev pub Numbered : ℕ → List CollabTranscriptEntry → Type 0
Numbered n [] = Unit
Numbered n (e ∷ es) = (e.iteration ≡ n + 1) × Numbered (n + 1) es

abbrev pub last_actor_of : Option CollabActor → List CollabTranscriptEntry → Option CollabActor
last_actor_of a [] = a
last_actor_of a (e ∷ es) = last_actor_of (some e.actor) es

Numbered-append :
    (n : ℕ) (es : List CollabTranscriptEntry) (e : CollabTranscriptEntry)
    → Numbered n es
    → e.iteration ≡ n + length es + 1
    → Numbered n (es ++ e ∷ [])
Numbered-append n [] e h k = (k ∙ omega arith, tt)
Numbered-append n (x ∷ xs) e (h, hs) k = (h, Numbered-append (n + 1) xs e hs (k ∙ omega arith))

last_actor_of-append :
    (a : Option CollabActor) (es : List CollabTranscriptEntry) (e : CollabTranscriptEntry)
    → last_actor_of a (es ++ e ∷ []) ≡ some e.actor
last_actor_of-append a [] e = refl
last_actor_of-append a (x ∷ xs) e = last_actor_of-append (some x.actor) xs e

module _ {A V D : Type 0} where
  pub record IsNumbered (r : CollabTaskRow A V D) : Type 0 where
    pub numbered : Numbered 0 r.transcript
    pub counted : r.iteration ≡ length r.transcript
    pub last : r.last_actor ≡ last_actor_of none r.transcript

  Continues-IsNumbered :
      (r r' : CollabTaskRow A V D) → Continues r r' → IsNumbered r → IsNumbered r'
  Continues-IsNumbered r r' (inl (t, i, l)) h = record {
    numbered = rw t h.numbered;
    counted = rw (t, i) h.counted;
    last = rw (t, l) h.last;
  }
  Continues-IsNumbered r r' (inr (e, t, n, i, l)) h = record {
    numbered =
        rw t (
          Numbered-append 0 r.transcript e h.numbered
            (n ∙ ap (λ k. k + 1) h.counted ∙ omega arith));
    counted = rw (t, i) (omega (arith, length-append r.transcript (e ∷ []), h.counted));
    last = rw (t, l) (sym (last_actor_of-append none r.transcript e));
  }

  abbrev IsKept : List (CollabTaskRow A V D) → Type 0
  IsKept rows = Distinct (λ (r : CollabTaskRow A V D). r.id) rows × All IsNumbered rows

  delete_where-Distinct :
      (p : CollabTaskRow A V D → Bool) (rows : List (CollabTaskRow A V D))
      → Distinct (λ (r : CollabTaskRow A V D). r.id) rows
      → Distinct (λ (r : CollabTaskRow A V D). r.id) (delete_where p rows)
  unfolding delete_where
  delete_where-Distinct p [] h = tt
  delete_where-Distinct p (r ∷ rs) (h, hs) =
      let rest = delete_where-Distinct p rs hs in
      let away = All-delete_where (λ x. x.id ≢ r.id) p rs h in
      elim (Bool-cases (p r)) [ inl t ↦ rw t rest | inr n ↦ rw n (away, rest) ]

  Written-IsKept :
      (auth : AuthContext) {rows rows' : List (CollabTaskRow A V D)}
      → Written auth rows rows'
      → IsKept rows
      → IsKept rows'
  Written-IsKept auth Written.same h = h
  Written-IsKept auth {rows} (Written.added r _ t i l fresh) (keys, ok) = (
    append-Distinct (λ (x : CollabTaskRow A V D). x.id) rows r keys fresh,
    All-append IsNumbered rows (r ∷ []) ok
        (record { numbered = rw t tt; counted = rw (t, i) refl; last = rw (t, l) refl }, tt),
  )
  Written-IsKept auth (Written.updated {rows'} p f theirs keeps w) h =
      let (keys, ok) = Written-IsKept auth w h in
      (
        update_where-Distinct (λ (x : CollabTaskRow A V D). x.id) p f rows' keeps.id_kept keys,
        All-update_where IsNumbered p f rows'
            (λ r good _. Continues-IsNumbered r (f r) (keeps.continues r) good) ok,
      )
  Written-IsKept auth {rows} (Written.removed p theirs) (keys, ok) =
      (delete_where-Distinct p rows keys, All-delete_where IsNumbered p rows ok)

  -- After any run of requests of any users, the ids of the tasks are distinct, and in every task the
  -- turns are numbered 1, 2, 3 and so on, its iteration is their number, and its last actor is the
  -- one of the last turn.
  pub history-IsNumbered :
      (smd : V → Bool) {s : Collab A V D}
      → Run smd s
      → Distinct (λ (r : CollabTaskRow A V D). r.id) s.rows × All IsNumbered s.rows
  history-IsNumbered smd Run.start = (tt, tt)
  history-IsNumbered smd (Run.step {s} now auth q fits run) =
      Written-IsKept auth (handle-Written smd now auth q s fits) (history-IsNumbered smd run)
