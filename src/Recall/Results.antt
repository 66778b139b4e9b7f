-- ===== src/Recall/Results.antt =====
-- What comes back from `bucketRecall`: the block of text for the model, and hints at conflicts.
use tallei_ai.Common.{
  text_eq, String, List, Bool, Option, ℕ, Text, AuthContext, codes, upper, false, none, some, ltb,
  map, if◌then◌else◌, dedupe, [], ◌∷◌, ◌++◌, str_eq, take, select_where, length, join,
}
use tallei_ai.Memory.{MemoryRecordRow}
use tallei_ai.Memory.Repository.{list_all, field}
use tallei_ai.Recall.{Double, BucketMemory}
use tallei_ai.Recall.Scores.{Tier, high, med, unconfirmed, confidence_tier}
use tallei_ai.Recall.Buckets.{bucket_memories}

pub record Ref : Type 0 where
  pub id : String
  pub content : Text
  pub platform : String

pub record ConflictHint : Type 0 where
  pub subject : Text
  pub platforms : List String
  pub refs : List Ref

abbrev pub nonempty : Option Text → Option Text
nonempty none = none
nonempty (some []) = none
nonempty (some (c ∷ cs)) = some (c ∷ cs)

abbrev pub is_subject : Text → Option Text → Bool
is_subject subject none = false
is_subject subject (some s) = text_eq s subject

abbrev pub tier_name : Tier → Text
tier_name high = codes "HIGH"
tier_name med = codes "MED"
tier_name unconfirmed = codes "UNCONFIRMED"

module _ {S : Type 0} where
  -- `subject`, where there is one and it is not empty
  unfoldable pub subject_of : BucketMemory S → Option Text
  unfolding field
  subject_of m = nonempty (field "subject" m.metadata.summary)

  abbrev pub about : Text → BucketMemory S → Bool
  about subject m = is_subject subject (subject_of m)

  unfoldable pub subjects : List (BucketMemory S) → List Text
  subjects [] = []
  subjects (m ∷ ms) = elim (subject_of m) [ none ↦ subjects ms | some s ↦ s ∷ subjects ms ]

  abbrev pub group_platforms : List (BucketMemory S) → List String
  group_platforms group = dedupe str_eq (map (λ m. m.metadata.platform) group)

  abbrev pub ref_of : BucketMemory S → Ref
  ref_of m = record { id = m.id; content = take 200 m.content; platform = m.metadata.platform }

  -- The groups, in the order in which their subjects came
  unfoldable pub hints_for : List (BucketMemory S) → List Text → List ConflictHint
  hints_for ms [] = []
  hints_for ms (s ∷ ss) =
      let group = select_where (about s) ms in
      let rest = hints_for ms ss in
      let hint : ConflictHint = record {
        subject = s;
        platforms = group_platforms group;
        refs = map ref_of group;
      } in
      if ltb (length group) 2
      then rest
      else if ltb (length (group_platforms group)) 2
      then rest
      else hint ∷ rest

  unfoldable pub detect_conflicts : List (BucketMemory S) → List ConflictHint
  unfolding subjects hints_for
  detect_conflicts ms = hints_for ms (dedupe text_eq (subjects ms))

  abbrev pub memory_line : BucketMemory S → Text
  unfolding confidence_tier
  memory_line m =
      b'['
      ∷ (map upper (codes m.metadata.platform)
          ++ b':'
            ∷ (tier_name (confidence_tier m.metadata.reference_count) ++ b']' ∷ b' ' ∷ m.content))

  unfoldable pub build_context_block : List (BucketMemory S) → Text
  build_context_block [] = codes "--- No relevant memories found ---"
  build_context_block (m ∷ ms) =
      codes "--- Your Past Context ---"
      ++ b'\n' ∷ (join (b'\n' ∷ []) (map memory_line (m ∷ ms)) ++ b'\n' ∷ codes "---")

pub record BucketRecallResult (S : Type 0) : Type 0 where
  pub context_block : Text
  pub memories : List (BucketMemory S)
  pub conflict_hints : List ConflictHint

unfoldable pub bucket_recall :
    {S : Type 0} ⦃d : Double S⦄ (now : ℕ)
    → (decrypt : String → Option Text) → (found_by : Text → Option (List String)) → (query : Text)
    → AuthContext
    → List MemoryRecordRow
    → BucketRecallResult S
bucket_recall now decrypt found_by query auth table =
    let memories = bucket_memories now decrypt found_by query (list_all auth table) in
    record {
      context_block = build_context_block memories;
      memories = memories;
      conflict_hints = detect_conflicts memories;
    }
