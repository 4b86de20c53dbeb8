-- ===== src/Contract/Complete/Blockers.antt =====
-- How `into_complete` of src/contract/complete.rs lists its blockers.
use parc.Prelude.{List, [], ◌∷◌, if◌then◌else◌}
use Prim.Native.Nat.{Ordering}
use parc.Prelude.Order.{same}
use parc.Prelude.Text.{Text}
use parc.Contract.Compose.Reason.{compare_text}
use parc.Contract.Complete.Visit.{CompletionBlocker}
use parc.Contract.Complete.Equal.{CompletionBlocker-discrete}

-- `sort_by_key`, which is stable, by the texts of the blockers.
module _ (display : CompletionBlocker → Text) where
  unfoldable pub insert_blocker :
      CompletionBlocker → List CompletionBlocker → List CompletionBlocker
  insert_blocker b [] = b ∷ []
  insert_blocker b (c ∷ cs) =
      let rest = insert_blocker b cs in
      elim (compare_text (display b) (display c)) [ Ordering.gt ↦ c ∷ rest | _ ↦ b ∷ c ∷ cs ]

  unfoldable pub sort_blockers : List CompletionBlocker → List CompletionBlocker
  unfolding insert_blocker
  sort_blockers [] = []
  sort_blockers (b ∷ bs) = insert_blocker b (sort_blockers bs)

-- `dedup`, behind an element that was kept.
unfoldable pub dedup_after : CompletionBlocker → List CompletionBlocker → List CompletionBlocker
dedup_after b [] = []
dedup_after b (c ∷ cs) =
    let again = dedup_after b cs in
    let other = c ∷ dedup_after c cs in if same CompletionBlocker-discrete b c then again else other

unfoldable pub dedup : List CompletionBlocker → List CompletionBlocker
unfolding dedup_after
dedup [] = []
dedup (b ∷ bs) = b ∷ dedup_after b bs
