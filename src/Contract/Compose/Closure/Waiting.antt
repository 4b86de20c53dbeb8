-- ===== src/Contract/Compose/Closure/Waiting.antt =====
-- What waits for the closure of src/contract/compose.rs: the references of the declarations that are
-- not retained yet, which bound its rounds.
use parc.Prelude.{
  ℕ, ◌+◌, ◌≤◌, ◌≡◌, ◌↔◌, inl, inr, refl, sym, ap, subst, true, false, List, [], ◌∷◌, ◌++◌, some,
  arith, ◌==◌, ==_iff, if◌then◌else◌, Bool-cases,
}
use parc.Prelude.Lists.{length}
use parc.Contract.Selection.{DeclarationId, member}
use parc.Contract.Declarations.{SourceDeclaration}
use parc.Contract.Package.{declaration_in}
use parc.Contract.Compose.Closure.{Queue, enqueue_all, reference_count}
use parc.Contract.Compose.Closure.Queue.{enqueue_all-Appends}
use parc.Contract.Compose.Closure.Refers.{Refers, enqueue_all-Refers}

-- What a declaration adds to an empty queue.
unfoldable pub references : SourceDeclaration → List DeclarationId
unfolding enqueue_all
references d = enqueue_all d []

pub enqueue_all-eq :
    (d : SourceDeclaration) (queue : Queue) → enqueue_all d queue ≡ queue ++ references d
unfolding references
enqueue_all-eq d queue = enqueue_all-Appends d queue

pub references-Refers :
    (d : SourceDeclaration) (id : DeclarationId) → (member (references d) id ≡ true) ↔ Refers d id
unfolding references
references-Refers d id = enqueue_all-Refers d id

-- The references of the declarations that are not in the set yet.
unfoldable pub waiting : List SourceDeclaration → List DeclarationId → ℕ
unfolding member references
waiting [] retained = 0
waiting (d ∷ ds) retained =
    (if member retained d.id then 0 else length (references d)) + waiting ds retained

pub waiting-start : (ds : List SourceDeclaration) → waiting ds [] ≡ reference_count ds
unfolding waiting reference_count references member
waiting-start [] = refl
waiting-start (d ∷ ds) = omega (arith, waiting-start ds)

pub waiting_le :
    (ds : List SourceDeclaration) (retained : List DeclarationId) (id : DeclarationId)
    → waiting ds (id ∷ retained) ≤ waiting ds retained
unfolding waiting member
waiting_le [] retained id = omega arith
waiting_le (d ∷ ds) retained id = ground (arith, waiting_le ds retained id)

pub waiting-declared :
    (ds : List SourceDeclaration) (retained : List DeclarationId) (id : DeclarationId)
    (d : SourceDeclaration)
    → member retained id ≡ false
    → declaration_in ds id ≡ some d
    → waiting ds (id ∷ retained) + length (references d) ≤ waiting ds retained
unfolding waiting member declaration_in
waiting-declared [] retained id d fresh h = cc
waiting-declared (x ∷ ds) retained id d fresh h = elim (Bool-cases (x.id == id)) [
  | inl e ↦
      let eq : x ≡ d = ground arith in
      let same : length (references x) ≡ length (references d) =
        ap (λ y. length (references y)) eq in
      let out : member retained x.id ≡ false =
        subst (λ y. member retained y ≡ false) (sym ((==_iff x.id id).0 e)) fresh in
      ground (arith, same, out, waiting_le ds retained id)
  | inr e ↦
      let rest : declaration_in ds id ≡ some d = ground arith in
      ground (arith, waiting-declared ds retained id d fresh rest)
]
