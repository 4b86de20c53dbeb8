-- ===== src/Contract/Complete/Closure.antt =====
-- The loop of `into_complete` of src/contract/complete.rs: without blockers, every need that was asked
-- for is fulfilled.
use parc.Prelude.{
  ℕ, zero, suc, ◌≤◌, ◌≡◌, inl, inr, refl, ap, subst, ◌∙◌, ◌&&◌, not, List, [], ◌∷◌, Option, some,
  arith, if_both,
}
use mathlib.Core.List.{Memᴰ}
use mathlib.Core.List.Memᴰ
use mathlib.Core.Option.{some-injective}
use parc.Contract.Selection.{DeclarationId, Selection}
use parc.Contract.Declarations.{SourceDeclaration}
use parc.Contract.Package.{declaration_in}
use parc.Contract.Complete.{current, visit_entry, next_round, visit_loop}
use parc.Contract.Complete.Visit.{is_opaque}
use parc.Contract.Complete.Visit.{Need, need_of, Walk}
use parc.Contract.Complete.Visit.Effect.{rank}
use parc.Contract.Complete.Rounds.{Inv, Fulfilled, visit_entry-Kept, visit_found-Visited}

module _ (ds : List SourceDeclaration) (selected : Selection) where
  -- All that a visit asked for is fulfilled, and no need of an earlier visit is lowered.
  abbrev pub Ended : Walk → Walk → Type 0
  Ended v w =
      (v.blockers ≡ [])
      × ((id : DeclarationId) (n : Need)
          → need_of w.required id ≡ some n
          → Fulfilled ds selected id n w)
      × ((x : DeclarationId) → rank (need_of v.required x) ≤ rank (need_of w.required x))

  visit_entry-earlier :
      (id : DeclarationId) (need : Need) (v : Walk)
      → (visit_entry ds selected id need v).blockers ≡ []
      → v.blockers ≡ []
  unfolding visit_entry
  visit_entry-earlier id need v =
      let now = current (need_of v.required id) need in
      if_both (λ (w : Walk). w.blockers ≡ [] → v.blockers ≡ [])
        (is_opaque need && not (is_opaque now)) (λ _ b. b)
        (λ _. (visit_found-Visited ds selected id need now (declaration_in ds id) v refl).earlier)

  next_round-earlier :
      (go_on : Walk → Option Walk) (v w : Walk) (q : List (DeclarationId × Need))
      → ((v' : Walk) → go_on v' ≡ some w → v'.blockers ≡ [])
      → next_round go_on (λ id need u. visit_entry ds selected id need u) v q ≡ some w
      → w.blockers ≡ []
      → v.blockers ≡ []
  next_round-earlier go_on v w [] again e b = ap (λ u. u.blockers) (some-injective v w e) ∙ b
  next_round-earlier go_on v w ((id, need) ∷ q) again e b =
      visit_entry-earlier id need (record v { queue = q })
        (again (visit_entry ds selected id need (record v { queue = q })) e)

  -- A loop that ends without blockers had none before.
  visit_loop-earlier :
      (f : ℕ) (v w : Walk) → visit_loop ds selected f v ≡ some w → w.blockers ≡ [] → v.blockers ≡ []
  unfolding visit_loop
  visit_loop-earlier zero v w e b = cc
  visit_loop-earlier (suc f) v w e b =
      next_round-earlier (visit_loop ds selected f) v w v.queue
        (λ v' e'. visit_loop-earlier f v' w e' b) e b

  empty-Ended : (v : Walk) → v.queue ≡ [] → Inv ds selected v → v.blockers ≡ [] → Ended v v
  empty-Ended v e i b = (
    b,
    (λ id n h. elim (i.done id n h) [
      | inl m ↦ absurd (Memᴰ.not-nil (subst (Memᴰ (id, n)) e m))
      | inr f ↦ f
    ]),
    λ x. omega arith,
  )

  next_round-Ended :
      (go_on : Walk → Option Walk) (v w : Walk) (q : List (DeclarationId × Need))
      → v.queue ≡ q
      → ((v' : Walk) → go_on v' ≡ some w → v'.blockers ≡ [])
      → ((v' : Walk) → go_on v' ≡ some w → Inv ds selected v' → Ended v' w)
      → next_round go_on (λ id need u. visit_entry ds selected id need u) v q ≡ some w
      → Inv ds selected v
      → w.blockers ≡ []
      → Ended v w
  next_round-Ended go_on v w [] eq silent again e i b =
      let same = some-injective v w e in
      subst (Ended v) same (empty-Ended v eq i (ap (λ u. u.blockers) same ∙ b))
  next_round-Ended go_on v w ((id, need) ∷ q) eq silent again e i b =
      let v' = visit_entry ds selected id need (record v { queue = q }) in
      let (b0, i', g) = visit_entry-Kept ds selected id need v q eq i (silent v' e) in
      let (_, f, h) = again v' e i' in
      (b0, f, λ x. (let l = g x in let r = h x in omega (arith, l, r)))

  -- A loop that ends without blockers leaves every need fulfilled.
  pub visit_loop-Ended :
      (f : ℕ) (v w : Walk)
      → visit_loop ds selected f v ≡ some w
      → Inv ds selected v
      → w.blockers ≡ []
      → Ended v w
  unfolding visit_loop
  visit_loop-Ended zero v w e i b = cc
  visit_loop-Ended (suc f) v w e i b =
      next_round-Ended (visit_loop ds selected f) v w v.queue refl
        (λ v' e'. visit_loop-earlier f v' w e' b) (λ v' e' i'. visit_loop-Ended f v' w e' i' b) e i
        b
