-- ===== src/Contract/Complete/Visit/Effect.antt =====
-- What a part of the visit of a declaration does (src/contract/complete.rs): it asks for needs and
-- reports blockers, and undoes nothing.
use parc.Prelude.{
  ℕ, ◌≤◌, ◌<◌, ◌≡◌, ◌⊎◌, inl, inr, ◌↔◌, refl, sym, ap, subst, ◌∙◌, List, [], ◌∷◌, ◌++◌, Option,
  none, some, arith, ◌==◌, if◌then◌else◌, append-nil, append_assoc,
}
use parc.Contract.Selection.{DeclarationId}
use parc.Contract.Complete.Visit.{
  Need, opaque_sufficient, definition, NeedMap, need_of, set_need, Walk, push, enqueue_at, enqueue,
  CompletionBlocker,
}

abbrev pub rank : Option Need → ℕ
rank none = 0
rank (some opaque_sufficient) = 1
rank (some definition) = 2

abbrev pub Wanted : Type 1
Wanted = DeclarationId → Need → Type 0

-- The need of a declaration is at least the given one.
abbrev pub Reached : Walk → DeclarationId → Need → Type 0
Reached v t m = rank (some m) ≤ rank (need_of v.required t)

pub need_of-set_need :
    (r : NeedMap) (t : DeclarationId) (m : Need) (x : DeclarationId)
    → need_of (set_need r t m) x ≡ (if t == x then some m else need_of r x)
unfolding need_of set_need
need_of-set_need [] t m x = refl
need_of-set_need ((y, n) ∷ rest) t m x = ground (arith, need_of-set_need rest t m x)

-- Needs that are wanted and were not met, and changes of the blockers.
pub data Steps (N : Wanted) (v : Walk) : Walk → Type 0 where
  nothing : Steps N v v
  pushed :
      {w : Walk} {t : DeclarationId} {m : Need}
      → Steps N v w
      → N t m
      → rank (need_of w.required t) < rank (some m)
      → Steps N v (push t m w)
  reported :
      {w : Walk} {bs : List CompletionBlocker}
      → Steps N v w
      → Steps N v (record w { blockers = bs })

pub Steps-weaken :
    {M N : Wanted} {v w : Walk}
    → ((t : DeclarationId) (m : Need) → M t m → N t m)
    → Steps M v w
    → Steps N v w
Steps-weaken h nothing = nothing
Steps-weaken h (pushed {t = t} {m = m} s n lt) = pushed (Steps-weaken h s) (h t m n) lt
Steps-weaken h (reported s) = reported (Steps-weaken h s)

pub Steps-trans : {N : Wanted} {u v w : Walk} → Steps N u v → Steps N v w → Steps N u w
Steps-trans a nothing = a
Steps-trans a (pushed s n lt) = pushed (Steps-trans a s) n lt
Steps-trans a (reported s) = reported (Steps-trans a s)

-- No need is lowered.
pub Steps-rank :
    {N : Wanted} {v w : Walk}
    → Steps N v w
    → (x : DeclarationId) → rank (need_of v.required x) ≤ rank (need_of w.required x)
Steps-rank nothing x = omega arith
Steps-rank (pushed {w} {t} {m} s n lt) x =
    ground (arith, need_of-set_need w.required t m x, Steps-rank s x)
Steps-rank (reported s) x = Steps-rank s x

-- A part that asks for the needs `N`, and reports nothing exactly if `P` holds.
pub record Effect (g : Walk → Walk) (P : Type 0) (N : Wanted) : Type 1 where
  pub steps : (v : Walk) → Steps N v (g v)
  pub reaches : (v : Walk) (t : DeclarationId) (m : Need) → N t m → Reached (g v) t m
  pub reports :
      (v : Walk)
      → (bs : List CompletionBlocker) × ((g v).blockers ≡ v.blockers ++ bs) × ((bs ≡ []) ↔ P)

abbrev pub no_wants : Wanted
no_wants t m = ⊥

abbrev pub wants : DeclarationId → Need → Wanted
wants x n t m = (x ≡ t) × (n ≡ m)

abbrev pub both : Wanted → Wanted → Wanted
both M N t m = M t m ⊎ N t m

pub Effect-id : Effect (λ v. v) Unit no_wants
Effect-id = record {
  steps = λ v. nothing;
  reaches = λ v t m n. absurd n;
  reports = λ v. ([], sym (append-nil v.blockers), ((λ _. tt), (λ _. refl)));
}

pub Effect-block :
    (b : CompletionBlocker) → Effect (λ v. record v { blockers = v.blockers ++ b ∷ [] }) ⊥ no_wants
Effect-block b = record {
  steps = λ v. reported nothing;
  reaches = λ v t m n. absurd n;
  reports = λ v. (b ∷ [], refl, ((λ e. cc), (λ f. absurd f)));
}

both_nil : {A : Type 0} (xs ys : List A) → (xs ++ ys ≡ []) ↔ ((xs ≡ []) × (ys ≡ []))
both_nil [] ys = (λ e. (refl, e), λ p. p.1)
both_nil (x ∷ xs) ys = (λ e. cc, λ p. cc)

pub Effect-then :
    {f g : Walk → Walk} {P Q : Type 0} {M N : Wanted}
    → Effect f P M
    → Effect g Q N
    → Effect (λ v. g (f v)) (P × Q) (both M N)
Effect-then {f} {g} a b = record {
  steps = λ v.
      Steps-trans (Steps-weaken (λ t m n. inl n) (a.steps v))
        (Steps-weaken (λ t m n. inr n) (b.steps (f v)));
  reaches = λ v t m n. elim n [
    | inl p ↦
        let r = a.reaches v t m p in let s = Steps-rank (b.steps (f v)) t in omega (arith, r, s)
    | inr q ↦ b.reaches (f v) t m q
  ];
  reports = λ v.
      let (xs, p, i) = a.reports v in
      let (ys, q, j) = b.reports (f v) in
      let k = both_nil xs ys in
      (
        xs ++ ys,
        q ∙ ap (λ z. z ++ ys) p ∙ append_assoc v.blockers xs ys,
        (λ e. (i.0 (k.0 e).0, j.0 (k.0 e).1), λ e. k.1 (i.1 e.0, j.1 e.1)),
      );
}

-- What asking for one need does.
abbrev Asked : DeclarationId → Need → Walk → Walk → Type 0
Asked t m v w =
    Steps (wants t m) v w
    × (rank (some m) ≤ rank (need_of w.required t))
    × (w.blockers ≡ v.blockers)

push-Asked :
    (t : DeclarationId) (m : Need) (v : Walk)
    → rank (need_of v.required t) < rank (some m)
    → Asked t m v (push t m v)
push-Asked t m v lt =
    (pushed nothing (refl, refl) lt, ground (arith, need_of-set_need v.required t m t), refl)

enqueue_at-Asked :
    (o : Option Need) (t : DeclarationId) (m : Need) (v : Walk)
    → need_of v.required t ≡ o
    → Asked t m v (enqueue_at o t m v)
enqueue_at-Asked none t opaque_sufficient v e =
    push-Asked t opaque_sufficient v (omega (arith, ap rank e))
enqueue_at-Asked none t definition v e = push-Asked t definition v (omega (arith, ap rank e))
enqueue_at-Asked (some opaque_sufficient) t opaque_sufficient v e =
    (nothing, omega (arith, ap rank e), refl)
enqueue_at-Asked (some opaque_sufficient) t definition v e =
    push-Asked t definition v (omega (arith, ap rank e))
enqueue_at-Asked (some definition) t opaque_sufficient v e =
    (nothing, omega (arith, ap rank e), refl)
enqueue_at-Asked (some definition) t definition v e = (nothing, omega (arith, ap rank e), refl)

pub Effect-enqueue : (t : DeclarationId) (m : Need) → Effect (enqueue t m) Unit (wants t m)
unfolding enqueue
Effect-enqueue t m = record {
  steps = λ v. (asked v).0;
  reaches = λ v x n p.
      subst (λ y. rank (some n) ≤ rank (need_of (enqueue t m v).required y)) p.0
        (subst (λ k. rank (some k) ≤ rank (need_of (enqueue t m v).required t)) p.1 (asked v).1);
  reports = λ v. ([], (asked v).2 ∙ sym (append-nil v.blockers), ((λ _. tt), (λ _. refl)));
}
  where
    asked : (v : Walk) → Asked t m v (enqueue t m v)
    asked v = unfold enqueue in enqueue_at-Asked (need_of v.required t) t m v refl

-- The same part, described in other words.
pub Effect-as :
    {g : Walk → Walk} {P Q : Type 0} {M N : Wanted}
    → (P ↔ Q)
    → ((t : DeclarationId) (m : Need) → M t m ↔ N t m)
    → Effect g P M
    → Effect g Q N
Effect-as i j e = record {
  steps = λ v. Steps-weaken (λ t m. (j t m).0) (e.steps v);
  reaches = λ v t m n. e.reaches v t m ((j t m).1 n);
  reports = λ v. let (bs, p, k) = e.reports v in (bs, p, (λ x. i.0 (k.0 x), λ y. k.1 (i.1 y)));
}
