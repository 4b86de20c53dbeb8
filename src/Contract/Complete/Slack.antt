-- ===== src/Contract/Complete/Slack.antt =====
-- How often declarations may still be asked for (src/contract/complete.rs).
use parc.Prelude.{
  ℕ, suc, ◌+◌, ◌-◌, ◌≤◌, ◌<◌, ◌≡◌, inl, inr, sym, ap, subst, true, List, [], ◌∷◌, Option, none,
  some, arith, ◌==◌, ==_iff, Bool-cases,
}
use parc.Prelude.Lists.{length, length-append}
use parc.Contract.Selection.{DeclarationId, member}
use parc.Contract.Complete.Visit.{
  Need, opaque_sufficient, definition, NeedMap, need_of, set_need, Walk,
}
use parc.Contract.Complete.Visit.Effect.{
  rank, Wanted, Steps, nothing, pushed, reported, need_of-set_need,
}

-- How often the identifiers may still be asked for.
unfoldable pub slack : List DeclarationId → NeedMap → ℕ
unfolding need_of
slack [] r = 0
slack (u ∷ us) r = (2 - rank (need_of r u)) + slack us r

pub rank_le : (o : Option Need) → rank o ≤ 2
rank_le none = omega arith
rank_le (some opaque_sufficient) = omega arith
rank_le (some definition) = omega arith

need_rises :
    (r : NeedMap) (t : DeclarationId) (m : Need) (u : DeclarationId)
    → rank (need_of r t) < rank (some m)
    → rank (need_of r u) ≤ rank (need_of (set_need r t m) u)
need_rises r t m u lt = ground (arith, need_of-set_need r t m u, ==_iff t u)

need_met :
    (r : NeedMap) (t : DeclarationId) (m : Need) (u : DeclarationId)
    → u ≡ t
    → rank (need_of r t) < rank (some m)
    → suc (2 - rank (need_of (set_need r t m) u)) ≤ 2 - rank (need_of r u)
need_met r t m u e lt =
    let same : need_of (set_need r t m) t ≡ some m = ground (arith, need_of-set_need r t m t) in
    let top = rank_le (some m) in
    subst (λ x. suc (2 - rank (need_of (set_need r t m) x)) ≤ 2 - rank (need_of r x)) (sym e)
      (omega (arith, ap rank same, top))

slack-set_need_le :
    (us : List DeclarationId) (r : NeedMap) (t : DeclarationId) (m : Need)
    → rank (need_of r t) < rank (some m)
    → slack us (set_need r t m) ≤ slack us r
unfolding slack
slack-set_need_le [] r t m lt = omega arith
slack-set_need_le (u ∷ us) r t m lt =
    (let a = need_rises r t m u lt in let b = slack-set_need_le us r t m lt in omega (arith, a, b))

slack-set_need :
    (us : List DeclarationId) (r : NeedMap) (t : DeclarationId) (m : Need)
    → member us t ≡ true
    → rank (need_of r t) < rank (some m)
    → suc (slack us (set_need r t m)) ≤ slack us r
unfolding slack member
slack-set_need [] r t m h lt = cc
slack-set_need (u ∷ us) r t m h lt = elim (Bool-cases (u == t)) [
  | inl e ↦
      let a = need_met r t m u ((==_iff u t).0 e) lt in
      let b = slack-set_need_le us r t m lt in omega (arith, a, b)
  | inr e ↦
      let a = need_rises r t m u lt in
      let b = slack-set_need us r t m (ground arith) lt in omega (arith, a, b)
]

-- A visit that asks for identifiers of a list uses up their slack.
pub Steps-slack :
    {N : Wanted} {v w : Walk} (us : List DeclarationId)
    → ((t : DeclarationId) (m : Need) → N t m → member us t ≡ true)
    → Steps N v w
    → length w.queue + slack us w.required ≤ length v.queue + slack us v.required
Steps-slack us h nothing = omega arith
Steps-slack us h (pushed {w} {t} {m} s n lt) =
    let a = Steps-slack us h s in
    let b = slack-set_need us w.required t m (h t m n) lt in
    let c = length-append w.queue ((t, m) ∷ []) in omega (arith, a, b, c)
Steps-slack us h (reported s) = Steps-slack us h s
