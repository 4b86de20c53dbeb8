-- ===== src/Contract/Complete/Walks.antt =====
-- What the steps of a visit keep true of the queue and of the needs (src/contract/complete.rs).
use parc.Prelude.{
  ◌≤◌, ◌<◌, ◌≡◌, ◌⊎◌, inl, inr, sym, ap, subst, ◌∙◌, [], ◌∷◌, some, arith, ◌==◌, ==_iff, Bool-cases,
}
use mathlib.Core.List.{Memᴰ}
use mathlib.Core.List.Memᴰ
use mathlib.Core.Option.{some-injective}
use parc.Contract.Selection.{DeclarationId}
use parc.Contract.Complete.Visit.{Need, need_of, set_need, Walk, push}
use parc.Contract.Complete.Visit.Effect.{
  rank, Wanted, Reached, Steps, nothing, pushed, reported, need_of-set_need,
}

-- What waits was asked for.
abbrev pub Queued : Walk → Type 0
Queued v = (x : DeclarationId) (n : Need) → Memᴰ (x, n) v.queue → Reached v x n

pub Steps-queue :
    {N : Wanted} {v w : Walk}
    → Steps N v w
    → (e : DeclarationId × Need) → Memᴰ e v.queue
    → Memᴰ e w.queue
Steps-queue nothing e m = m
Steps-queue (pushed {t = t} {m = k} s n lt) e m = Memᴰ.append_left ((t, k) ∷ []) (Steps-queue s e m)
Steps-queue (reported s) e m = Steps-queue s e m

push-Queued :
    (t : DeclarationId) (m : Need) (w : Walk)
    → rank (need_of w.required t) < rank (some m)
    → Queued w
    → Queued (push t m w)
push-Queued t m w lt q x n h = elim (Memᴰ.append_cases w.queue h) [
  | inl old ↦ let r = q x n old in ground (arith, need_of-set_need w.required t m x, r, ==_iff t x)
  | inr new ↦
      let e = Memᴰ.eq_of_singleton new in
      let same : need_of (set_need w.required t m) t ≡ some m =
        ground (arith, need_of-set_need w.required t m t) in
      subst (λ p. rank (some p.1) ≤ rank (need_of (set_need w.required t m) p.0)) (sym e)
        (omega (arith, ap rank same))
]

pub Steps-Queued : {N : Wanted} {v w : Walk} → Steps N v w → Queued v → Queued w
Steps-Queued nothing q = q
Steps-Queued (pushed {w} {t} {m} s n lt) q = push-Queued t m w lt (Steps-Queued s q)
Steps-Queued (reported s) q = Steps-Queued s q

-- A need that is new waits.
pub Steps-new :
    {N : Wanted} {v w : Walk}
    → Steps N v w
    → (x : DeclarationId) (n : Need) → need_of w.required x ≡ some n
    → (need_of v.required x ≡ some n) ⊎ Memᴰ (x, n) w.queue
Steps-new nothing x n h = inl h
Steps-new (pushed {w} {t} {m} s k lt) x n h = elim (Bool-cases (t == x)) [
  | inl e ↦
      let same : some m ≡ some n = rw e at (sym (need_of-set_need w.required t m x) ∙ h) in
      let eq : (x, n) ≡ (t, m) = cc ((==_iff t x).0 e, some-injective m n same) in
      inr (Memᴰ.append_right w.queue (Memᴰ.head eq))
  | inr e ↦
      let same : need_of w.required x ≡ some n =
        rw e at (sym (need_of-set_need w.required t m x) ∙ h) in
      elim (Steps-new s x n same) [
        | inl old ↦ inl old
        | inr q ↦ inr (Memᴰ.append_left ((t, m) ∷ []) q)
      ]
]
Steps-new (reported s) x n h = Steps-new s x n h
