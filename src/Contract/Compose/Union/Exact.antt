-- ===== src/Contract/Compose/Union/Exact.antt =====
-- The merge of two tables by key where only equal items combine (src/contract/compose.rs).
use parc.Prelude.{ℕ, ◌≡◌, ◌⊎◌, inl, inr, ◌↔◌, sym, ap, ◌∙◌, List, Option, none, some}
use parc.Contract.Checked.{Checked, ok, ok-injective, ok_inverts}
use parc.Contract.Compose.Union.{union, find}
use parc.Contract.Compose.Union.Tables.{Increasing}
use parc.Contract.Compose.Union.Pointwise.{join, union-Merged}

module _ {E A : Type 0} (key : A → ℕ) (combine : A → A → Checked E A)
    (exact : (x y c : A) → combine x y ≡ ok c → (x ≡ y) × (x ≡ c)) where
  exact-keeps : (x y c : A) → combine x y ≡ ok c → key c ≡ key x
  exact-keeps x y c h = ap key (sym (exact x y c h).1)

  -- What two options join to is what is in one of them.
  join-exact :
      (l r o : Option A)
      → join key combine l r ≡ ok o
      → (f : A) → (o ≡ some f) ↔ ((l ≡ some f) ⊎ (r ≡ some f))
  join-exact none r o h f =
      let e = ok-injective h in (λ p. inr (e ∙ p), λ c. elim c [ inl p ↦ cc | inr p ↦ sym e ∙ p ])
  join-exact (some x) none o h f =
      let e = ok-injective h in (λ p. inl (e ∙ p), λ c. elim c [ inl p ↦ sym e ∙ p | inr p ↦ cc ])
  join-exact (some x) (some y) o h f =
      let (c, p, q) = ok_inverts (combine x y) (λ c. ok (some c)) h in
      let (a, b) = exact x y c p in
      let e = ok-injective q in
      let g : some x ≡ o = cc (e, b) in
      (λ k. inl (g ∙ k), λ d. elim d [ inl k ↦ sym g ∙ k | inr k ↦ sym g ∙ cc (a, k) ])

  -- The merge holds exactly the items of the two tables.
  pub union-exact :
      (l r m : List A)
      → union key combine l r ≡ ok m
      → Increasing key l
      → Increasing key r
      → Increasing key m
        × ((k : ℕ) (x : A)
            → (find key k m ≡ some x) ↔ ((find key k l ≡ some x) ⊎ (find key k r ≡ some x)))
  union-exact l r m h il ir =
      let g = union-Merged key combine exact-keeps l r m h il ir in
      (g.order, λ k x. join-exact (find key k l) (find key k r) (find key k m) (g.held k) x)
