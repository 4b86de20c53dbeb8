-- ===== src/Contract/Compose/Union/Pointwise.antt =====
-- The merge of two tables by key (src/contract/compose.rs), key by key.
use parc.Prelude.{
  ℕ, ◌≡◌, inl, inr, refl, sym, ap, subst, ◌∙◌, List, [], ◌∷◌, ◌++◌, Option, none, some, arith, ◌==◌,
  ==_iff, Bool-cases,
}
use parc.Contract.Checked.{Checked, ok, err, ◌>>=◌, ok-injective, ok_inverts, err_inverts}
use parc.Contract.Compose.Union.{add, add_all, union, find}
use parc.Contract.Compose.Union.Tables.{Increasing, find-below, find-here, find-there, extensional}
use parc.Contract.Compose.Union.Added.{held_after, Added, add-Added, add-err}

module _ {E A : Type 0} (key : A → ℕ) (combine : A → A → Checked E A) where
  -- What is held after two tables were merged.
  abbrev pub join : Option A → Option A → Checked E (Option A)
  join none r = ok r
  join (some x) none = ok (some x)
  join (some x) (some y) = combine x y >>= λ c. ok (some c)

  -- After a merge, each key holds what the two tables join to.
  pub record Merged (left right out : List A) : Type 0 where
    pub order : Increasing key out
    pub held : (k : ℕ) → join (find key k left) (find key k right) ≡ ok (find key k out)

  join-some :
      (o : Option A) (x : A) → join o (some x) ≡ (held_after key combine o x >>= λ c. ok (some c))
  join-some none x = refl
  join-some (some y) x = refl

  join-none : (o : Option A) → join o none ≡ ok o
  join-none none = refl
  join-none (some y) = refl

  -- A merge that fails was between two items of one key that do not combine.
  abbrev pub Conflict : List A → List A → E → Type 0
  Conflict left right e =
      (k : ℕ) × (x y : A) × (find key k left ≡ some x)
      × (find key k right ≡ some y)
      × (combine x y ≡ err e)

module _ {E A : Type 0} (key : A → ℕ) (combine : A → A → Checked E A)
    (keeps : (x y c : A) → combine x y ≡ ok c → key c ≡ key x) where
  Merged-cons :
      (x : A) (xs left left' out : List A)
      → Increasing key (x ∷ xs)
      → Added key combine x left left'
      → Merged key combine left' xs out
      → Merged key combine left (x ∷ xs) out
  unfolding Increasing
  Merged-cons x xs left left' out inc a m = record {
    order = m.order;
    held = λ k. elim (Bool-cases (key x == k)) [
      | inl e ↦ let same = (==_iff (key x) k).0 e in subst At same at_key
      | inr e ↦ rw (find-there key k x xs (ground arith), sym (a.others k (ground arith)), m.held k)
    ];
  }
    where
      At : ℕ → Type 0
      At k = join key combine (find key k left) (find key k (x ∷ xs)) ≡ ok (find key k out)

      at_key : At (key x)
      at_key =
          let (c, p, q) = a.held in
          let empty = find-below key (key x) xs inc.0 in
          let r : Path (Checked E (Option A)) (ok (some c)) (ok (find key (key x) out)) =
            cc (m.held (key x), q, empty, join-none key combine (some c)) in
          rw
            (find-here key (key x) x xs refl, join-some key combine (find key (key x) left) x, p, r)

  add_all-Merged :
      (left right out : List A)
      → add_all key combine left right ≡ ok out
      → Increasing key left
      → Increasing key right
      → Merged key combine left right out
  unfolding add_all
  add_all-Merged left [] out h il ir =
      subst (Merged key combine left []) (ok-injective h)
        (record { order = il; held = λ k. unfold find in join-none key combine (find key k left) })
  add_all-Merged left (x ∷ xs) out h il ir =
      let (left', p, q) = ok_inverts (add key combine x left) (λ l. add_all key combine l xs) h in
      let a = add-Added key combine keeps x left left' p il in
      Merged-cons x xs left left' out ir a
        (add_all-Merged left' xs out q a.order (unfold Increasing in ir.1))

  add_all-err :
      (left right : List A) (e : E)
      → add_all key combine left right ≡ err e
      → Increasing key left
      → Increasing key right
      → Conflict key combine left right e
  unfolding add_all
  add_all-err left [] e h il ir = cc
  add_all-err left (x ∷ xs) e h il ir =
      elim (err_inverts (add key combine x left) (λ l. add_all key combine l xs) h) [
        | inl p ↦
            let (y, f, c) = add-err key combine keeps x left e p il in
            (key x, y, x, f, find-here key (key x) x xs refl, c)
        | inr (left', p, q) ↦
            let a = add-Added key combine keeps x left left' p il in
            later left' a (add_all-err left' xs e q a.order (unfold Increasing in ir.1))
      ]
    where
      later :
          (left' : List A)
          → Added key combine x left left'
          → Conflict key combine left' xs e
          → Conflict key combine left (x ∷ xs) e
      later left' a (k, u, v, f, g, c) = elim (Bool-cases (key x == k)) [
        | inl same ↦
            cc (find-below key (key x) xs (unfold Increasing in ir.0), g, (==_iff (key x) k).0 same)
        | inr other ↦ (
          k,
          u,
          v,
          sym (a.others k (ground arith)) ∙ f,
          find-there key k x xs (ground arith) ∙ g,
          c,
        )
      ]

  add_all-append :
      (m xs ys : List A)
      → add_all key combine m (xs ++ ys)
        ≡ (add_all key combine m xs >>= λ m'. add_all key combine m' ys)
  unfolding add_all
  add_all-append m [] ys = refl
  add_all-append m (x ∷ xs) ys = by_first (add key combine x m) (λ m'. add_all-append m' xs ys)
    where
      by_first :
          (r : Checked E (List A))
          → ((m' : List A)
              → add_all key combine m' (xs ++ ys)
                ≡ (add_all key combine m' xs >>= λ m''. add_all key combine m'' ys))
          → (r >>= λ m'. add_all key combine m' (xs ++ ys))
            ≡ (r >>= (λ m'. add_all key combine m' xs) >>= λ m''. add_all key combine m'' ys)
      by_first (ok m') ih = ih m'
      by_first (err e) ih = refl

  empty-Conflict : (right : List A) (e : E) → ¬ Conflict key combine [] right e
  unfolding find
  empty-Conflict right e (k, x, y, f, g, c) = cc

  empty-Merged :
      (left out : List A) → Merged key combine [] left out → Increasing key left → out ≡ left
  unfolding find
  empty-Merged left out m il =
      extensional key out left m.order il (λ k. sym (ok-injective (m.held k)))

  -- The first table goes into the map as it is.
  add_all_self : (left : List A) → Increasing key left → add_all key combine [] left ≡ ok left
  add_all_self left il = by_result (add_all key combine [] left) refl
    where
      by_result : (r : Checked E (List A)) → add_all key combine [] left ≡ r → r ≡ ok left
      by_result (err e) h =
          absurd (empty-Conflict left e (add_all-err [] left e h (unfold Increasing in tt) il))
      by_result (ok out) h =
          ap ok
            (empty-Merged left out (add_all-Merged [] left out h (unfold Increasing in tt) il) il)

  union-add_all :
      (left right : List A)
      → Increasing key left
      → union key combine left right ≡ add_all key combine left right
  unfolding union
  union-add_all left right il = rw (add_all-append [] left right, add_all_self left il)

  -- The merge of two tables is a table that holds under each key what they join to there.
  pub union-Merged :
      (left right out : List A)
      → union key combine left right ≡ ok out
      → Increasing key left
      → Increasing key right
      → Merged key combine left right out
  union-Merged left right out h il ir =
      add_all-Merged left right out (sym (union-add_all left right il) ∙ h) il ir

  -- It fails only at a conflict.
  pub union-err :
      (left right : List A) (e : E)
      → union key combine left right ≡ err e
      → Increasing key left
      → Increasing key right
      → Conflict key combine left right e
  union-err left right e h il ir =
      add_all-err left right e (sym (union-add_all left right il) ∙ h) il ir
