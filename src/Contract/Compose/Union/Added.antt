-- ===== src/Contract/Compose/Union/Added.antt =====
-- One step of a merge of src/contract/compose.rs: an item comes to a table.
use parc.Prelude.{
  ℕ, ◌<◌, ◌≡◌, ◌≢◌, inl, inr, refl, sym, subst, ◌∙◌, List, [], ◌∷◌, Option, none, some, arith, ltb,
  ◌==◌, ==_iff, ltb_iff, Bool-cases,
}
use parc.Prelude.Lists.{All}
use parc.Contract.Checked.{Checked, ok, err, ok-injective, ok_inverts, err_inverts}
use parc.Contract.Compose.Union.{add, find}
use parc.Contract.Compose.Union.Tables.{Increasing, find-below, All-below, find-there}

module _ {E A : Type 0} (key : A → ℕ) (combine : A → A → Checked E A) where
  -- What is held after an item came to what was held.
  abbrev pub held_after : Option A → A → Checked E A
  held_after none x = ok x
  held_after (some y) x = combine y x

  -- An item that was added is held, combined with what was there, and nothing else changes.
  pub record Added (x : A) (before after : List A) : Type 0 where
    pub order : Increasing key after
    pub lower : (j : ℕ) → j < key x → All (λ y. j < key y) before → All (λ y. j < key y) after
    pub held :
        (c : A) × (held_after (find key (key x) before) x ≡ ok c)
        × (find key (key x) after ≡ some c)
    pub others : (k : ℕ) → key x ≢ k → find key k after ≡ find key k before

module _ {E A : Type 0} (key : A → ℕ) (combine : A → A → Checked E A)
    (keeps : (x y c : A) → combine x y ≡ ok c → key c ≡ key x) where
  Added-before :
      (x y : A) (ys : List A)
      → key x < key y
      → Increasing key (y ∷ ys)
      → Added key combine x (y ∷ ys) (x ∷ y ∷ ys)
  unfolding find Increasing
  Added-before x y ys lt inc = record {
    order = ((lt, All-below key (key x) (key y) ys lt inc.0), inc);
    lower = λ j l h. (l, h);
    held = (
      x,
      (unfold find in
          ground (arith, find-below key (key x) ys (All-below key (key x) (key y) ys lt inc.0))),
      (unfold find in ground arith),
    );
    others = λ k n. (unfold find in ground arith);
  }

  Added-equal :
      (x y c : A) (ys : List A)
      → key x ≡ key y
      → combine y x ≡ ok c
      → Increasing key (y ∷ ys)
      → Added key combine x (y ∷ ys) (c ∷ ys)
  unfolding find Increasing
  Added-equal x y c ys e h inc =
      let same = keeps y x c h in
      record {
        order = (subst (λ k. All (λ z. k < key z) ys) (sym same) inc.0, inc.1);
        lower = λ j l a. (omega arith, a.1);
        held = (c, (unfold find in ground arith), (unfold find in ground arith));
        others = λ k n. (unfold find in ground arith);
      }

  Added-after :
      (x y : A) (ys zs : List A)
      → key y < key x
      → Increasing key (y ∷ ys)
      → Added key combine x ys zs
      → Added key combine x (y ∷ ys) (y ∷ zs)
  unfolding find Increasing
  Added-after x y ys zs lt inc a = record {
    order = (a.lower (key y) lt inc.0, a.order);
    lower = λ j l h. (h.0, a.lower j l h.1);
    held =
        let (c, p, q) = a.held in (c, (unfold find in ground arith), (unfold find in ground arith));
    others = λ k n. (unfold find in ground (arith, a.others k n));
  }

  Added-alone : (x : A) → Added key combine x [] (x ∷ [])
  unfolding find Increasing
  Added-alone x = record {
    order = (tt, tt);
    lower = λ j l h. (l, tt);
    held = (x, refl, (unfold find in ground arith));
    others = λ k n. (unfold find in ground arith);
  }

  pub add-Added :
      (x : A) (ys zs : List A)
      → add key combine x ys ≡ ok zs
      → Increasing key ys
      → Added key combine x ys zs
  unfolding add
  add-Added x [] zs h inc = subst (Added key combine x []) (ok-injective h) (Added-alone x)
  add-Added x (y ∷ ys) zs h inc = elim (Bool-cases (ltb (key x) (key y))) [
    | inl lt ↦
        subst (Added key combine x (y ∷ ys)) (ground arith)
          (Added-before x y ys ((ltb_iff (key x) (key y)).0 lt) inc)
    | inr ge ↦ elim (Bool-cases (key x == key y)) [
      | inl e ↦
          let (c, p, q) = ok_inverts (combine y x) (λ c. ok (c ∷ ys)) (ground arith) in
          subst (Added key combine x (y ∷ ys)) (ok-injective q)
            (Added-equal x y c ys ((==_iff (key x) (key y)).0 e) p inc)
      | inr n ↦
          let (zs', p, q) =
            ok_inverts (add key combine x ys) (λ zs'. ok (y ∷ zs')) (ground arith) in
          subst (Added key combine x (y ∷ ys)) (ok-injective q) (
            Added-after x y ys zs' (ground arith) inc
              (add-Added x ys zs' p (unfold Increasing in inc.1)))
    ]
  ]

  -- An item that could not be added is in conflict with the one under its key.
  pub add-err :
      (x : A) (ys : List A) (e : E)
      → add key combine x ys ≡ err e
      → Increasing key ys
      → (y : A) × (find key (key x) ys ≡ some y) × (combine y x ≡ err e)
  unfolding add
  add-err x [] e h inc = cc
  add-err x (y ∷ ys) e h inc = elim (Bool-cases (ltb (key x) (key y))) [
    | inl lt ↦ let impossible : ok (x ∷ y ∷ ys) ≡ err e = ground arith in cc
    | inr ge ↦ elim (Bool-cases (key x == key y)) [
      | inl same ↦ elim (err_inverts (combine y x) (λ c. ok (c ∷ ys)) (ground arith)) [
        | inl p ↦ (y, (unfold find in ground arith), p)
        | inr (c, p, q) ↦ cc
      ]
      | inr n ↦ elim (err_inverts (add key combine x ys) (λ zs. ok (y ∷ zs)) (ground arith)) [
        | inl p ↦
            let (z, f, c) = add-err x ys e p (unfold Increasing in inc.1) in
            (z, find-there key (key x) y ys (ground arith) ∙ f, c)
        | inr (zs, p, q) ↦ cc
      ]
    ]
  ]
