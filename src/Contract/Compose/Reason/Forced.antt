-- ===== src/Contract/Compose/Reason/Forced.antt =====
-- What `completeness_from_diagnostics` of src/contract/compose.rs reports.
use Prim.Native.Nat.{compare}
use parc.Prelude.{
  ◌≡◌, ◌≢◌, ◌⊎◌, inl, inr, ◌↔◌, refl, sym, ap, subst, ◌∙◌, Bool, true, false, List, [], ◌∷◌,
  if◌then◌else◌, Bool-cases,
}
use mathlib.Core.List.{Memᴰ}
use mathlib.Core.List.Memᴰ
use parc.Prelude.Lists.{any}
use parc.Prelude.Order.{then_with, compare_option, to_set}
use parc.Prelude.Order.Sets.{
  Separates, then_with_eq, compare-Separates, compare_list-Separates, compare_option-Separates,
  Mem-to_set, Mem-cons,
}
use parc.Contract.Diagnostics.{
  SourceDiagnostic, DiagnosticCompletenessImpact, CompletenessReason, Completeness, complete,
  partial, rejected,
}
use parc.Contract.Compose.Reason.{
  compare_text, compare_range, compare_reason, is_forcing, forces_rejection, reason_of,
  forcing_reasons, verdict, completeness_from_diagnostics,
}

compare_range-Separates : Separates compare_range
compare_range-Separates a b h =
    let (f, rest) =
      then_with_eq (compare a.file b.file)
        (then_with (compare a.start b.start) (compare a.end b.end)) h in
    let (s, e) = then_with_eq (compare a.start b.start) (compare a.end b.end) rest in
    λ i. record {
      file = compare-Separates a.file b.file f i;
      start = compare-Separates a.start b.start s i;
      end = compare-Separates a.end b.end e i;
    }

compare_reason-Separates : Separates compare_reason
compare_reason-Separates a b h =
    let texts = compare_list-Separates compare compare-Separates in
    let (c, rest) =
      then_with_eq (compare_text a.code b.code)
        (then_with (compare_text a.message b.message)
          (compare_option compare_range a.range b.range))
        h in
    let (m, r) =
      then_with_eq (compare_text a.message b.message) (compare_option compare_range a.range b.range)
        rest in
    λ i. record {
      code = texts a.code b.code c i;
      message = texts a.message b.message m i;
      range = compare_option-Separates compare_range compare_range-Separates a.range b.range r i;
    }

abbrev pub reasons_in : Completeness → List CompletenessReason
reasons_in complete = []
reasons_in (partial rs) = rs
reasons_in (rejected rs) = rs

-- A diagnostic that the list has, that does not leave the package complete, and its reason.
abbrev pub Forces : List SourceDiagnostic → CompletenessReason → Type 0
Forces ds r =
    (d : SourceDiagnostic) × Memᴰ d ds
    × (d.completeness_impact ≢ DiagnosticCompletenessImpact.informational)
    × (reason_of d ≡ r)

-- Whether a diagnostic rejects.
abbrev pub Rejects : List SourceDiagnostic → Type 0
Rejects ds =
    (d : SourceDiagnostic) × Memᴰ d ds
    × (d.completeness_impact ≡ DiagnosticCompletenessImpact.forces_rejected)

is_forcing_iff :
    (i : DiagnosticCompletenessImpact)
    → (is_forcing i ≡ true) ↔ (i ≢ DiagnosticCompletenessImpact.informational)
is_forcing_iff DiagnosticCompletenessImpact.informational = (λ h. cc, λ n. absurd (n refl))
is_forcing_iff DiagnosticCompletenessImpact.forces_partial = (λ h. cc, λ n. refl)
is_forcing_iff DiagnosticCompletenessImpact.forces_rejected = (λ h. cc, λ n. refl)

abbrev Informs : SourceDiagnostic → Type 0
Informs d = d.completeness_impact ≡ DiagnosticCompletenessImpact.informational

Forces-cons :
    (d : SourceDiagnostic) (ds : List SourceDiagnostic) (r : CompletenessReason)
    → Forces (d ∷ ds) r ↔ (((¬ Informs d) × (reason_of d ≡ r)) ⊎ Forces ds r)
Forces-cons d ds r = (
  λ (x, m, n, e). elim (Memᴰ.cases_cons m) [
    | inl p ↦ inl (subst (λ y. (¬ Informs y) × (reason_of y ≡ r)) p (n, e))
    | inr t ↦ inr (x, t, n, e)
  ],
  λ c. elim c [
    | inl (n, e) ↦ (d, Memᴰ.head refl, n, e)
    | inr (x, m, n, e) ↦ (x, Memᴰ.tail m, n, e)
  ],
)

forcing_reasons-Forces :
    (ds : List SourceDiagnostic) (r : CompletenessReason)
    → Memᴰ r (forcing_reasons ds) ↔ Forces ds r
unfolding forcing_reasons
forcing_reasons-Forces [] r =
    (λ m. absurd (Memᴰ.not-nil m), λ (d, m, _, _). absurd (Memᴰ.not-nil m))
forcing_reasons-Forces (d ∷ ds) r =
    by_impact (Bool-cases (is_forcing d.completeness_impact)) (forcing_reasons-Forces ds r)
  where
    by_impact :
        (is_forcing d.completeness_impact ≡ true) ⊎ (is_forcing d.completeness_impact ≡ false)
        → (Memᴰ r (forcing_reasons ds) ↔ Forces ds r)
        → Memᴰ r (
            if is_forcing d.completeness_impact
            then reason_of d ∷ forcing_reasons ds
            else forcing_reasons ds)
          ↔ Forces (d ∷ ds) r
    by_impact (inl f) ih =
        let n = (is_forcing_iff d.completeness_impact).0 f in
        let c = Forces-cons d ds r in
        let m = Mem-cons r (reason_of d) (forcing_reasons ds) in
        rw f (
          λ h. c.1 (elim (m.0 h) [ inl e ↦ inl (n, sym e) | inr t ↦ inr (ih.0 t) ]),
          λ h. m.1 (elim (c.0 h) [ inl (_, e) ↦ inl (sym e) | inr t ↦ inr (ih.1 t) ]),
        )
    by_impact (inr f) ih =
        let c = Forces-cons d ds r in
        rw f (
          λ h. c.1 (inr (ih.0 h)),
          λ h. elim (c.0 h) [
            | inl (n, _) ↦ cc ((is_forcing_iff d.completeness_impact).1 n, f)
            | inr t ↦ ih.1 t
          ],
        )

forces_rejection_iff :
    (d : SourceDiagnostic)
    → (forces_rejection d ≡ true)
      ↔ (d.completeness_impact ≡ DiagnosticCompletenessImpact.forces_rejected)
forces_rejection_iff d = by_impact d.completeness_impact
  where
    by_impact :
        (i : DiagnosticCompletenessImpact)
        → ((elim i [ DiagnosticCompletenessImpact.forces_rejected ↦ true | _ ↦ false ]) ≡ true)
          ↔ (i ≡ DiagnosticCompletenessImpact.forces_rejected)
    by_impact DiagnosticCompletenessImpact.informational = (λ h. cc, λ h. cc)
    by_impact DiagnosticCompletenessImpact.forces_partial = (λ h. cc, λ h. cc)
    by_impact DiagnosticCompletenessImpact.forces_rejected = (λ h. refl, λ h. refl)

any-Rejects : (ds : List SourceDiagnostic) → (any forces_rejection ds ≡ true) ↔ Rejects ds
any-Rejects [] = (λ h. cc, λ (d, m, _). absurd (Memᴰ.not-nil m))
any-Rejects (d ∷ ds) = by_first (Bool-cases (forces_rejection d)) (any-Rejects ds)
  where
    by_first :
        (forces_rejection d ≡ true) ⊎ (forces_rejection d ≡ false)
        → ((any forces_rejection ds ≡ true) ↔ Rejects ds)
        → (any forces_rejection (d ∷ ds) ≡ true) ↔ Rejects (d ∷ ds)
    by_first (inl f) ih =
        (λ h. (d, Memᴰ.head refl, (forces_rejection_iff d).0 f), λ h. rw (any, f) refl)
    by_first (inr f) ih =
        rw (any, f)
          (
            λ h. let (x, m, e) = ih.0 h in (x, Memᴰ.tail m, e),
            λ (x, m, e). elim (Memᴰ.cases_cons m) [
              | inl p ↦
                  cc ((forces_rejection_iff d).1 (ap (λ y. y.completeness_impact) (sym p) ∙ e), f)
              | inr t ↦ ih.1 (x, t, e)
            ],
          )

-- A verdict gives the reasons, and is as the test says.
verdict-rejected :
    (b : Bool) (rs : List CompletenessReason)
    → ((out : List CompletenessReason) × (verdict b rs ≡ rejected out)) ↔ (b ≡ true)
verdict-rejected true rs = (λ _. refl, λ _. (rs, refl))
verdict-rejected false [] = (λ (_, e). cc, λ h. cc)
verdict-rejected false (r ∷ rs) = (λ (_, e). cc, λ h. cc)

verdict-complete :
    (b : Bool) (rs : List CompletenessReason)
    → (verdict b rs ≡ complete) ↔ ((b ≡ false) × (rs ≡ []))
verdict-complete true rs = (λ e. cc, λ (h, _). cc)
verdict-complete false [] = (λ _. (refl, refl), λ _. refl)
verdict-complete false (r ∷ rs) = (λ e. cc, λ (_, h). cc)

verdict-reasons : (b : Bool) (rs : List CompletenessReason) → reasons_in (verdict b rs) ≡ rs
verdict-reasons true rs = refl
verdict-reasons false [] = refl
verdict-reasons false (r ∷ rs) = refl

no_member : {A : Type 0} (xs : List A) → ((x : A) → ¬ Memᴰ x xs) → xs ≡ []
no_member [] h = refl
no_member (x ∷ xs) h = absurd (h x (Memᴰ.head refl))

reasons-Forces :
    (ds : List SourceDiagnostic) (r : CompletenessReason)
    → Memᴰ r (to_set compare_reason (forcing_reasons ds)) ↔ Forces ds r
reasons-Forces ds r =
    let a = Mem-to_set compare_reason compare_reason-Separates (forcing_reasons ds) r in
    let b = forcing_reasons-Forces ds r in (λ h. b.0 (a.0 h), λ h. a.1 (b.1 h))

not_rejected :
    (ds : List SourceDiagnostic)
    → ((r : CompletenessReason) → ¬ Forces ds r)
    → any forces_rejection ds ≡ false
not_rejected ds h = elim (Bool-cases (any forces_rejection ds)) [
  | inl e ↦ let (d, m, p) = (any-Rejects ds).0 e in absurd (h (reason_of d) (d, m, (λ q. cc), refl))
  | inr e ↦ e
]

-- A package is rejected exactly if a diagnostic says so, complete exactly if all of them inform
-- only, and the reasons are those of the diagnostics that do more.
pub completeness_from_diagnostics-Forces :
    (ds : List SourceDiagnostic)
    → let c = completeness_from_diagnostics ds in
      (((rs : List CompletenessReason) × (c ≡ rejected rs)) ↔ Rejects ds)
      × ((c ≡ complete) ↔ ((r : CompletenessReason) → ¬ Forces ds r))
      × ((r : CompletenessReason) → Memᴰ r (reasons_in c) ↔ Forces ds r)
unfolding completeness_from_diagnostics
completeness_from_diagnostics-Forces ds =
    let rs = to_set compare_reason (forcing_reasons ds) in
    let b = any forces_rejection ds in
    let v = verdict-rejected b rs in
    let c = verdict-complete b rs in
    let w = any-Rejects ds in
    (
      (λ e. w.0 (v.0 e), λ r. v.1 (w.1 r)),
      (
        λ e r f. Memᴰ.not-nil (subst (Memᴰ r) (c.0 e).1 ((reasons-Forces ds r).1 f)),
        λ n. c.1 (not_rejected ds n, no_member rs (λ r m. n r ((reasons-Forces ds r).0 m))),
      ),
      λ r. subst (λ l. Memᴰ r l ↔ Forces ds r) (sym (verdict-reasons b rs)) (reasons-Forces ds r),
    )
