-- ===== src/Env/Scopes.antt =====
-- Blocks of the source as trees, and the scopes of src/env.rs that the parser enters and leaves for
-- them.
use parc.Prelude.{
  ◌≡◌, refl, sym, ap, ◌∙◌, List, [], ◌∷◌, ◌++◌, Option, none, some, arith, append_assoc,
  if◌then◌else◌, Bool-cases, inl, inr,
}
use parc.Prelude.Result.{Result, ok, ◌>>=◌, ok-injective}
use parc.Prelude.Text.{Text, text_eq, text_eq_iff}
use parc.Env.{
  Symbol, Scope, Env, Declarator, is_type, find, insert, enter_scope, leave_scope, add_symbol,
  handle_declarator, declarator_name, declare, is_typename, typename_in, with_symbol,
}

find-insert :
    (k j : Text) (s : Symbol) (scope : Scope)
    → find j (insert k s scope) ≡ (if text_eq k j then some s else find j scope)
unfolding find insert
find-insert k j s [] = ground arith
find-insert k j s ((i, t) ∷ rest) =
    ground (arith, find-insert k j s rest, text_eq_iff i k, text_eq_iff i j, text_eq_iff k j)

-- Where a name is added, it is a type exactly if the symbol says so, whatever hides behind it, and
-- no other name changes.
pub is_typename-add_symbol :
    (k j : Text) (s : Symbol) (e e' : Env)
    → add_symbol k s e ≡ ok e'
    → is_typename j e' ≡ (if text_eq k j then is_type s else is_typename j e)
unfolding add_symbol is_typename typename_in
is_typename-add_symbol k j s e e' h = by_symbols e.symbols h
  where
    by_scope :
        (scope : Scope) (outer : List Scope)
        → typename_in j (insert k s scope ∷ outer)
          ≡ (if text_eq k j then is_type s else typename_in j (scope ∷ outer))
    by_scope scope outer = elim (Bool-cases (text_eq k j)) [
      | inl y ↦ rw (find-insert k j s scope, y) refl
      | inr n ↦ rw (find-insert k j s scope, n) refl
    ]

    by_symbols :
        (ss : List Scope)
        → with_symbol e k s ss ≡ ok e'
        → typename_in j e'.symbols ≡ (if text_eq k j then is_type s else typename_in j ss)
    by_symbols [] h = cc
    by_symbols (scope ∷ outer) h =
        ap (λ (x : Env). typename_in j x.symbols) (sym (ok-injective h)) ∙ by_scope scope outer

-- What the parser does to the scopes.
pub data ScopeOp (D E : Type 0) : Type 0 where
  enter leave : ScopeOp D E
  handle : Declarator D E → Symbol → ScopeOp D E

-- A block of the source: declarations, and blocks in it.
pub data Block (D E : Type 0) : Type 0 where
  done : Block D E
  declaration : Declarator D E → Symbol → Block D E → Block D E
  block : Block D E → Block D E → Block D E

abbrev within : Env → Scope → List Scope → Env
within e scope outer = record e { symbols = scope ∷ outer }

declare-within :
    (name : Option Text) (s : Symbol) (e : Env) (scope : Scope) (outer : List Scope)
    → (scope' : Scope) × (declare name s (within e scope outer) ≡ ok (within e scope' outer))
unfolding add_symbol
declare-within none s e scope outer = (scope, refl)
declare-within (some k) s e scope outer = (insert k s scope, refl)

module _ {D E : Type 0} where
  abbrev pub apply_op : ScopeOp D E → Env → Result Env
  apply_op enter e = ok (enter_scope e)
  apply_op leave e = leave_scope e
  apply_op (handle d s) e = handle_declarator d s e

  unfoldable pub run_ops : List (ScopeOp D E) → Env → Result Env
  run_ops [] e = ok e
  run_ops (o ∷ os) e = apply_op o e >>= run_ops os

  unfoldable pub ops : Block D E → List (ScopeOp D E)
  ops done = []
  ops (declaration d s b) = handle d s ∷ ops b
  ops (block inner b) = enter ∷ (ops inner ++ leave ∷ ops b)

  -- A block changes the innermost scope only.
  run_ops-within :
      (b : Block D E) (rest : List (ScopeOp D E)) (e : Env) (scope : Scope) (outer : List Scope)
      → (scope' : Scope) × (run_ops (ops b ++ rest) (within e scope outer)
          ≡ run_ops rest (within e scope' outer))
  unfolding run_ops ops enter_scope leave_scope handle_declarator
  run_ops-within done rest e scope outer = (scope, refl)
  run_ops-within (declaration d s b) rest e scope outer =
      let (s₁, h₁) = declare-within (declarator_name d) s e scope outer in
      let (s₂, h₂) = run_ops-within b rest e s₁ outer in (s₂, rw h₁ h₂)
  run_ops-within (block inner b) rest e scope outer =
      let (s₁, h₁) = run_ops-within inner (leave ∷ (ops b ++ rest)) e [] (scope ∷ outer) in
      let (s₂, h₂) = run_ops-within b rest e scope outer in
      (
        s₂,
        ap (λ os. run_ops os (within e [] (scope ∷ outer))) (append_assoc (ops inner) _ rest)
            ∙ h₁
            ∙ h₂,
      )

  -- A whole block, between the entry to its scope and the end of it, leaves the environment as it
  -- was: no name of it stays, none that it hides is lost, and no scope is popped that it did not
  -- push.
  pub run_ops-block :
      (b : Block D E) (rest : List (ScopeOp D E)) (e : Env)
      → run_ops (enter ∷ (ops b ++ leave ∷ rest)) e ≡ run_ops rest e
  unfolding run_ops enter_scope leave_scope
  run_ops-block b rest e = (run_ops-within b (leave ∷ rest) e [] e.symbols).1
