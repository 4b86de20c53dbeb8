-- ===== src/Preprocess/Processor/Apply.antt =====
-- The state of `process_inner` in src/preprocess/processor.rs and what each directive does to it.
use parc.Prelude.{
  ℕ, Bool, true, false, not, ◌&&◌, ◌||◌, List, [], ◌∷◌, ◌++◌, Option, none, some, if◌then◌else◌,
}
use parc.Prelude.Result.{Result, ok, ◌>>=◌}
use parc.Prelude.Text.{Text, bytes, text_eq}
use parc.Preprocess.Token.{Token}
use parc.Preprocess.Directive.{
  Directive, define, undef, include, include_computed, if_, ifdef, ifndef, elif, else_, endif,
  error, warning, pragma, skip_whitespace, expanded_header_name,
}
use parc.Preprocess.Macros
use parc.Preprocess.Macros.{MacroTable, is_defined, expand}
use parc.Preprocess.Expr.{eval_condition}

pub record CondState : Type 0 where
  pub any_taken : Bool
  pub active : Bool
  pub parent_active : Bool

pub record IncludeRequest : Type 0 where
  pub path : Text
  pub system : Bool
  pub offset : ℕ

-- A call of the include handler: its arguments.
pub record Call : Type 0 where
  pub path : Text
  pub system : Bool
  pub macros : MacroTable

-- The table of the processor, its output, and the calls of the include handler so far, the latest
-- first.
pub record World : Type 0 where
  pub macros : MacroTable
  pub tokens : List Token
  pub errors : List Text
  pub warnings : List Text
  pub includes : List IncludeRequest
  pub pragma_once : Bool
  pub calls : List Call

-- The variables of the loop: beside the world the stack of conditionals, the innermost first.
pub record State : Type 0 where
  pub world : World
  pub cond_stack : List CondState

abbrev pub initial : MacroTable → State
initial table = record {
  world = record {
    macros = table;
    tokens = [];
    errors = [];
    warnings = [];
    includes = [];
    pragma_once = false;
    calls = [];
  };
  cond_stack = [];
}

-- The closure of `process_with_includes`: it may resolve an include to tokens, and may change the
-- table of macros. What it keeps of its own between two calls is a function of the calls so far.
abbrev pub Handler : Type 0
Handler = List Call → Text → Bool → MacroTable → Option (List Token) × MacroTable

-- `process` resolves no include.
abbrev pub no_includes : Handler
no_includes calls path system table = (none, table)

abbrev pub top_active : List CondState → Bool
top_active [] = true
top_active (c ∷ _) = c.active

abbrev pub is_active : State → Bool
is_active s = top_active s.cond_stack

abbrev pub push_tokens : List Token → World → World
push_tokens ts w = record w { tokens = w.tokens ++ ts }

-- `#if`, `#ifdef` and `#ifndef` in a branch that is active or not, with their test's value.
abbrev pub opened : Bool → Bool → CondState
opened parent_active branch_active = record {
  any_taken = branch_active;
  active = branch_active && parent_active;
  parent_active = parent_active;
}

abbrev pub push_cond : Bool → State → State
push_cond branch_active s = record s {
  cond_stack = opened (is_active s) branch_active ∷ s.cond_stack;
}

-- A branch behind one that was taken, or in a dead conditional, does not look at its condition.
abbrev pub is_closed : CondState → Bool
is_closed c = c.any_taken || not c.parent_active

-- `#elif` on the state of its conditional.
unfoldable pub next_branch : CondState → Result Bool → Result CondState
next_branch c test =
    if is_closed c
    then ok (record c { active = false })
    else (test >>= λ b. ok (record c { active = b; any_taken = if b then true else c.any_taken }))

-- `#else`
unfoldable pub last_branch : CondState → CondState
last_branch c =
    if is_closed c
    then record c { active = false }
    else record c { active = true; any_taken = true }

abbrev pub elif_on : List CondState → Result Bool → Result (List CondState)
elif_on [] test = ok []
elif_on (c ∷ cs) test = next_branch c test >>= λ c'. ok (c' ∷ cs)

abbrev pub else_on : List CondState → List CondState
else_on [] = []
else_on (c ∷ cs) = last_branch c ∷ cs

abbrev pub endif_on : List CondState → List CondState
endif_on [] = []
endif_on (_ ∷ cs) = cs

abbrev resolve : Text → Bool → ℕ → World → Option (List Token) × MacroTable → World
resolve path system offset w (some ts, table) = push_tokens ts (record w { macros = table })
resolve path system offset w (none, table) = record w {
  macros = table;
  includes = w.includes ++ record { path = path; system = system; offset = offset } ∷ [];
}

unfoldable pub include_file : Handler → Text → Bool → ℕ → World → World
include_file handler path system offset w =
    let call : Call = record { path = path; system = system; macros = w.macros } in
    resolve path system offset (record w { calls = call ∷ w.calls })
      (handler w.calls path system w.macros)

abbrev computed_message : Text
computed_message = bytes "computed #include does not expand to a header name"

abbrev include_spelled : Handler → ℕ → World → Option (Text × Bool) → World
include_spelled handler offset w none = record w { errors = w.errors ++ computed_message ∷ [] }
include_spelled handler offset w (some (path, system)) = include_file handler path system offset w

abbrev is_once : List Token → Bool
is_once [] = false
is_once (t ∷ _) = text_eq t.text (bytes "once")

-- The directives that an inactive branch skips.
unfoldable pub apply_active : Handler → ℕ → Directive → World → Result World
unfolding include_file expanded_header_name skip_whitespace
apply_active handler offset (define name params is_variadic body) w = ok (record w {
  macros =
      Macros.define
        (record { name = name; params = params; is_variadic = is_variadic; body = body }) w.macros;
})
apply_active handler offset (undef name) w = ok (record w { macros = Macros.undef name w.macros })
apply_active handler offset (include path system next) w =
    ok (include_file handler path system offset w)
apply_active handler offset (include_computed operand next) w =
    expand w.macros operand >>= λ expanded.
    ok (include_spelled handler offset w (expanded_header_name expanded))
apply_active handler offset (error message) w = ok (record w { errors = w.errors ++ message ∷ [] })
apply_active handler offset (warning message) w =
    ok (record w { warnings = w.warnings ++ message ∷ [] })
apply_active handler offset (pragma tokens) w =
    ok (if is_once (skip_whitespace tokens) then record w { pragma_once = true } else w)
apply_active handler offset _ w = ok w

-- The tests of `#if`, `#ifdef` and `#ifndef` in an active branch.
unfoldable pub test_if : Bool → List Token → World → Result Bool
test_if checks tokens w = eval_condition checks w.macros tokens

unfoldable pub test_ifdef : Text → World → Bool
test_ifdef name w = is_defined name w.macros

unfoldable pub test_ifndef : Text → World → Bool
test_ifndef name w = not (is_defined name w.macros)

-- The match on a directive. The conditionals come first, whether the branch is active or not.
unfoldable pub apply_directive : Bool → Handler → ℕ → Directive → State → Result State
unfolding next_branch last_branch
apply_directive checks handler offset (if_ tokens) s =
    let evaluated = test_if checks tokens s.world >>= λ b. ok (push_cond b s) in
    if is_active s then evaluated else ok (push_cond false s)
apply_directive checks handler offset (ifdef name) s =
    ok (push_cond (if is_active s then test_ifdef name s.world else false) s)
apply_directive checks handler offset (ifndef name) s =
    ok (push_cond (if is_active s then test_ifndef name s.world else false) s)
apply_directive checks handler offset (elif tokens) s =
    elif_on s.cond_stack (test_if checks tokens s.world) >>= λ cs. ok (record s { cond_stack = cs })
apply_directive checks handler offset else_ s = ok (record s { cond_stack = else_on s.cond_stack })
apply_directive checks handler offset endif s = ok (record s { cond_stack = endif_on s.cond_stack })
apply_directive checks handler offset d s =
    let applied = apply_active handler offset d s.world >>= λ w. ok (record s { world = w }) in
    if is_active s then applied else ok s
