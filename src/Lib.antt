-- ===== src/Lib.antt =====
-- A model of parc, the C source frontend of the FOL toolchain: its built-in preprocessor, the
-- scopes of its parser, the lines of preprocessed sources, and of the source contract the identities,
-- the data, the composition of packages and the proof of their completeness.
--
-- The preprocessor (src/preprocess) turns a text into tokens (Lexer::tokenize, behind splice_lines),
-- and Processor::process_inner walks over them: a line behind `#` is parsed (parse_directive), and
-- its directive changes the stack of conditionals, the table of macros or the output; of the other
-- tokens those in an active branch are put out. `#if` evaluates a condition (eval_condition), which
-- expands macros and parses an expression. At the end the output is expanded by the table
-- (MacroTable::expand). Includes go to a handler of the caller.
--
--   Preprocess/Token      src/preprocess/token.rs
--   Preprocess/Lexer      src/preprocess/lexer.rs (Scan: its loops, Splice: splice_lines)
--   Preprocess/Directive  src/preprocess/directive.rs (Define: the parameters of parse_define)
--   Preprocess/Macros     src/preprocess/macros.rs (Table: MacroTable, Args: collect_macro_args,
--                         Substitute: substitute_fn_macro, Expand: expand_with_paint)
--   Preprocess/Expr       src/preprocess/expr.rs (Int128: the operators of i128, Literal:
--                         parse_integer and parse_char_constant, Defined: expand_for_condition;
--                         Condition: conditions as trees, for the comparison)
--   Preprocess/Processor  src/preprocess/processor.rs (Apply: the match on a directive)
--   Contract/Hex          encode_hex, parse_digest of src/contract/ids.rs, decode_prefixed of
--                         src/contract/fingerprint.rs
--   Contract/Canonical    push_field of src/contract/canonical.rs, canonical_tokens_bytes of
--                         src/contract/ids.rs
--   Contract/Selection    src/contract/selection.rs
--   Contract/Diagnostics  src/contract/diagnostics.rs, src/contract/files.rs
--   Contract/Types        src/contract/types.rs
--   Contract/Declarations src/contract/declarations.rs, provenance.rs and macros.rs
--   Contract/Package      src/contract/package.rs, src/contract/inputs.rs
--   Contract/Compose      src/contract/compose.rs (Closure: declaration_closure, Retain: retain,
--                         Union: the merge loops, Merge: merge, Reason: the completeness,
--                         Equal: the derived equality of its records)
--   Contract/Complete     src/contract/complete.rs (Visit: validate_declaration_closure and what it
--                         calls)
--   Contract/Integer      src/contract/exact_integer.rs
--   Contract/Entity       EntityId of src/contract/ids.rs, with the hash and the normalization of
--                         Unicode as parameters
--   Env                   src/env.rs (Reserved: src/strings.rs), the declarators of
--                         src/ast/declarations.rs
--   Location              src/loc.rs
--   Prelude               what these share: bytes, texts, UTF-8, trimming, parsing of integers, ℤ,
--                         and the outcome of a run
--
-- A text is the list of its bytes. A place in a slice is what stands behind it: a loop with an
-- index takes the rest of the list, and gives the rest that it leaves. Offsets are natural
-- numbers without a bound, as a text fits in memory. The HashMap of macros is a list of
-- definitions, one for each name. An outcome is a value, a panic (a slice out of range, an
-- overflow where `checks` says that the build checks for it, a shift or a negation out of range),
-- or out_of_fuel, which the program has no counterpart of. Fuel is: a round for each byte or
-- token and one more for the loops of the lexer, the processor, the expansion and the conditions;
-- a call for each macro and one more for the depth of the expansion; the number of tokens and one
-- more for the depth of the parser of conditions. The loop over the parameters of a `#define` has
-- a round for each token and one more, and that over the lines of a source (src/loc.rs) as many
-- rounds as the offset has bytes, and one more.
--
-- The handler of includes is a parameter without hypotheses: it sees and may change the table, and
-- resolves an include to tokens or not. It is given the calls made before, so that it may answer one
-- call differently from an earlier one, as a closure with a state of its own does.
--
-- The source contract (src/contract) describes a package: files, declarations, macros, diagnostics.
-- SourcePackage::retain projects it to the declarations that a selection reaches, merge unites two
-- packages, and into_complete proves a selection complete. The first two end in
-- SourcePackage::try_new, which is a parameter, as is the description of the target. A BTreeMap is
-- the list of its values in the order of their keys, and a BTreeSet the list of its elements in
-- theirs; a set that is only asked for its members is a list of them. Identifiers and fingerprints
-- are the numbers that their bytes spell. The fuel of the closure is one more than the number of
-- the roots and of all references of all declarations: each declaration adds its references to the
-- queue once. That of into_complete is one more than twice that number: an identifier is asked for
-- at most twice, with the lower need and with the higher one. The texts by which its blockers are
-- sorted come from a derive macro, and are a parameter.
--
-- Not modelled: reading files and the search for includes, the tables of predefined macros and
-- built-in headers, hashing, serialization, the validation of packages, the parser of C beyond its
-- environment, its syntax tree, the scan and the lowering to the contract, and the iterators of
-- MacroTable, whose order is that of a HashMap.
pub mod Prelude
pub mod Preprocess
pub mod Contract
pub mod Env
pub mod Location
