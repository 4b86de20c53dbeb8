-- ===== src/Preprocess/Processor/Events.antt =====
-- The loop of `process_inner` in src/preprocess/processor.rs as a run over events: the directives of
-- the input, each with its offset, and the other tokens.
use parc.Prelude.{
  ℕ, zero, suc, ◌≡◌, refl, sym, ap, ◌∙◌, Bool, List, [], ◌∷◌, ◌++◌, if◌then◌else◌, Bool-cases, inl,
  inr,
}
use parc.Prelude.Result.{
  Result, ok, out_of_fuel, ◌>>=◌, bind_inverts, bind_assoc, bind_congr, ok-injective,
}
use parc.Preprocess.Token.{Token, TokenKind, is_kind}
use parc.Preprocess.Directive.{Directive, parse_directive}
use parc.Preprocess.Processor.{
  State, Handler, apply_directive, plain_token, split_line, process_loop,
}

pub data Event : Type 0 where
  plain : Token → Event
  directive : ℕ → Directive → Event

-- The events of a token list, on the fuel of the loop.
unfoldable pub events : ℕ → List Token → Result (List Event)
events zero ts = out_of_fuel
events (suc f) [] = ok []
events (suc f) (t ∷ rest) =
    let (line, behind) = split_line rest in
    let of_line =
      parse_directive line >>= λ d. events f behind >>= λ es. ok (directive t.offset d ∷ es) in
    let of_token = events f rest >>= λ es. ok (plain t ∷ es) in
    if is_kind t TokenKind.hash then of_line else of_token

module _ (checks : Bool) (handler : Handler) where
  abbrev pub apply_event : Event → State → Result State
  apply_event (plain t) s = ok (plain_token t s)
  apply_event (directive offset d) s = apply_directive checks handler offset d s

  unfoldable pub run : List Event → State → Result State
  run [] s = ok s
  run (e ∷ es) s = apply_event e s >>= run es

  pub run-append : (es fs : List Event) (s : State) → run (es ++ fs) s ≡ (run es s >>= run fs)
  unfolding run
  run-append [] fs s = refl
  run-append (e ∷ es) fs s =
      bind_congr (apply_event e s) (λ s'. run-append es fs s')
      ∙ sym (bind_assoc (apply_event e s) (run es) (run fs))

  -- Where the lines of the input parse within the fuel, without a panic, the loop on that fuel is the
  -- run over their events.
  pub process_loop-run :
      (f : ℕ) (ts : List Token) (es : List Event) (s : State)
      → events f ts ≡ ok es
      → process_loop checks handler f ts s ≡ run es s
  unfolding events process_loop run
  process_loop-run zero ts es s h = cc
  process_loop-run (suc f) [] es s h = ap (λ r. run r s) (ok-injective h)
  process_loop-run (suc f) (t ∷ rest) es s h = elim (Bool-cases (is_kind t TokenKind.hash)) [
    | inl y ↦
        let (d, p, h₁) = bind_inverts (parse_directive (split_line rest).0) _ (rw y at h) in
        let (es', q, h₂) = bind_inverts (events f (split_line rest).1) _ h₁ in
        rw (y, p)
          (bind_congr (apply_directive checks handler t.offset d s)
              (λ s'. process_loop-run f (split_line rest).1 es' s' q)
            ∙ ap (λ r. run r s) (ok-injective h₂))
    | inr n ↦
        let (es', q, h₁) = bind_inverts (events f rest) _ (rw n at h) in
        rw n (process_loop-run f rest es' (plain_token t s) q ∙ ap (λ r. run r s) (ok-injective h₁))
  ]
