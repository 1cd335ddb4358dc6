-- ===== src/Bootstrap/Outcomes.antt =====
-- What the steps of the hooks leave of the object.
use cellixjs.Base.{
  ◌≡◌, refl, ◌∙◌, sym, ap, arith, List, [], ◌∷◌, Option, none, some, Exec, Outcome, done, thrown,
  Error, state_after, and_then,
}
use cellixjs.Bootstrap.State.{Registry, Made, made, failed, Cellix}
use cellixjs.Bootstrap.Hooks.{settle, create_context, build_host, made_or_throw}

pub holds_after :
    {S T U : Type 0} (P : S → Type 0) (o : Outcome S T) (k : T → Exec S U)
    → P (state_after o)
    → ((a : T) (s : S) → o ≡ done a s → P (state_after (k a s)))
    → P (state_after (and_then o k))
holds_after P (done a s) k before after = after a s refl
holds_after P (thrown e s) k before after = before

module _ {C H A : Type 0} where
  made_or_throw-done :
      {T : Type 0} (r : Made T) (t : T) (c d : Cellix C H A) → made_or_throw r c ≡ done t d → d ≡ c
  made_or_throw-done (made x) t c d h = ground arith
  made_or_throw-done (failed e) t c d h = ground arith

  pub made_or_throw_state :
      {T : Type 0} (r : Made T) (c : Cellix C H A) → state_after (made_or_throw r c) ≡ c
  made_or_throw_state (made x) c = refl
  made_or_throw_state (failed e) c = refl

  pub create_context_state :
      (o : Option (Registry → Made C)) (r : Registry) (c : Cellix C H A)
      → state_after (create_context o r c) ≡ c
  create_context_state none r c = refl
  create_context_state (some f) r c = made_or_throw_state (f r) c

  pub build_host_state :
      (o : Option (C → Made H)) (x : C) (c : Cellix C H A) → state_after (build_host o x c) ≡ c
  build_host_state none x c = refl
  build_host_state (some f) x c = made_or_throw_state (f x) c

  pub done_state :
      {T : Type 0} (o : Outcome (Cellix C H A) T) (c d : Cellix C H A) (t : T)
      → state_after o ≡ c
      → o ≡ done t d
      → d ≡ c
  done_state o c d t h e = ap state_after (sym e) ∙ h

  pub settle_state :
      (first : Error → List Error → Error) (es : List Error) (c : Cellix C H A)
      → state_after (settle first es c) ≡ c
  settle_state first [] c = refl
  settle_state first (e ∷ es) c = refl
