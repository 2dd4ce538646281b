-- ===== src/Interleaving.antt =====
-- Workers that share a state: the turns of one worker, and runs in which any of them has the next turn.
use amigao.Base.{suc, List, ◌∷◌, ◌≡◌, refl, ap, ◌∙◌, length}

module _ {A S : Type 0} (Turn : A → S → A → S → Type 0) where
  pub data Step : List A → S → List A → S → Type 0 where
    here : {t t' : A} {ts : List A} {p q : S} → Turn t p t' q → Step (t ∷ ts) p (t' ∷ ts) q
    there : {t : A} {ts ts' : List A} {p q : S} → Step ts p ts' q → Step (t ∷ ts) p (t ∷ ts') q

  pub data Steps : List A → S → List A → S → Type 0 where
    none_left : {ts : List A} {p : S} → Steps ts p ts p
    then_step : {ts us vs : List A} {p q r : S} → Step ts p us q → Steps us q vs r → Steps ts p vs r

  Step-length : (ts : List A) (p : S) (us : List A) (q : S) → Step ts p us q → length us ≡ length ts
  Step-length ts p us q (here turn) = refl
  Step-length ts p us q (there {ts = vs} {ts' = ws} step) = ap suc (Step-length vs p ws q step)

  pub Steps-length :
      (ts : List A) (p : S) (us : List A) (q : S) → Steps ts p us q → length us ≡ length ts
  Steps-length ts p us q none_left = refl
  Steps-length ts p us q (then_step {us = vs} {q = r} step more) =
      Steps-length vs r us q more ∙ Step-length ts p vs r step
