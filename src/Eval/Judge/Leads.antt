-- ===== src/Eval/Judge/Leads.antt =====
-- Conditions on the store before and after a part of a task.
use codex_browser.Prelude.{◌≡◌, refl}
use codex_browser.Eval.Models.{EvalError, Result, ok, err}
use codex_browser.Eval.RunStore.{RunStore}
use codex_browser.Eval.Orchestrator.World.{
  Outcome, done, raised, going_on, World, M, after, ◌>>=◌, pure, raise, lifted, store_op, reading,
}

-- What holds of the store where a part of the task is done.
abbrev pub OnDone : {A : Type 0} → (RunStore → Type 0) → Outcome A → World → Type 0
OnDone Q (done a) w = Q w.run_store
OnDone Q (raised e) w = Unit
OnDone Q going_on w = Unit

unfoldable pub Leads : {A : Type 0} → (RunStore → Type 0) → M A → (RunStore → Type 0) → Type 0
Leads P m Q = (w : World) → P w.run_store → OnDone Q (m w).0 (m w).1

module _ {A B : Type 0} (P R Q : RunStore → Type 0) where
  pub bind-Leads :
      (m : M A) (f : A → M B) → Leads P m R → ((a : A) → Leads R (f a) Q) → Leads P (m >>= f) Q
  unfolding Leads
  bind-Leads m f lm lf w p = by_end (m w).0 (m w).1 (lm w p)
    where
      by_end :
          (o : Outcome A) (w' : World) → OnDone R o w' → OnDone Q (after f o w').0 (after f o w').1
      by_end (done a) w' r = lf a w' r
      by_end (raised e) w' r = tt
      by_end going_on w' r = tt

pub pure-Leads : {A : Type 0} (P : RunStore → Type 0) (a : A) → Leads P (pure a) P
unfolding Leads
pure-Leads P a w p = p

pub raise-Leads :
    (A : Type 0) (P Q : RunStore → Type 0) (e : EvalError) → Leads P (raise {A = A} e) Q
unfolding Leads
raise-Leads A P Q e w p = tt

-- A stronger condition before and a weaker one after.
pub relax :
    {A : Type 0} (P P' Q' Q : RunStore → Type 0) (m : M A)
    → ((s : RunStore) → P s → P' s)
    → ((s : RunStore) → Q' s → Q s)
    → Leads P' m Q'
    → Leads P m Q
unfolding Leads
relax {A} P P' Q' Q m f g k w p = by_end (m w).0 (m w).1 (k w (f w.run_store p))
  where
    by_end : (o : Outcome A) (w' : World) → OnDone Q' o w' → OnDone Q o w'
    by_end (done a) w' q = g w'.run_store q
    by_end (raised e) w' q = tt
    by_end going_on w' q = tt

pub reading-Leads : (P : RunStore → Type 0) → Leads P reading P
unfolding Leads
reading-Leads P w p = p

pub lifted-OnDone :
    {A : Type 0} (Q : RunStore → Type 0) (r : Result A × RunStore) (w : World)
    → ((a : A) → r.0 ≡ ok a → Q r.1)
    → OnDone Q (lifted r w).0 (lifted r w).1
lifted-OnDone Q (ok a, s) w k = k a refl
lifted-OnDone Q (err e, s) w k = tt

pub store_op-Leads :
    {A : Type 0} (P Q : RunStore → Type 0) (f : RunStore → Result A × RunStore)
    → ((s : RunStore) → P s → (a : A) → (f s).0 ≡ ok a → Q (f s).1)
    → Leads P (store_op f) Q
unfolding Leads
store_op-Leads P Q f k w p = lifted-OnDone Q (f w.run_store) w (k w.run_store p)
