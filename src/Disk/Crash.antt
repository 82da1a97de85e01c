-- ===== src/Disk/Crash.antt =====
-- Code that can stop before any step: what holds where it finishes, where it raises, and where the
-- process stops. Without a limit on the steps the process does not stop.
use generic_ml_cache.Prelude.{
  ℕ, zero, suc, String, ◌≡◌, refl, ◌∙◌, none, some, List, [], ◌∷◌, Bool, true, false, is_some,
  if◌then◌else◌, arith, sym, subst, ap,
}
use generic_ml_cache.Errors.{Error, Result, ok, err}
use generic_ml_cache.Disk.{
  Disk, Budget, Outcome, finished, failed, crashed, Action, pure, raise, gets, lift, ◌>>=◌,
  continue, spend, step, for_each, draw,
}

abbrev pub Ends :
    {A : Type 0}
    → Budget
    → (A → Disk → Type 0)
    → (Error → Disk → Type 0)
    → (Disk → Type 0)
    → Outcome A
    → Type 0
Ends b Q E C (finished a d b') = (is_some b' ≡ is_some b) × Q a d
Ends b Q E C (failed e d b') = (is_some b' ≡ is_some b) × E e d
Ends b Q E C (crashed d) = (is_some b ≡ true) × C d

-- From a disk with `P` the code finishes with `Q`, raises with `E`, or stops with `C`.
pub record Guarantees {A : Type 0} (P : Disk → Type 0) (m : Action A) (Q : A → Disk → Type 0)
    (E : Error → Disk → Type 0) (C : Disk → Type 0) : Type 0 where
  pub at : (d : Disk) (b : Budget) → P d → Ends b Q E C (m d b)

value_or : {A : Type 0} → A → Result A → A
value_or a (ok x) = x
value_or a (err e) = a

pub ok-value : {A : Type 0} (a x : A) → ok x ≡ ok a → a ≡ x
unfolding value_or
ok-value a x e = sym (ap (value_or a) e)

module _ (E : Error → Disk → Type 0) (C : Disk → Type 0) where
  Ends-budget :
      {A : Type 0} (Q : A → Disk → Type 0) (b b' : Budget) (o : Outcome A)
      → is_some b' ≡ is_some b
      → Ends b' Q E C o
      → Ends b Q E C o
  Ends-budget Q b b' (finished a d b2) e h = (h.0 ∙ e, h.1)
  Ends-budget Q b b' (failed x d b2) e h = (h.0 ∙ e, h.1)
  Ends-budget Q b b' (crashed d) e h = (sym e ∙ h.0, h.1)

  Ends-continue :
      {A B : Type 0} (R : A → Disk → Type 0) (Q : B → Disk → Type 0) (b : Budget) (o : Outcome A)
      (f : A → Action B)
      → ((a : A) → Guarantees (R a) (f a) Q E C)
      → Ends b R E C o
      → Ends b Q E C (continue o f)
  Ends-continue R Q b (finished a d b') f g h =
      Ends-budget Q b b' (f a d b') h.0 ((g a).at d b' h.1)
  Ends-continue R Q b (failed e d b') f g h = h
  Ends-continue R Q b (crashed d) f g h = h

  Ends-spend :
      (Q : Unit {0} → Disk → Type 0) (d d' : Disk) (b : Budget) (r : Result Disk)
      → r ≡ ok d'
      → Q tt d'
      → C d
      → Ends b Q E C (spend r d b)
  Ends-spend Q d d' none (ok x) e q c = (refl, subst (Q tt) (ok-value d' x e) q)
  Ends-spend Q d d' (some zero) (ok x) e q c = (refl, c)
  Ends-spend Q d d' (some (suc n)) (ok x) e q c = (refl, subst (Q tt) (ok-value d' x e) q)
  Ends-spend Q d d' b (err x) e q c = ground arith

  Ends-weaken :
      {A : Type 0} {Q R : A → Disk → Type 0} {E' : Error → Disk → Type 0} {C' : Disk → Type 0}
      (b : Budget) (o : Outcome A)
      → ((a : A) (d : Disk) → R a d → Q a d)
      → ((e : Error) (d : Disk) → E e d → E' e d)
      → ((d : Disk) → C d → C' d)
      → Ends b R E C o
      → Ends b Q E' C' o
  Ends-weaken b (finished a d b') i j k h = (h.0, i a d h.1)
  Ends-weaken b (failed e d b') i j k h = (h.0, j e d h.1)
  Ends-weaken b (crashed d) i j k h = (h.0, k d h.1)

  -- Less is claimed.
  pub Guarantees-imp :
      {A : Type 0} {P : Disk → Type 0} {Q R : A → Disk → Type 0} {E' : Error → Disk → Type 0}
      {C' : Disk → Type 0} {m : Action A}
      → ((a : A) (d : Disk) → R a d → Q a d)
      → ((e : Error) (d : Disk) → E e d → E' e d)
      → ((d : Disk) → C d → C' d)
      → Guarantees P m R E C
      → Guarantees P m Q E' C'
  Guarantees-imp {m = m} i j k g = record { at = λ d b p. Ends-weaken b (m d b) i j k (g.at d b p) }

module _ {E : Error → Disk → Type 0} {C : Disk → Type 0} where
  pub Guarantees-weaken :
      {A : Type 0} {P : Disk → Type 0} {Q R : A → Disk → Type 0} {m : Action A}
      → ((a : A) (d : Disk) → R a d → Q a d)
      → Guarantees P m R E C
      → Guarantees P m Q E C
  Guarantees-weaken i g = Guarantees-imp E C i (λ e d h. h) (λ d h. h) g

  module _ {A : Type 0} {P : Disk → Type 0} {Q : A → Disk → Type 0} where
    pub Guarantees-pure : (a : A) → ((d : Disk) → P d → Q a d) → Guarantees P (pure a) Q E C
    unfolding pure
    Guarantees-pure a h = record { at = λ d b p. (refl, h d p) }

    pub Guarantees-raise :
        (e : Error) → ((d : Disk) → P d → E e d) → Guarantees P (raise {A = A} e) Q E C
    unfolding raise
    Guarantees-raise e h = record { at = λ d b p. (refl, h d p) }

    pub Guarantees-gets :
        (f : Disk → A) → ((d : Disk) → P d → Q (f d) d) → Guarantees P (gets f) Q E C
    unfolding gets
    Guarantees-gets f h = record { at = λ d b p. (refl, h d p) }

    pub Guarantees-ok :
        (a : A) (r : Result A) → r ≡ ok a → ((d : Disk) → P d → Q a d) → Guarantees P (lift r) Q E C
    unfolding lift
    Guarantees-ok a (ok x) e h = record {
      at = λ d b p. (refl, subst (λ y. Q y d) (ok-value a x e) (h d p));
    }
    Guarantees-ok a (err x) e h = ground arith

    pub Guarantees-lift :
        (r : Result A)
        → ((a : A) → r ≡ ok a → (d : Disk) → P d → Q a d)
        → ((e : Error) → r ≡ err e → (d : Disk) → P d → E e d)
        → Guarantees P (lift r) Q E C
    unfolding lift
    Guarantees-lift (ok a) h k = record { at = λ d b p. (refl, h a refl d p) }
    Guarantees-lift (err e) h k = record { at = λ d b p. (refl, k e refl d p) }

    pub Guarantees-if :
        (c : Bool) (m n : Action A)
        → (c ≡ true → Guarantees P m Q E C)
        → (c ≡ false → Guarantees P n Q E C)
        → Guarantees P (if c then m else n) Q E C
    Guarantees-if true m n h k = h refl
    Guarantees-if false m n h k = k refl

    pub Guarantees-from :
        {R : Disk → Type 0} (m : Action A)
        → ((d : Disk) → R d → P d)
        → Guarantees P m Q E C
        → Guarantees R m Q E C
    Guarantees-from m imp g = record { at = λ d b r. g.at d b (imp d r) }

    -- A precondition on one disk at a time.
    pub Guarantees-each :
        (m : Action A)
        → ((d : Disk) → P d → Guarantees (λ d'. d' ≡ d) m Q E C)
        → Guarantees P m Q E C
    Guarantees-each m g = record { at = λ d b p. (g d p).at d b refl }

  module _ {P : Disk → Type 0} {Q : Unit {0} → Disk → Type 0} where
    pub Guarantees-step :
        (f : Disk → Result Disk)
        → ((d : Disk) → P d → C d × ((d' : Disk) × (f d ≡ ok d') × Q tt d'))
        → Guarantees P (step f) Q E C
    unfolding step
    Guarantees-step f h = record {
      at = λ d b p. let k = h d p in Ends-spend E C Q d k.1.0 b (f d) k.1.1 k.1.2 k.0;
    }

  pub Guarantees-draw :
      {P : Disk → Type 0} {Q : ℕ → Disk → Type 0}
      → ((d : Disk) → P d → Q d.draws (record d { draws = suc d.draws }))
      → Guarantees P draw Q E C
  unfolding draw
  Guarantees-draw h = record { at = λ d b p. (refl, h d p) }

  module _ {A B : Type 0} {P : Disk → Type 0} {R : A → Disk → Type 0} {Q : B → Disk → Type 0} where
    pub Guarantees-bind :
        (m : Action A) (f : A → Action B)
        → Guarantees P m R E C
        → ((a : A) → Guarantees (R a) (f a) Q E C)
        → Guarantees P (m >>= f) Q E C
    unfolding ◌>>=◌
    Guarantees-bind m f gm gf = record {
      at = λ d b p. Ends-continue E C R Q b (m d b) f gf (gm.at d b p);
    }

  -- A loop, with an invariant that names the items that are left.
  pub Guarantees-for_each :
      (I : List String → Disk → Type 0) (xs : List String) (body : String → Action (Unit {0}))
      → ((x : String) (rest : List String) → Guarantees (I (x ∷ rest)) (body x) (λ _. I rest) E C)
      → Guarantees (I xs) (for_each xs body) (λ _. I []) E C
  unfolding for_each
  Guarantees-for_each I [] body g = Guarantees-pure tt (λ d p. p)
  Guarantees-for_each I (x ∷ xs) body g =
      Guarantees-bind (body x) (λ _. for_each xs body) (g x xs)
        (λ _. Guarantees-for_each I xs body g)
