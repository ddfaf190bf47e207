-- ===== src/Python/Exec/Triple.antt =====
-- What an action guarantees when it returns and when it raises, with a rule for each way to build
-- an action.
use nitpicker_daemon.Prelude.{◌≡◌, refl, Bool, true, false, if◌then◌else◌}
use nitpicker_daemon.Python.Errors.{Error, Result, ok, raised}
use nitpicker_daemon.Python.Exec.{Exec, pure, raise, lift, gets, try_except, rescue, after, ◌>>=◌}

module _ {ℓ} {S A : Type ℓ} where
  abbrev pub Post : (A → S → Type ℓ) → (Error → S → Type ℓ) → Result A → S → Type ℓ
  Post Q E (ok a) s = Q a s
  Post Q E (raised e) s = E e s

  -- From a state with `P`, `m` returns a value with `Q` or raises an error with `E`.
  pub record Triple (P : S → Type ℓ) (m : Exec S A) (Q : A → S → Type ℓ) (E : Error → S → Type ℓ)
      : Type ℓ where
    pub at : (s : S) → P s → Post Q E (m s).0 (m s).1

  pub Triple-pure :
      {P : S → Type ℓ} {Q : A → S → Type ℓ} {E : Error → S → Type ℓ} (a : A)
      → ((s : S) → P s → Q a s)
      → Triple P (pure a) Q E
  unfolding pure
  Triple-pure a h = record { at = h }

  pub Triple-raise :
      {P : S → Type ℓ} {Q : A → S → Type ℓ} {E : Error → S → Type ℓ} (e : Error)
      → ((s : S) → P s → E e s)
      → Triple P (raise e) Q E
  unfolding raise
  Triple-raise e h = record { at = h }

  pub Triple-lift :
      {P : S → Type ℓ} {Q : A → S → Type ℓ} {E : Error → S → Type ℓ} (r : Result A)
      → ((s : S) → P s → Post Q E r s)
      → Triple P (lift r) Q E
  unfolding lift
  Triple-lift r h = record { at = h }

  pub Triple-gets :
      {P : S → Type ℓ} {Q : A → S → Type ℓ} {E : Error → S → Type ℓ} (f : S → A)
      → ((s : S) → P s → Q (f s) s)
      → Triple P (gets f) Q E
  unfolding gets
  Triple-gets f h = record { at = h }

  Post-weaken :
      (Q Q' : A → S → Type ℓ) (E E' : Error → S → Type ℓ) (r : Result A) (s : S)
      → ((a : A) → Q a s → Q' a s)
      → ((e : Error) → E e s → E' e s)
      → Post Q E r s
      → Post Q' E' r s
  Post-weaken Q Q' E E' (ok a) s q e h = q a h
  Post-weaken Q Q' E E' (raised x) s q e h = e x h

  pub Triple-weaken :
      {P P' : S → Type ℓ} {Q Q' : A → S → Type ℓ} {E E' : Error → S → Type ℓ} {m : Exec S A}
      → Triple P m Q E
      → ((s : S) → P' s → P s)
      → ((a : A) (s : S) → Q a s → Q' a s)
      → ((e : Error) (s : S) → E e s → E' e s)
      → Triple P' m Q' E'
  Triple-weaken {Q} {Q'} {E} {E'} {m} t p q e = record {
    at = λ s h.
        Post-weaken Q Q' E E' (m s).0 (m s).1 (λ a. q a (m s).1) (λ x. e x (m s).1)
          (t.at s (p s h));
  }

  Post-rescue :
      {Q : A → S → Type ℓ} {E F : Error → S → Type ℓ} (r : Result A) (s : S) (h : Error → Exec S A)
      → ((e : Error) → Triple (F e) (h e) Q E)
      → Post Q F r s
      → Post Q E (rescue r h s).0 (rescue r h s).1
  Post-rescue (ok a) s h k p = p
  Post-rescue (raised e) s h k p = (k e).at s p

  -- what holds after the error holds before the handler
  pub Triple-try :
      {P : S → Type ℓ} {Q : A → S → Type ℓ} {E F : Error → S → Type ℓ} {m : Exec S A}
      {h : Error → Exec S A}
      → Triple P m Q F
      → ((e : Error) → Triple (F e) (h e) Q E)
      → Triple P (try_except m h) Q E
  unfolding try_except
  Triple-try {m} {h} t k = record { at = λ s p. Post-rescue (m s).0 (m s).1 h k (t.at s p) }

module _ {ℓ} {S A B : Type ℓ} where
  Post-after :
      {Q : A → S → Type ℓ} {R : B → S → Type ℓ} {E : Error → S → Type ℓ} (r : Result A) (s : S)
      (f : A → Exec S B)
      → ((a : A) → Triple (Q a) (f a) R E)
      → Post Q E r s
      → Post R E (after r f s).0 (after r f s).1
  Post-after (ok a) s f k p = (k a).at s p
  Post-after (raised e) s f k p = p

  pub Triple-bind :
      {P : S → Type ℓ} (Q : A → S → Type ℓ) {R : B → S → Type ℓ} {E : Error → S → Type ℓ}
      {m : Exec S A} {f : A → Exec S B}
      → Triple P m Q E
      → ((a : A) → Triple (Q a) (f a) R E)
      → Triple P (m >>= f) R E
  unfolding ◌>>=◌
  Triple-bind Q {m} {f} t k = record { at = λ s p. Post-after (m s).0 (m s).1 f k (t.at s p) }

module _ {ℓ} {S A : Type ℓ} where
  pub Triple-if :
      {P : S → Type ℓ} {Q : A → S → Type ℓ} {E : Error → S → Type ℓ} (b : Bool) {m n : Exec S A}
      → (b ≡ true → Triple P m Q E)
      → (b ≡ false → Triple P n Q E)
      → Triple P (if b then m else n) Q E
  Triple-if true t f = t refl
  Triple-if false t f = f refl
