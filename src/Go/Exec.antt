-- ===== src/Go/Exec.antt =====
-- Calls of components outside the modelled code. A handler asks its environment; the environment
-- is any function of the calls made so far, so it may fail, remember, and be changed by others
-- between two calls. `Response c` is the type of what the call `c` returns. The calls made are
-- kept, newest first.
use dante_api_systems.Base.{String, List, ◌∷◌, ◌≡◌, ◌⊎◌, inl, inr, refl}
use dante_api_systems.Go.Errors.{Error, wrap}

-- A Go `(value, error)` pair, of which one half counts.
pub data Reply (A : Type 0) : Type 0 where
  answer : A → Reply A
  error : Error → Reply A

-- How a handler ends. A panic is no value: no error check sees it.
pub data Result (A : Type 0) : Type 0 where
  ok : A → Result A
  err : Error → Result A
  panic : Result A

-- `return fmt.Errorf("text: %w", err)` on the error of a whole action.
abbrev annotated : {A : Type 0} → String → Result A → Result A
annotated text (ok a) = ok a
annotated text (err e) = err (wrap text e)
annotated text panic = panic

module _ {Call : Type 0} (Response : Call → Type 0) where
  abbrev pub Env : Type 0
  Env = List Call → (c : Call) → Response c

  abbrev pub Exec : Type 0 → Type 0
  Exec A = Env → List Call → Result A × List Call

module _ {Call : Type 0} {Response : Call → Type 0} where
  abbrev pub ask : (c : Call) → Exec Response (Response c)
  ask c env h = (ok (env h c), c ∷ h)

module _ {Call : Type 0} {Response : Call → Type 0} {A : Type 0} where
  abbrev pub pure : A → Exec Response A
  pure a env h = (ok a, h)

  abbrev pub fail : Error → Exec Response A
  fail e env h = (err e, h)

  abbrev pub crash : Exec Response A
  crash env h = (panic, h)

  -- `if err != nil { return fmt.Errorf("text: %w", err) }`
  abbrev pub or_wrap : String → Reply A → Exec Response A
  or_wrap text (answer a) env h = (ok a, h)
  or_wrap text (error e) env h = (err (wrap text e), h)

  abbrev pub annotate : String → Exec Response A → Exec Response A
  annotate text m env h = let (r, h') = m env h in (annotated text r, h')

module _ {Call : Type 0} {Response : Call → Type 0} {A B : Type 0} where
  abbrev pub continue :
      Result A → (A → Exec Response B) → Env Response → List Call → Result B × List Call
  continue (ok a) f env h = f a env h
  continue (err e) f env h = (err e, h)
  continue panic f env h = (panic, h)

  infixl 5 ◌>>=◌ ◌>>◌
  abbrev pub ◌>>=◌ : Exec Response A → (A → Exec Response B) → Exec Response B
  ◌>>=◌ m f env h = let (r, h') = m env h in continue r f env h'

  abbrev pub ◌>>◌ : Exec Response A → Exec Response B → Exec Response B
  m >> k = m >>= λ _. k

-- To split on how an action ended and keep the equation.
pub Result-cases :
    {A : Type 0} (r : Result A) → ((a : A) × (r ≡ ok a)) ⊎ ((e : Error) × (r ≡ err e)) ⊎ (r ≡ panic)
Result-cases (ok a) = inl (a, refl)
Result-cases (err e) = inr (inl (e, refl))
Result-cases panic = inr (inr refl)

-- To split on a reply and keep the equation.
pub Reply-cases :
    {A : Type 0} (r : Reply A) → ((a : A) × (r ≡ answer a)) ⊎ ((e : Error) × (r ≡ error e))
Reply-cases (answer a) = inl (a, refl)
Reply-cases (error e) = inr (e, refl)
