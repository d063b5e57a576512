-- ===== src/Result.antt =====
-- error/mod.rs: the errors that the modelled code returns, as values, and the shape of a method
-- that changes shared state and may fail. What was written before an error stays written.
use kiomq.Prelude.{ℕ, ◌≡◌, refl, Option, none, some}

pub data KioError : Type 0 where
  -- The limit and the delay that was asked for.
  delay_below_allowed_limit : ℕ → ℕ → KioError
  job_not_found missed_delay_deadline : KioError
  -- A text that is not of the type that is asked for.
  json_error : KioError
  worker_already_running worker_already_closed : KioError
  -- A panic of `expect`.
  panicked : KioError

pub data Result (A : Type 0) : Type 0 where
  ok : A → Result A
  err : KioError → Result A

-- A method on the state `S`.
abbrev pub Action : Type 0 → Type 0 → Type 0
Action S A = S → Result A × S

module _ {S A : Type 0} where
  abbrev pub pure : A → Action S A
  pure a s = (ok a, s)

  abbrev pub raise : KioError → Action S A
  raise e s = (err e, s)

  -- A call that cannot fail.
  abbrev pub call : (S → A × S) → Action S A
  call f s = (ok (f s).0, (f s).1)

  abbrev pub gets : (S → A) → Action S A
  gets f s = (ok (f s), s)

  abbrev pub or_raise : Option A → KioError → Action S A
  or_raise none e s = (err e, s)
  or_raise (some a) e s = (ok a, s)

module _ {S : Type 0} where
  abbrev pub update : (S → S) → Action S Unit
  update f s = (ok tt, f s)

module _ {S A B : Type 0} where
  abbrev pub continue : Result A × S → (A → Action S B) → Result B × S
  continue (ok a, s) f = f a s
  continue (err e, s) f = (err e, s)

  infixl 5 ◌>>=◌ ◌>>◌
  abbrev pub ◌>>=◌ : Action S A → (A → Action S B) → Action S B
  ◌>>=◌ m f s = continue (m s) f

  abbrev pub ◌>>◌ : Action S A → Action S B → Action S B
  ◌>>◌ m k s = continue (m s) (λ _. k)

module _ {S A B : Type 0} where
  -- A chain goes on with the value of a first step that succeeds, and ends at an error.
  pub continue-ok :
      (r : Result A × S) (a : A) (f : A → Action S B) → r.0 ≡ ok a → continue r f ≡ f a r.1
  continue-ok r a f e = rw (e, continue) refl

  pub continue-err :
      (r : Result A × S) (e : KioError) (f : A → Action S B)
      → r.0 ≡ err e
      → continue r f ≡ (err e, r.1)
  continue-err r e f h = rw (h, continue) refl

  -- What both parts of a chain leave as it is.
  pub continue-kept :
      {X : Type 0} (g : S → X) (x : X) (r : Result A × S) (f : A → Action S B)
      → g r.1 ≡ x
      → ((a : A) (s : S) → g s ≡ x → g (f a s).1 ≡ x)
      → g (continue r f).1 ≡ x
  continue-kept g x (ok a, s) f h k = k a s h
  continue-kept g x (err e, s) f h k = h
