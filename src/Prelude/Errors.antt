-- ===== src/Prelude/Errors.antt =====
-- Go's error values and actions that may fail. What an action wrote before it failed stays written,
-- so the state comes back beside the error.
use Prim.Native.String.{String}
use mathlib.Core.Bool.{Bool, true, false}
use mathlib.Core.Option.{Option, none, some}
use mathlib.Core.Logic.{◌⊎◌, inl, inr}
use mathlib.Core.Path.{◌≡◌, refl}

-- The sentinel errors of the packages, a text made by `errors.New`, and `fmt.Errorf("…: %w", err)`.
pub data Error : Type 0 where
  not_found duplicate_key canceled deadline_exceeded : Error
  invalid_parameters nil_event empty_stream empty_group redis_nil : Error
  message : String → Error
  wrap : String → Error → Error

-- errors.Is(err, ErrNotFound), errors.Is(err, ErrDuplicateKey), errors.Is(err, context.Canceled)
unfoldable pub is_not_found : Error → Bool
is_not_found not_found = true
is_not_found (wrap s e) = is_not_found e
is_not_found _ = false

unfoldable pub is_duplicate_key : Error → Bool
is_duplicate_key duplicate_key = true
is_duplicate_key (wrap s e) = is_duplicate_key e
is_duplicate_key _ = false

unfoldable pub is_canceled : Error → Bool
is_canceled canceled = true
is_canceled (wrap s e) = is_canceled e
is_canceled _ = false

-- errors.Is(err, redis.Nil)
unfoldable pub is_redis_nil : Error → Bool
is_redis_nil redis_nil = true
is_redis_nil (wrap s e) = is_redis_nil e
is_redis_nil _ = false

pub data Result {ℓ} (A : Type ℓ) : Type ℓ where
  ok : A → Result A
  err : Error → Result A

-- `ctx.Err()`, as the call finds it.
abbrev pub Context : Type 0
Context = Option Error

abbrev pub Exec {ℓ} : Type 0 → Type ℓ → Type ℓ
Exec S A = S → Result A × S

module _ {ℓ} {S : Type 0} {A : Type ℓ} where
  abbrev pub pure : A → Exec S A
  pure a s = (ok a, s)

  abbrev pub fail : Error → Exec S A
  fail e s = (err e, s)

-- `if err := ctx.Err(); err != nil { return err }`
abbrev pub check : {S : Type 0} → Context → Exec S (Unit {0})
check none s = (ok tt, s)
check (some e) s = (err e, s)

-- The error of `e` under a text, `fmt.Errorf("text: %w", err)`.
abbrev pub wrapped {ℓ} : {A : Type ℓ} → String → Result A → Result A
wrapped s (ok a) = ok a
wrapped s (err e) = err (wrap s e)

module _ {ℓ κ} {S : Type 0} {A : Type ℓ} {B : Type κ} where
  abbrev pub proceed : Result A → (A → Exec S B) → Exec S B
  proceed (ok a) f s = f a s
  proceed (err e) f s = (err e, s)

  infixl 5 ◌>>=◌ ◌>>◌
  abbrev pub ◌>>=◌ : Exec S A → (A → Exec S B) → Exec S B
  ◌>>=◌ m f s = let (r, s') = m s in proceed r f s'

  abbrev pub ◌>>◌ : Exec S A → Exec S B → Exec S B
  m >> k = m >>= λ _. k

pub Result-cases {ℓ} :
    {A : Type ℓ} (r : Result A) → ((e : Error) × (r ≡ err e)) ⊎ ((a : A) × (r ≡ ok a))
Result-cases (ok a) = inr (a, refl)
Result-cases (err e) = inl (e, refl)
