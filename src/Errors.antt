-- ===== src/Errors.antt =====
-- Chains of fallible steps, for code that returns at the first error.
use fast_task.Base.{Bool, true, false, Option, none, some, ◌≡◌, refl}
use fast_task.Jobs.Model.{Failure, Result, ok, err}

-- The step goes on where the test holds.
abbrev pub guard : Bool → Failure → Result (Unit {0})
guard test failure = elim test [ true ↦ ok tt | false ↦ err failure ]

abbrev pub or_err : {A : Type 0} → Option A → Failure → Result A
or_err none failure = err failure
or_err (some row) failure = ok row

infixl 5 ◌>>=◌
abbrev pub ◌>>=◌ : {A B : Type 0} → Result A → (A → Result B) → Result B
err failure >>= rest = err failure
ok value >>= rest = rest value

infixl 5 ◌>>◌
abbrev pub ◌>>◌ : {B : Type 0} → Result (Unit {0}) → Result B → Result B
step >> rest = step >>= (λ done. rest)

-- What a chain that succeeds says of its first step and of the others.
pub >>=-eq-ok :
    {A B : Type 0} (step : Result A) (rest : A → Result B) {final : B}
    → (step >>= rest) ≡ ok final
    → (value : A) × (step ≡ ok value) × (rest value ≡ ok final)
>>=-eq-ok (err failure) rest p = cc
>>=-eq-ok (ok value) rest p = (value, refl, p)

pub guard-eq-ok :
    (test : Bool) (failure : Failure) {u : Unit {0}} → guard test failure ≡ ok u → test ≡ true
guard-eq-ok true failure p = refl
guard-eq-ok false failure p = cc

-- A chain that starts with a test: the test held, and the rest succeeded.
pub guard->>-eq-ok :
    {B : Type 0} (test : Bool) (failure : Failure) (rest : Result B) {final : B}
    → (guard test failure >> rest) ≡ ok final
    → (test ≡ true) × (rest ≡ ok final)
guard->>-eq-ok true failure rest p = (refl, p)
guard->>-eq-ok false failure rest p = cc

pub or_err-eq-ok :
    {A : Type 0} (o : Option A) (failure : Failure) {row : A}
    → or_err o failure ≡ ok row
    → o ≡ some row
or_err-eq-ok none failure p = cc
or_err-eq-ok (some row) failure p = cc
