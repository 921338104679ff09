-- ===== src/Core/Client/Monad.antt =====
-- A step of the client: the session changes also where the step fails.
use bolt.Prelude.{Result, ok, err}
use bolt.Proto.Errors.{ClientError}

abbrev pub M : Type 0 → Type 0 → Type 0
M S A = S → S × Result ClientError A

abbrev pub pure : {S A : Type 0} → A → M S A
pure a s = (s, ok a)

abbrev pub fail : {S A : Type 0} → ClientError → M S A
fail e s = (s, err e)

-- A value that was computed, with `?`.
abbrev pub lift : {S A : Type 0} → Result ClientError A → M S A
lift r s = (s, r)

-- The rest of a block, after a step: `?` returns the error at once.
abbrev pub after :
    {S A B : Type 0} → S × Result ClientError A → (A → M S B) → S × Result ClientError B
after (s, ok a) f = f a s
after (s, err e) f = (s, err e)

infixl 5 ◌>>=◌ ◌>>◌
abbrev pub ◌>>=◌ : {S A B : Type 0} → M S A → (A → M S B) → M S B
◌>>=◌ m f s = after (m s) f

abbrev pub ◌>>◌ : {S B : Type 0} → M S (Unit {0}) → M S B → M S B
m >> k = m >>= λ u. k
