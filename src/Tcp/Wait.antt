-- ===== src/Tcp/Wait.antt =====
-- Methods that await a socket. The socket's events still to come are an explicit sequence, and the
-- state of a method that runs is what it reads from and these events. A method returns, throws, or
-- waits for an event that never comes.
use chwire.Prelude.{ℕ, List}
use chwire.Prelude.Result.{Error}

-- What the socket reports: a chunk of bytes, its end or close, an error.
pub data Event : Type 0 where
  chunk : List ℕ → Event
  finished : Event
  failed : Error → Event

pub data Wait {ℓ κ} (S : Type ℓ) (A : Type κ) : Type (ℓ ⊔ κ) where
  got : A → S → Wait S A
  threw : Error → S → Wait S A
  pending : S → Wait S A

abbrev pub Awaits {ℓ κ} : Type ℓ → Type κ → Type (ℓ ⊔ κ)
Awaits S A = S → Wait S A

module _ {ℓ κ} {S : Type ℓ} {A : Type κ} where
  abbrev pub done_with : A → Awaits S A
  done_with a s = got a s

  abbrev pub fails : Error → Awaits S A
  fails e s = threw e s

module _ {ℓ κ ι} {S : Type ℓ} {A : Type κ} {B : Type ι} where
  abbrev pub resume_with : Wait S A → (A → Awaits S B) → Wait S B
  resume_with (got a s) f = f a s
  resume_with (threw e s) f = threw e s
  resume_with (pending s) f = pending s

  infixl 5 ◌>>=◌ ◌>>◌
  abbrev pub ◌>>=◌ : Awaits S A → (A → Awaits S B) → Awaits S B
  ◌>>=◌ m f s = resume_with (m s) f

  abbrev pub ◌>>◌ : Awaits S A → Awaits S B → Awaits S B
  m >> n = m >>= λ _. n
