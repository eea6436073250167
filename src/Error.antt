-- ===== src/Error.antt =====
-- src/error.rs and `std::io::Error`. What the payload of a foreign error prints is its text.
use shenron.Common.{Text}

-- `std::io::ErrorKind`, as far as the source looks at it.
pub data ErrorKind : Type 0 where
  not_found permission_denied already_exists unsupported other : ErrorKind

pub record IoError : Type 0 where
  pub kind : ErrorKind
  pub message : Text

pub data Error : Type 0 where
  ssh keys ssh_key : Text → Error
  io : IoError → Error
  protocol config panic int : Text → Error

pub data Result {ℓ} (E : Type 0) (A : Type ℓ) : Type ℓ where
  ok : A → Result E A
  err : E → Result E A

module _ {ℓ} {E F : Type 0} {A : Type ℓ} where
  abbrev pub map_err : (E → F) → Result E A → Result F A
  map_err f (ok a) = ok a
  map_err f (err e) = err (f e)

-- The operator `?`, for results.
infixl 5 ◌>>=◌ ◌>>◌
abbrev pub ◌>>=◌ {ℓ κ} :
    {E : Type 0} {A : Type ℓ} {B : Type κ} → Result E A → (A → Result E B) → Result E B
ok a >>= f = f a
err e >>= f = err e

abbrev pub ◌>>◌ {ℓ} : {E : Type 0} {B : Type ℓ} → Result E (Unit {0}) → Result E B → Result E B
m >> k = m >>= λ _. k

-- `?` on a fallible call that changes a state, and what follows it.
abbrev pub then_do : {E A B D : Type 0} → (A → D → D × Result E B) → D × Result E A → D × Result E B
then_do k (d, ok a) = k a d
then_do k (d, err e) = (d, err e)

-- `?` from `io::Error`.
abbrev pub lift_io : {A D : Type 0} → D × Result IoError A → D × Result Error A
lift_io (d, ok a) = (d, ok a)
lift_io (d, err e) = (d, err (io e))
