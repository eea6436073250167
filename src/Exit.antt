-- ===== src/Exit.antt =====
-- src/exit.rs: what a session reports when the handler chain returns.
use shenron.Common.{ℕ}
use shenron.Error.{Error, Result, ok, err}

pub data Exit : Type 0 where
  code : ℕ → Exit
  error : Error → Exit

-- `Exit::code`.
unfoldable pub exit_code : Exit → ℕ
exit_code (code n) = n
exit_code (error e) = 1

-- The trait `IntoExit`.
pub record IntoExit (A : Type 0) : Type 0 where
  pub into_exit : A → Exit

instance abbrev pub unit_exit : IntoExit (Unit {0})
unit_exit = record { into_exit = λ _. code 0 }

instance abbrev pub u32_exit : IntoExit ℕ
u32_exit = record { into_exit = λ n. code n }

instance abbrev pub exit_exit : IntoExit Exit
exit_exit = record { into_exit = λ e. e }

-- `impl IntoExit for Result<T, E>`, at `E = Error`.
abbrev pub result_into_exit : {A : Type 0} → IntoExit A → Result Error A → Exit
result_into_exit i (ok value) = i.into_exit value
result_into_exit i (err e) = error e

instance abbrev pub result_exit : {A : Type 0} ⦃i : IntoExit A⦄ → IntoExit (Result Error A)
result_exit ⦃i⦄ = record { into_exit = result_into_exit i }
