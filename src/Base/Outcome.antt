-- ===== src/Base/Outcome.antt =====
-- Errors and results of indexer/crates/core/src/error.rs. A Rust panic is a third outcome.
use Prim.Native.String.{String}
use mathlib.Core.Bool.{Bool, true, false}
use mathlib.Core.Option.{Option, none, some}

-- `UpdateType` of datasource.rs, which one error carries.
pub data UpdateType : Type 0 where
  account_update transaction account_deletion : UpdateType

pub data Error : Type 0 where
  missing_update_type_in_datasource : UpdateType → Error
  failed_to_receive_updates : String → Error
  missing_fee_payer : Error
  missing_inner_instructions : Error
  missing_account_in_transaction : Error
  missing_instruction_data : Error
  failed_to_consume_datasource : String → Error
  custom : String → Error

-- `CarbonResult<T>`, with the outcome of a call that panics.
pub data CarbonResult {ℓ} (A : Type ℓ) : Type ℓ where
  ok : A → CarbonResult A
  err : Error → CarbonResult A
  panic : CarbonResult A

infixl 5 ◌>>=◌ ◌>>◌
abbrev pub ◌>>=◌ {ℓ κ} :
    {A : Type ℓ} {B : Type κ} → CarbonResult A → (A → CarbonResult B) → CarbonResult B
ok a >>= f = f a
err e >>= f = err e
panic >>= f = panic

abbrev pub ◌>>◌ {ℓ κ} : {A : Type ℓ} {B : Type κ} → CarbonResult A → CarbonResult B → CarbonResult B
m >> k = m >>= λ _. k

-- `assert!(b)`.
abbrev pub assert : Bool → CarbonResult (Unit {0})
assert true = ok tt
assert false = panic

-- `o.ok_or(e)?`.
abbrev pub ok_or {ℓ} : {A : Type ℓ} → Option A → Error → CarbonResult A
ok_or none e = err e
ok_or (some a) e = ok a
