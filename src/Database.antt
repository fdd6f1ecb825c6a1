-- ===== src/Database.antt =====
-- What indexer/src/database.rs works on: the statements that it hands to the connection pool, and
-- what it calls.
pub mod Statements
pub mod Positions
pub mod Upserts
use omnipair_indexer.Base.{
  ℕ, ◌-◌, ◌^◌, Bool, Option, none, some, List, String, ltb, if◌then◌else◌, CarbonResult, ok, err,
  custom,
}
use omnipair_indexer.Solana.{Pubkey}
use omnipair_indexer.Action.{Action}
use omnipair_indexer.Borsh.{ℤ, pos, negsuc}

-- A value bound to a query.
pub data Value : Type 0 where
  text : String → Value
  boolean : Bool → Value
  number : ℕ → Value
  integer : ℤ → Value
  time : ℕ → Value
  optional : Option ℕ → Value
  blob : List ℕ → Value

-- `INSERT INTO table (columns) VALUES (values) ON CONFLICT (conflict) DO UPDATE SET`, for each of
-- `excluded`, the column to the inserted value, and for each of `touched`, to `now()`. With no
-- conflict columns it is a plain INSERT.
pub record Statement : Type 0 where
  pub table : String
  pub columns : List String
  pub values : List Value
  pub conflict : List String
  pub excluded : List String
  pub touched : List String

-- What the code calls: the pool and its queries, of which an error is a text, the clock, the texts
-- of keys and of errors, and the conversion of a fee by floating-point numbers,
-- `(a as f64 / b as f64 * fee as f64) as u64`. `initialized` is whether `DB_POOL` is set.
pub record Database (S : Type 0) : Type 0 where
  pub initialized : S → Bool
  pub execute : Statement → S → Option String × S
  pub now : S → ℕ × S
  pub to_string : Pubkey → String
  pub format : (what error : String) → String
  pub convert : (a b fee : ℕ) → ℕ

-- `n as i64` of a `u64`.
unfoldable pub as_i64 : ℕ → ℤ
as_i64 n = if ltb n (2 ^ 63) then pos n else negsuc ((2 ^ 64 - 1) - n)

module _ {S : Type 0} (db : Database S) where
  unfoldable pub get_db_pool : Action S (Unit {0})
  get_db_pool s =
      if db.initialized s
      then (ok tt, s)
      else (err (custom "Database pool not initialized. Call init_db_pool() first"), s)

  -- `if let Err(e) = result { return Err(Custom(format!("what: {}", e))) }`
  abbrev pub checked_result : String → Option String × S → CarbonResult (Unit {0}) × S
  checked_result what (none, s) = (ok tt, s)
  checked_result what (some e, s) = (err (custom (db.format what e)), s)

  abbrev pub query : String → Statement → Action S (Unit {0})
  query what statement s = checked_result what (db.execute statement s)

  abbrev pub clock : Action S ℕ
  clock s = let (t, s') = db.now s in (ok t, s')
