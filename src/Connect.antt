-- ===== src/Connect.antt =====
-- `connect_args_for` of backend/app/db.py: how the driver is asked to connect.
use Prim.Native.Char.{code}
use text.Mathlib.Text.{find?}
use occj.Prelude.{
  ℕ, String, Bool, true, false, ◌&&◌, [], ◌∷◌, nat_eq, is_some, fstring, if◌then◌else◌,
}

-- the keyword arguments, by the driver that takes them
pub data ConnectArgs : Type 0 where
  -- `check_same_thread`
  sqlite : Bool → ConnectArgs
  -- `prepared_statement_cache_size`, and the name of a statement from what `uuid4` gives
  asyncpg : ℕ → (String → String) → ConnectArgs
  no_args : ConnectArgs

-- `text.startswith(prefix)`
unfoldable pub starts_with : String → String → Bool
starts_with String.[] text = true
starts_with (String.◌∷◌ c cs) String.[] = false
starts_with (String.◌∷◌ c cs) (String.◌∷◌ d ds) = nat_eq (code c) (code d) && starts_with cs ds

abbrev pub statement_name : String → String
statement_name unique = fstring ("__asyncpg_" ∷ unique ∷ "__" ∷ [])

unfoldable pub connect_args_for : String → ConnectArgs
unfolding starts_with
connect_args_for database_url =
    if starts_with "sqlite" database_url
    then sqlite false
    else if is_some (find? database_url "+asyncpg")
    then asyncpg 0 statement_name
    else no_args
