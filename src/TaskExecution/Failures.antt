-- ===== src/TaskExecution/Failures.antt =====
-- What an execution may raise, and the code that the user is told.
use auto_reign.Prelude.{
  Bool, true, false, ◌||◌, Option, none, some, [], ◌∷◌, Text, codes, if◌then◌else◌, text_key,
  nat_beq,
}
use auto_reign.ChatBlocks.{unhashable}
use auto_reign.Reducer.{ReducerError, block_error, index_error, key_error, type_error}
use auto_reign.Tasks.{RepositoryError}

-- An `Exception`: of the reducer, of the runtime with a code of its own, of fastapi with the code in its
-- detail if it has one, of the repository, another ValueError with its message, the loss of the claim,
-- and any other, of the database among them.
pub data Failure : Type 0 where
  reducer_failure : ReducerError → Failure
  terminal_failure : Text → Failure
  http_failure : Option Text → Failure
  repository_failure : RepositoryError → Failure
  value_failure : Text → Failure
  claim_lost database_failure other_failure : Failure

-- `GeneratorExit`, and with it any other exception that is no `Exception`, is `closed`.
pub data Exit : Type 0 where
  failure : Failure → Exit
  closed : Exit

-- s.startswith(p)
unfoldable pub starts_with : Text → Text → Bool
starts_with [] s = true
starts_with (c ∷ p) [] = false
starts_with (c ∷ p) (d ∷ s) = let rest = starts_with p s in if nat_beq c d then rest else false

abbrev pub output_invalid : Text
output_invalid = codes "runtime_output_invalid"

abbrev pub provider_failed : Text
provider_failed = codes "provider_call_failed"

-- The codes of the reducer are two classes of their own; those of the chain and of the blocks are
-- ValueErrors whose message begins with the name of their module.
reducer_code : ReducerError → Text
reducer_code (block_error unhashable) = provider_failed
reducer_code index_error = provider_failed
reducer_code key_error = provider_failed
reducer_code type_error = provider_failed
reducer_code _ = output_invalid

abbrev non_empty : Text → Text
non_empty [] = provider_failed
non_empty (c ∷ code) = c ∷ code

-- `_safe_execution_error_code`
unfoldable pub safe_execution_error_code : Failure → Text
unfolding reducer_code starts_with
safe_execution_error_code (reducer_failure e) = reducer_code e
safe_execution_error_code (terminal_failure code) = code
safe_execution_error_code (http_failure none) = provider_failed
safe_execution_error_code (http_failure (some code)) = non_empty code
safe_execution_error_code (value_failure message) =
    if starts_with (codes "messages_chain_") message || starts_with (codes "chat_block_") message
    then output_invalid
    else provider_failed
safe_execution_error_code _ = provider_failed
