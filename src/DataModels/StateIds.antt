-- ===== src/DataModels/StateIds.antt =====
-- persistence/data_models/state_execution_id.go: the identity of a state execution and its
-- printed form, which is the key of the local queue commands. `%v` of an int32 and
-- strconv.ParseInt are written out for the sequences that occur, which are not negative.
pub mod Decimal
mod Split
use xdb.Prelude.{
  ℕ, ◌^◌, ◌<◌, ◌≡◌, refl, sym, ap, ◌∙◌, arith, ◌∷◌, ◌++◌, Option, none, some, Result, ok, err,
  invalid_format, ◌>>=◌, GoString,
}
use Decimal.{format_int, parse_int, parse_int-format_int, format_int-NoHyphen}
use Split.{split_last_hyphen, split_last_hyphen-append}

pub record StateExecutionId : Type 0 where
  pub state_id : GoString
  pub state_id_sequence : ℕ

-- GetStateExecutionId
unfoldable pub get_state_execution_id : StateExecutionId → GoString
get_state_execution_id s = s.state_id ++ b'-' ∷ format_int s.state_id_sequence

parse_parts : Option (GoString × GoString) → Result StateExecutionId
parse_parts none = err invalid_format
parse_parts (some (state_id, rest)) = do
  sequence ← parse_int rest
  ok (record { state_id = state_id; state_id_sequence = sequence })

-- NewStateExecutionIdFromString
unfoldable pub new_state_execution_id_from_string : GoString → Result StateExecutionId
unfolding parse_parts
new_state_execution_id_from_string s = parse_parts (split_last_hyphen s)

-- Reading back the printed form of an id gives the id, also where the state id holds hyphens or
-- digits of its own, if the sequence is an int32.
pub new_state_execution_id_from_string-get_state_execution_id :
    (s : StateExecutionId)
    → s.state_id_sequence < 2 ^ 31
    → new_state_execution_id_from_string (get_state_execution_id s) ≡ ok s
unfolding new_state_execution_id_from_string get_state_execution_id
new_state_execution_id_from_string-get_state_execution_id s h =
    rw (split_last_hyphen-append s.state_id _ (format_int-NoHyphen s.state_id_sequence))
      (rw (parse_int-format_int s.state_id_sequence h))
