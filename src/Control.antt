-- ===== src/Control.antt =====
-- control/app.py, and `run_manager_command` of app/main.py: how the commands reach the table that
-- the manager reads. A handler returns its status and what it leaves of the state; the listing
-- of the strategies and the text of a reply are left out.
pub mod Commands
use okx_hft_executor.Prelude.{
  ℕ, suc, String, Bool, true, false, Option, none, some, List, [], ◌∷◌, ◌++◌, if◌then◌else◌, str_eq,
  ltb,
}
use okx_hft_executor.Manager.{
  Manager, Config, Command, CommandType, enable, disable, restart, pending, DesiredState, enabled,
  RuntimeState, stopped, update, bootstrap_registry,
}

-- `status.HTTP_503_SERVICE_UNAVAILABLE`, `status.HTTP_401_UNAUTHORIZED`, and 200
pub data Status : Type 0 where
  accepted unavailable unauthorized : Status

abbrev token_text : Option String → String
token_text none = ""
token_text (some token) = token

abbrev is_key : Option String → String → Bool
is_key none token = false
is_key (some key) token = str_eq key token

-- `_verify_token`, on the configured token and the header
unfoldable pub verify_token : Option String → Option String → Status
verify_token configured header =
    if str_eq (token_text configured) ""
    then unavailable
    else if is_key header (token_text configured)
    then accepted
    else unauthorized

-- The greatest id so far: rows are never deleted, so that the next one is its successor.
abbrev pub last_id : List Command → ℕ
last_id [] = 0
last_id (c ∷ cs) = let rest = last_id cs in if ltb rest c.id then c.id else rest

abbrev pub new_command : String → CommandType → Option String → Manager → Command
new_command name command_type mode m = record {
  id = suc (last_id m.commands);
  strategy_name = name;
  command_type = command_type;
  command_mode = mode;
  status = pending;
}

-- `enqueue_strategy_command`
unfoldable pub enqueue_strategy_command : String → CommandType → Option String → Manager → Manager
enqueue_strategy_command name command_type mode m = record m {
  commands = m.commands ++ new_command name command_type mode m ∷ [];
}

-- `upsert_strategy_registry`
unfoldable pub upsert_strategy_registry :
    String → String → DesiredState → RuntimeState → Manager → Manager
upsert_strategy_registry name inst_id desired runtime m = record m {
  registry =
      update name (some (record { row_inst_id = inst_id; desired = desired; runtime = runtime }))
        m.registry;
}

abbrev pub mode_text : Bool → String
mode_text is_force = if is_force then "force" else "drain"

pub data Request : Type 0 where
  enable_strategy : String → Option String → Request
  disable_strategy : String → Bool → Request
  restart_strategy : String → Request

-- `if inst_id: store.upsert_strategy_registry(...)`
abbrev register : String → Option String → Manager → Manager
register name none m = m
register name (some inst_id) m =
    if str_eq inst_id "" then m else upsert_strategy_registry name inst_id enabled stopped m

-- The handler of a request whose token was accepted
unfoldable pub handle : Request → Manager → Manager
unfolding upsert_strategy_registry enqueue_strategy_command
handle (enable_strategy name inst_id) m =
    enqueue_strategy_command name enable none (register name inst_id m)
handle (disable_strategy name is_force) m =
    enqueue_strategy_command name disable (some (mode_text is_force)) m
handle (restart_strategy name) m = enqueue_strategy_command name restart none m

-- A request with its token
unfoldable pub serve : Option String → Option String → Request → Manager → Status × Manager
unfolding verify_token handle
serve configured header request m = elim (verify_token configured header) [
  | accepted ↦ (accepted, handle request m)
  | unavailable ↦ (unavailable, m)
  | unauthorized ↦ (unauthorized, m)
]

-- `if name: store.enqueue_strategy_command(...)`
abbrev enqueue_if : Option String → CommandType → Option String → Manager → Manager
enqueue_if none command_type mode m = m
enqueue_if (some name) command_type mode m =
    if str_eq name "" then m else enqueue_strategy_command name command_type mode m

-- `run_manager_command`. `is_registry_empty` is whether the table of strategies has no row.
unfoldable pub run_manager_command :
    Bool → List Config → Option String → Option String → String → Option String → Manager → Manager
unfolding bootstrap_registry enqueue_strategy_command
run_manager_command is_registry_empty configs strategy_enable strategy_disable disable_mode
      strategy_restart m =
    let m0 = if is_registry_empty then bootstrap_registry configs m else m in
    enqueue_if strategy_restart restart none (
      enqueue_if strategy_disable disable (some disable_mode)
        (enqueue_if strategy_enable enable none m0))
