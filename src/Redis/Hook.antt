-- ===== src/Redis/Hook.antt =====
-- redis/hook.go: the span and the log line of a command. The tracer, the logger and the clock are
-- left out: what the hook hands to them is its result.
use Prim.Native.Char.{Char}
use lunaship.Base.{
  String, Bool, true, false, not, Option, none, some, List, ◌∷◌, ◌≡◌, ◌↔◌, ◌≢◌, if◌then◌else◌, ◌==◌,
  arith,
}
use lunaship.Base.Text.{trim_space, to_lower, is_empty, str_or_default}

-- An argument of a command: a string, or anything else.
pub data Arg : Type 0 where
  text : String → Arg
  opaque : Arg

-- A redis.Cmder by its name and its arguments.
pub record Cmder : Type 0 where
  pub name : String
  pub args : List Arg

-- How a command ends with an error: redis.Nil, or another error.
pub data CmdError (E : Type 0) : Type 0 where
  nil_reply : CmdError E
  failed : E → CmdError E

unfoldable pub is_redis_nil_reply : {E : Type 0} → Option (CmdError E) → Bool
is_redis_nil_reply none = false
is_redis_nil_reply (some nil_reply) = true
is_redis_nil_reply (some (failed e)) = false

abbrev is_some : {E : Type 0} → Option (CmdError E) → Bool
is_some none = false
is_some (some e) = true

-- args[1].(string), or the empty text.
abbrev second_text : List Arg → String
second_text (a ∷ text s ∷ rest) = s
second_text _ = ""

module _ (lower : Char → Char) where
  unfoldable pub command_name : Option Cmder → String
  command_name none = "unknown"
  command_name (some cmd) = str_or_default (trim_space (to_lower lower cmd.name)) "unknown"

  unfoldable pub lua_sha_from_command : Option Cmder → String
  lua_sha_from_command none = ""
  lua_sha_from_command (some cmd) =
      if to_lower lower (trim_space cmd.name) == "evalsha"
      then trim_space (second_text cmd.args)
      else ""

  -- The attributes and the recorded error with which endCommandSpan ends the span.
  pub record CommandSpan (E : Type 0) : Type 0 where
    pub command : String
    pub error_flag : Bool
    pub nil_flag : Bool
    pub sha : Option String
    pub recorded : Option (CmdError E)

  abbrev sha_field : String → Option String
  sha_field sha = if is_empty sha then none else some sha

  unfoldable pub end_command_span :
      {E : Type 0} → Option Cmder → Option (CmdError E) → CommandSpan E
  end_command_span cmd error =
      let is_nil = is_redis_nil_reply error in
      record {
        command = command_name cmd;
        error_flag = if is_some error then not is_nil else false;
        nil_flag = is_nil;
        sha = sha_field (lua_sha_from_command cmd);
        recorded = if is_nil then none else error;
      }

  -- The line that logCommand writes: its level, and the fields that depend on the command.
  pub record CommandLine (E : Type 0) : Type 0 where
    pub at_error : Bool
    pub command : String
    pub sha : Option String
    pub nil_field : Bool
    pub error_field : Option (CmdError E)

  abbrev line_of : {E : Type 0} → Option Cmder → Bool → Bool → Option (CmdError E) → CommandLine E
  line_of cmd at_error nil_field shown = record {
    at_error = at_error;
    command = command_name cmd;
    sha = sha_field (lua_sha_from_command cmd);
    nil_field = nil_field;
    error_field = shown;
  }

  unfoldable pub log_command : {E : Type 0} → Option Cmder → Option (CmdError E) → CommandLine E
  log_command cmd error =
      if is_some error
      then if is_redis_nil_reply error
        then line_of cmd false true none
        else line_of cmd true false error
      else line_of cmd false false none

  -- The span and the log line of a command agree: they name the same command and script, and the
  -- span is marked as an error exactly when the line is written at the error level, which is when the
  -- command has failed with another error than the nil reply.
  pub span-agrees_with_log :
      {E : Type 0} (cmd : Option Cmder) (error : Option (CmdError E))
      → ((end_command_span cmd error).command ≡ (log_command cmd error).command)
        × ((end_command_span cmd error).sha ≡ (log_command cmd error).sha)
        × ((end_command_span cmd error).error_flag ≡ (log_command cmd error).at_error)
        × ((end_command_span cmd error).nil_flag ≡ (log_command cmd error).nil_field)
        × ((end_command_span cmd error).recorded ≡ (log_command cmd error).error_field)
        × (((log_command cmd error).at_error ≡ true) ↔ ((error ≢ none) × (error ≢ some nil_reply)))
  unfolding end_command_span log_command is_redis_nil_reply
  span-agrees_with_log cmd none = ground arith
  span-agrees_with_log cmd (some nil_reply) = ground arith
  span-agrees_with_log cmd (some (failed e)) = ground arith
