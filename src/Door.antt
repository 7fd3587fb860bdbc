-- ===== src/Door.antt =====
-- sflow/sflow_door.c: what the door's handler does with a command, and what it returns to the
-- client. The strings of a command are those before their 0.
use sflow.Common.{ℕ, List, Option, none, some, Outcome, ok, fault, ◌>>=◌, uninitialised}
use sflow.Source.Registry.{Registry}
use sflow.Source.Add.{World}
use sflow.Source.Pipeline.{add_source}
use sflow.Source.Remove.{remove_source}
use sflow.Source.Show.{ShowReply, show_src}

-- sflowd_door_cmd_type_t with sflowd_door_asrc_t, sflowd_door_rsrc_t and sflowd_door_ssrc_t
pub data Command : Type 0 where
  add_command : (srcname typestr propstr : List ℕ) → Command
  remove_command : (srcname typestr : List ℕ) → Command
  show_command : (srcname typestr : List ℕ) → Command
  other_command : ℕ → Command

-- What door_return sends: an error number, where `none` is -1, or the sources
pub data Reply : Type 0 where
  error_number : Option ℕ → Reply
  sources : ShowReply → Reply

-- The pointer that the branch of SFLOWD_CMD_REMOVE_SOURCE hands on: `asrc`, which only the other
-- branch writes.
abbrev pub handed_on : Command → Outcome Command
handed_on (remove_command srcname typestr) = fault uninitialised
handed_on command = ok command

-- sflowd_door_handler. For another command there is no reply.
unfoldable pub door_handler :
    (ℕ → World) → List ℕ → (ℕ → ℕ) → Command → Registry → Outcome (Option Reply × Registry)
door_handler world zones cancel (add_command srcname typestr propstr) r = do
  (err, req, r') ← add_source world zones srcname propstr typestr r
  ok (some (error_number err), r')
door_handler world zones cancel (remove_command srcname typestr) r = do
  asrc ← handed_on (remove_command srcname typestr)
  r' ← remove_source cancel srcname typestr r
  ok (some (error_number (some 0)), r')
door_handler world zones cancel (show_command srcname typestr) r = do
  slr ← show_src srcname typestr r
  ok (some (sources slr), r)
door_handler world zones cancel (other_command command) r = ok (none, r)
