-- ===== src/Sessions/Scope.antt =====
-- multinexus/sessions/scope.py: the keys of channel, thread and task sessions.
use Prim.Native.String.{◌++◌}
use multinexus.Base.{String}

unfoldable pub channel_scope : String → String
channel_scope channel_id = "channel:" ++ channel_id

unfoldable pub thread_scope : String → String
thread_scope thread_id = "thread:" ++ thread_id

unfoldable pub task_scope : String → String → String
task_scope workspace_id task_id = "task:" ++ (workspace_id ++ (":" ++ task_id))
