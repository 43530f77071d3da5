-- ===== src/Tests/Launching.antt =====
-- `mi_connect_local` at concrete answers of the operating system.
use libmigdb.Base.{true, false, none, refl}
use libmigdb.Launch.{Launch}
use libmigdb.Launch.Failure.{GivesBack, mi_connect_local-GivesBack}
use libmigdb.Tests.Parser.{calm}
use libmigdb.Tests.Debugging.{answers}

-- gdb is started and ends at once.
abbrev short_lived : Launch
short_lived = record {
  executable = true;
  pipe_to = true;
  pipe_from = true;
  stream_to = true;
  stream_from = true;
  forked = true;
  child_running = false;
}

mi_connect_local-GivesBack_example : GivesBack short_lived answers none calm
mi_connect_local-GivesBack_example =
    mi_connect_local-GivesBack short_lived answers none calm refl refl
