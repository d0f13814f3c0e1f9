-- ===== src/Main/Exits.antt =====
-- The io_uring program ends, and with which exit code.
use Prim.Native.String.{String}
use kernel_net.Prelude.{Bool, true, false, if◌then◌else◌}
use kernel_net.Arguments.{Parsed, usage, threw, parsed}
use kernel_net.IoUring
use kernel_net.Main.{Options, Exit, exited, terminated}

abbrev pub iouring_made : IoUring.Built → Bool
iouring_made (IoUring.threw closed) = false
iouring_made (IoUring.built server) = true

-- The exit code that the arguments and the constructor call for.
abbrev pub exit_code : (Options → Bool) → Parsed Options → Exit
exit_code made usage = exited 0
exit_code made threw = terminated
exit_code made (parsed o) = exited (if made o then 0 else 1)
