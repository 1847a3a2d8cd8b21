-- ===== src/Syscall/Tests.antt =====
-- A program that ends.
use mylysos.Base.{[]}
use mylysos.Process.Samples.{three}
use mylysos.Syscall.{System}
use mylysos.Syscall.Serviced.{Serviced}

abbrev system : System
system = record {
  kernel = record three { current_thread = 11 };
  screen = record { cursor_x = 0; cursor_y = 0; memory = λ a. 0; ports = [] };
  gate = λ i. record {
    offset_1 = 0;
    offset_2 = 0;
    selector = 0;
    count = 0;
    kind = 0;
    offset_3 = 0;
    offset_4 = 0;
  };
  syscall_stack = 0;
}
