-- ===== src/Xv6/Vm/Tests.antt =====
-- Asg02/xv6-2/vm.c: an empty directory and two free pages.
use cs5460spring.Base.{ℕ, List, [], ◌∷◌, arith, true, if◌then◌else◌, ◌==◌}
use cs5460spring.Xv6.Kalloc.{Kmem}
use cs5460spring.Xv6.Vm.{deallocuvm}
use cs5460spring.Xv6.Vm.Shrink.{Ends, deallocuvm-Ends}

abbrev kernel_end : ℕ
kernel_end = 0x80100000

abbrev directory : ℕ
directory = 0x80103000

abbrev two_pages : List ℕ
two_pages = 0x80102000 ∷ 0x80101000 ∷ []

abbrev memory : Kmem
memory = record {
  word = λ a. if a == 0x80102000 then 0x80101000 else 0;
  freelist = 0x80102000;
  use_lock = true;
}

deallocuvm-Ends_example : Ends 0x1000 (deallocuvm kernel_end directory 0x3000 0x1000 memory)
deallocuvm-Ends_example = deallocuvm-Ends kernel_end directory 0x3000 0x1000 memory (omega arith)
