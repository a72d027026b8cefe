-- ===== src/Exceptions/Examples.antt =====
-- The messages of the handler and of exit, with their formats in memory.
use kernalite.Base.{ℕ, ◌≤◌, ◌≡◌, refl, true, some, codes, reverse, arith}
use kernalite.Memory.{Mem}
use kernalite.Memory.Holding.{holding}
use kernalite.Print.{Serial}
use kernalite.Exceptions.{HandlerFormats, generic_handler, HostCall, exit}
use kernalite.Exceptions.Halt.{
  IsPlaced, ArePlaced, handler_text, generic_handler_lem, IsExit, exit-IsExit,
}

abbrev console : Serial
console = record { putc = true; getc = true }

abbrev formats : HandlerFormats
formats = record { invoked = 100; current_level = 200; used_stack = 300 }

abbrev literals : Mem
literals = holding 100 (codes "Generic Handler invoked\n") (
    holding 200 (codes "Current EL = %lx\n") (
      holding 300 (codes "Used stack is = EL%lx\n")
        (holding 400 (codes "Exiting QEMU with code: %u\n") (λ a. 0))))

formats-ArePlaced : ArePlaced literals 500 formats
formats-ArePlaced = record {
  invoked = (omega arith, omega arith);
  current_level = (omega arith, omega arith);
  used_stack = (omega arith, omega arith);
}

exit_format-IsPlaced : IsPlaced literals 500 400 (codes "Exiting QEMU with code: %u\n")
exit_format-IsPlaced = (omega arith, omega arith)

-- At level 1, on the stack of level 1.
generic_handler_lem_example :
    (enough : ℕ) × ((fuel : ℕ)
      → enough ≤ fuel
      → generic_handler fuel console 500 formats 4 1 literals ≡ some (reverse (handler_text 1 1)))
generic_handler_lem_example =
    generic_handler_lem literals 500 formats 4 1 formats-ArePlaced console refl

exit-IsExit_example :
    (enough : ℕ) × ((fuel : ℕ)
      → enough ≤ fuel
      → (r : HostCall) × (exit fuel console 500 400 600 3 literals ≡ some r) × IsExit 3 r)
exit-IsExit_example = exit-IsExit literals 500 400 600 3 console refl exit_format-IsPlaced
