-- ===== src/Stacks/Tests.antt =====
-- The theorem on stacks in a small address space.
use libpthread.Base.{◌≡◌, refl, ◌==◌, some, arith}
use libpthread.Stacks.{Space, allocates, search, stack_alloc}
use libpthread.Stacks.Search.{Allocates, stack_alloc-Allocates}

abbrev space : Space
space = record { first = 0; last = 80; stacksize = 20 }

-- The search from the last place finds nothing, and the one from the first address does.
second_search : stack_alloc space (λ a. a == 20) 80 60 20 ≡ some (allocates 20 40)
unfolding stack_alloc search
second_search = refl

stack_alloc-Allocates_example :
    Allocates space (λ a. a == 20) 60 (stack_alloc space (λ a. a == 20) 80 60 20)
stack_alloc-Allocates_example =
    stack_alloc-Allocates space (λ a. a == 20) (omega arith) (omega arith) 80 60 (omega arith)
      (omega arith) (omega arith)
