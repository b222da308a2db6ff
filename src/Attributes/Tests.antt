-- ===== src/Attributes/Tests.antt =====
-- The theorems on attributes where a stack is set.
use libpthread.Base.{◌≡◌, refl, some, List, [], ◌∷◌}
use libpthread.Attributes.{
  Attr, default_attr, setstack, Setting, to_detachstate, to_schedpolicy, to_stack, set_all,
}
use libpthread.Attributes.Supported.{Supported, set_all-Supported, SetsStack, setstack-SetsStack}

abbrev initial : Attr
initial = default_attr 2097152 4096

-- Two of the calls fail.
abbrev calls : List Setting
calls = to_detachstate 1 ∷ to_schedpolicy 2 ∷ to_stack 2097152 2097152 ∷ to_stack 100 2097152 ∷ []

set_all-Supported_example :
    (b : Attr) × (set_all initial initial calls ≡ some b) × Supported initial b
set_all-Supported_example = set_all-Supported 2097152 4096 calls

setstack-SetsStack_example :
    SetsStack initial initial 4194304 2097152 (setstack initial initial 4194304 2097152)
setstack-SetsStack_example = setstack-SetsStack initial initial 4194304 2097152 refl
