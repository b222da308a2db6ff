-- ===== src/Signals/Masks.antt =====
-- The signal mask of a thread on the Hurd: sysdeps/mach/hurd/pt-sigstate.c and pthread/pt-sigmask.c.
use libpthread.Base.{◌≡◌, refl, Bool, true, false, Option, none, some, Errno, success, einval}
use libpthread.Signals.{SigSet, sigemptyset, minus, union}

-- SIG_BLOCK, SIG_SETMASK, SIG_UNBLOCK, or another value
pub data How : Type 0 where
  block setmask unblock other : How

pub record Masks : Type 0 where
  pub blocked : SigSet
  pub pending : SigSet

abbrev pub change_mask : How → SigSet → Masks → Errno × Masks
change_mask block set m = (success, record m { blocked = union m.blocked set })
change_mask setmask set m = (success, record m { blocked = set })
change_mask unblock set m = (success, record m { blocked = minus m.blocked set })
change_mask other set m = (einval, m)

abbrev pub changed : How → Option SigSet → Masks → Errno × Masks
changed how none m = (success, m)
changed how (some set) m = change_mask how set m

abbrev pub cleared : Bool → Errno × Masks → Errno × Masks
cleared true (success, m) = (success, record m { pending = sigemptyset })
cleared clear r = r

-- `__pthread_sigstate`: the error, the masks, and the old mask
unfoldable pub sigstate : How → Option SigSet → Bool → Masks → (Errno × Masks) × SigSet
sigstate how set clear m = (cleared clear (changed how set m), m.blocked)

-- `pthread_sigmask`
unfoldable pub sigmask : How → Option SigSet → Masks → (Errno × Masks) × SigSet
unfolding sigstate
sigmask how set m = sigstate how set false m

-- Setting the mask to the old one restores both masks, whatever the first call was.
pub sigmask_restores :
    (how : How) (set : Option SigSet) (m : Masks)
    → sigmask setmask (some (sigmask how set m).1) (sigmask how set m).0.1
      ≡ ((success, m), (sigmask how set m).0.1.blocked)
unfolding sigmask sigstate
sigmask_restores how none m = refl
sigmask_restores block (some set) m = refl
sigmask_restores setmask (some set) m = refl
sigmask_restores unblock (some set) m = refl
sigmask_restores other (some set) m = refl
