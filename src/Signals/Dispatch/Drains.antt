-- ===== src/Signals/Dispatch/Drains.antt =====
-- A dispatch ends, and leaves no signal to be delivered.
use libpthread.Base.{
  ℕ, zero, suc, ◌+◌, ◌≡◌, ◌≢◌, refl, ap, ◌∙◌, ◌≤◌, ◌<◌, true, false, not, ◌&&◌, ◌||◌, ◌==◌,
  if◌then◌else◌, Option, none, some, arith, Bool-cases, inl, inr, ◌⊎◌, subst,
}
use libpthread.Signals.{
  SigSet, in_range, SigAction, core, terminate, ignore, cont, stop, default_action, Handler, dfl,
  ign, catches, SignalState,
}
use libpthread.Signals.Dispatch.{
  View, LowestBit, clear_opposite, reset_handler, enter, unblocked, Call, Dispatched, finishes,
  exits, panics, runs, Round, ends, goes_on, default_delivery, called, next_signal, first_of,
  deliver, proceed, tested, dispatch,
}

-- A signal waits for the thread or for the process.
abbrev pub due : View → SigSet
due s i = s.ss.pending i || s.process_pending i

-- No signal out of range is pending.
abbrev pub IsValid : View → Type 0
IsValid s = (i : ℕ) → due s i ≡ true → in_range i ≡ true

-- How many signals up to `n` a set has.
pub count : ℕ → SigSet → ℕ
count zero s = 0
count (suc n) s = (if s (suc n) then 1 else 0) + count n s

count-le : (n : ℕ) (s t : SigSet) → ((i : ℕ) → s i ≡ true → t i ≡ true) → count n s ≤ count n t
unfolding count
count-le zero s t h = ground arith
count-le (suc n) s t h = ground (arith, count-le n s t h, h (suc n))

count-lt :
    (n k : ℕ) (s t : SigSet)
    → ((i : ℕ) → s i ≡ true → t i ≡ true)
    → s k ≡ false
    → t k ≡ true
    → 0 < k
    → k ≤ n
    → count n s < count n t
unfolding count
count-lt zero k s t h a b p q = absurd (omega arith)
count-lt (suc n) k s t h a b p q = elim (Bool-cases (k == suc n)) [
  | inl e ↦
      let c : k ≡ suc n = ground arith in
      let sa : s (suc n) ≡ false = subst (λ x. s x ≡ false) c a in
      let tb : t (suc n) ≡ true = subst (λ x. t x ≡ true) c b in ground (arith, count-le n s t h)
  | inr e ↦ ground (arith, count-lt n k s t h a b p (ground arith), h (suc n))
]

pub count-bound : (n : ℕ) (s : SigSet) → count n s ≤ n
unfolding count
count-bound zero s = ground arith
count-bound (suc n) s = ground (arith, count-bound n s)

pub reset_pending : (n : ℕ) (ss : SignalState) → (reset_handler n ss).pending ≡ ss.pending
reset_pending n ss = ground arith

-- Clearing the opposite signals adds none.
pub clear-pending :
    (n i : ℕ) (s : View) → (clear_opposite n s).ss.pending i ≡ true → s.ss.pending i ≡ true
clear-pending n i s h = ground arith

clear-process :
    (n i : ℕ) (s : View)
    → (clear_opposite n s).process_pending i ≡ true
    → s.process_pending i ≡ true
clear-process n i s h = ground arith

-- Once a signal is entered it waits no more, and no other one has been added.
enter-due :
    (n i : ℕ) (s : View)
    → in_range n ≡ true
    → due (enter n s) i ≡ true
    → (due s i ≡ true) × ((i == n) ≡ false)
enter-due n i s r h =
    let own = clear-pending n i s in
    let process = clear-process n i s in
    let kept = ap (λ (f : SigSet). f i) (reset_pending n (clear_opposite n s).ss) in
    ground (arith, own, process)

first_of-cases : (a b : ℕ) → ((a ≡ 0) × (first_of a b ≡ b)) ⊎ ((a ≢ 0) × (first_of a b ≡ a))
first_of-cases zero b = inl (refl, refl)
first_of-cases (suc a) b = inr ((λ h. omega arith), refl)

-- How a dispatch ends, if signals are blocked as in `b` when it begins.
pub Ended : SigSet → Dispatched → Type 0
Ended b (finishes cs v) =
    (v.ss.blocked ≡ b) × ((i : ℕ) → 0 < i → i ≤ 64 → b i ≡ false → due v i ≡ false)
Ended b (exits k) = (n : ℕ) × (k ≡ 128 + n)
Ended b panics = Unit {0}
Ended b runs = true ≡ false

Ended-called : (b : SigSet) (c : Option Call) (d : Dispatched) → Ended b d → Ended b (called c d)
unfolding Ended
Ended-called b none d e = e
Ended-called b (some c) (finishes cs v) e = e
Ended-called b (some c) (exits k) e = e
Ended-called b (some c) panics e = e
Ended-called b (some c) runs e = e

module _ (bits : LowestBit) (run : Call → View → View)
    (quiet : (c : Call) (s : View) (i : ℕ) → due (run c s) i ≡ true → due s i ≡ true) where
  -- What the loop knows when it is tested again, if it began with signals blocked as in `b`.
  record Left (b : SigSet) (n : ℕ) (s v : View) : Type 0 where
    masked : v.ss.blocked ≡ b
    fewer : (i : ℕ) → due v i ≡ true → (due s i ≡ true) × ((i == n) ≡ false)

  RoundLeaves : ℕ → View → Round → Type 0
  RoundLeaves n s (ends (exits k)) = k ≡ 128 + n
  RoundLeaves n s (ends panics) = Unit {0}
  RoundLeaves n s (ends _) = true ≡ false
  RoundLeaves n s (goes_on c v) = Left s.ss.blocked n s v

  default-Leaves :
      (n : ℕ) (s : View) (o : Option SigAction) → RoundLeaves n s (ends (default_delivery n o))
  unfolding RoundLeaves
  default-Leaves n s none = tt
  default-Leaves n s (some core) = refl
  default-Leaves n s (some terminate) = refl
  default-Leaves n s (some ignore) = tt
  default-Leaves n s (some cont) = tt
  default-Leaves n s (some stop) = tt

  deliver-Leaves :
      (si n : ℕ) (s : View) (h : Handler)
      → in_range n ≡ true
      → RoundLeaves n s (deliver bits run si n s h)
  unfolding RoundLeaves
  deliver-Leaves si n s dfl r = default-Leaves n s (default_action n)
  deliver-Leaves si n s ign r = record { masked = refl; fewer = λ i d. enter-due n i s r d }
  deliver-Leaves si n s (catches f) r = record {
    masked = refl;
    fewer = λ i d.
        enter-due n i s r
          (quiet (record { function = f; signo = n; si_signo = si }) (enter n s) i d);
  }

  -- The test of the loop: no signal is to be delivered, or the next one waits and is not blocked.
  next_signal-zero :
      (v : View) (i : ℕ)
      → next_signal bits run v ≡ 0
      → 0 < i
      → i ≤ 64
      → v.ss.blocked i ≡ false
      → due v i ≡ false
  next_signal-zero v i h p q b =
      let own = unblocked v.ss.blocked v.ss.pending in
      let process = unblocked v.ss.blocked v.process_pending in
      elim (first_of-cases (bits.lsb own) (bits.lsb process)) [
        | inl (z, e) ↦
            ground
              (arith, bits.lsb-zero own i z p q, bits.lsb-zero process i (omega (arith, e, h)) p q)
        | inr (z, e) ↦ absurd (z (omega (arith, e, h)))
      ]

  next_signal-suc : (v : View) (n : ℕ) → next_signal bits run v ≡ suc n → due v (suc n) ≡ true
  next_signal-suc v n h =
      let own = unblocked v.ss.blocked v.ss.pending in
      let process = unblocked v.ss.blocked v.process_pending in
      elim (first_of-cases (bits.lsb own) (bits.lsb process)) [
        | inl (z, e) ↦
            let k : bits.lsb process ≡ suc n = omega (arith, e, h) in
            let m = subst (λ x. process x ≡ true) k (bits.lsb-elem process (λ q. omega arith)) in
            ground arith
        | inr (z, e) ↦
            let k : bits.lsb own ≡ suc n = omega (arith, e, h) in
            let m = subst (λ x. own x ≡ true) k (bits.lsb-elem own z) in ground arith
      ]

  -- The signals that wait, but for the one that is delivered, are fewer than the fuel.
  abbrev others : ℕ → View → SigSet
  others n s i = due s i && not (i == n)

  -- What is asked of the rounds that follow.
  Again : ℕ → SigSet → (ℕ → View → Dispatched) → Type 0
  Again fuel b again =
      (m : ℕ) (v : View)
      → IsValid v
      → in_range m ≡ true
      → v.ss.blocked ≡ b
      → count 31 (others m v) < fuel
      → Ended b (again m v)

  tested-Ended :
      (fuel n m : ℕ) (s u : View) (again : ℕ → View → Dispatched)
      → Left s.ss.blocked n s u
      → IsValid s
      → count 31 (others n s) ≤ fuel
      → Again fuel s.ss.blocked again
      → next_signal bits run u ≡ m
      → Ended s.ss.blocked (tested bits run again u m)
  unfolding Ended Again
  tested-Ended fuel n zero s u again l v c h e =
      (l.masked, (λ i p q b. next_signal-zero u i e p q (ap (λ (f : SigSet). f i) l.masked ∙ b)))
  tested-Ended fuel n (suc m) s u again l v c h e =
      let d = next_signal-suc u m e in
      let f = l.fewer (suc m) d in
      let r = v (suc m) f.0 in
      let fewer =
        count-lt 31 (suc m) (others (suc m) u) (others n s) (λ i g. ground (arith, l.fewer i))
          (ground arith) (ground arith) (omega arith) (ground arith) in
      h (suc m) u (λ i g. v i (l.fewer i g).0) r l.masked (omega arith)

  proceed-Ended :
      (fuel n : ℕ) (s : View) (r : Round) (again : ℕ → View → Dispatched)
      → RoundLeaves n s r
      → IsValid s
      → count 31 (others n s) ≤ fuel
      → Again fuel s.ss.blocked again
      → Ended s.ss.blocked (proceed bits run again r)
  unfolding RoundLeaves Ended
  proceed-Ended fuel n s (ends (exits k)) again l v c h = (n, l)
  proceed-Ended fuel n s (ends panics) again l v c h = tt
  proceed-Ended fuel n s (ends runs) again l v c h = l
  proceed-Ended fuel n s (ends (finishes cs u)) again l v c h = cc
  proceed-Ended fuel n s (goes_on o u) again l v c h =
      Ended-called s.ss.blocked o (tested bits run again u (next_signal bits run u))
        (tested-Ended fuel n (next_signal bits run u) s u again l v c h refl)

  dispatch-Ended :
      (fuel si n : ℕ) (s : View)
      → IsValid s
      → in_range n ≡ true
      → count 31 (others n s) < fuel
      → Ended s.ss.blocked (dispatch bits run fuel si n s)
  unfolding dispatch Again
  dispatch-Ended zero si n s v r c = absurd (omega arith)
  dispatch-Ended (suc fuel) si n s v r c =
      proceed-Ended fuel n s (deliver bits run si n s (s.ss.actions n).handler)
        (λ m w. dispatch bits run fuel si m w) (deliver-Leaves si n s (s.ss.actions n).handler r) v
        (omega arith)
        (λ m w vw rm b k.
          subst (λ x. Ended x (dispatch bits run fuel si m w)) b
            (dispatch-Ended fuel si m w vw rm k))

  -- The dispatch of a signal, where no signal out of range is pending and handlers add none to the
  -- pending ones, ends in 32 rounds at most. If it does not end the process or panic, the signal mask
  -- is what it was, and no signal that is not blocked is pending for the thread or for the process.
  pub dispatch_drains :
      (si n : ℕ) (s : View)
      → IsValid s
      → in_range n ≡ true
      → Ended s.ss.blocked (dispatch bits run 32 si n s)
  dispatch_drains si n s v r =
      let c = count-bound 31 (others n s) in dispatch-Ended 32 si n s v r (omega arith)
