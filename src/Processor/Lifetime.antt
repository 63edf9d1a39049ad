-- ===== src/Processor/Lifetime.antt =====
-- processor.go: what the steps of the runs and halts of a processor keep.
use disruptor_go.Prelude.{
  ℕ, ◌+◌, ◌≤◌, ◌<◌, ◌≡◌, ◌≢◌, refl, arith, Bool, true, false, List, [], ◌∷◌, ◌⊎◌, inl, inr, ◌↔◌,
  length, subst,
}
use disruptor_go.Processor.Run.{ProcessorState, idle, starting, running, halted}
use disruptor_go.Processor.Life.{
  Phase, entered, cleared, looping, leaving, Life, Moves, here, there, Returns, now, later, Step,
  enter, refuse, clear, begin, give_up, stop, leave, halt, halt_idle, alert, Reachable, fresh, then,
}

-- How a state goes with the phase of the call that holds it.
Fits : ProcessorState → Phase → Bool → ℕ → Type 0
Fits idle r a n = ⊥
Fits starting entered a n = Unit
Fits starting cleared a n = Unit
Fits starting looping a n = ⊥
Fits starting leaving a n = ⊥
Fits running entered a n = ⊥
Fits running cleared a n = ⊥
Fits running looping a n = Unit
Fits running leaving a n = Unit
Fits halted looping a n = (a ≡ true) ⊎ (0 < n)
Fits halted entered a n = Unit
Fits halted cleared a n = Unit
Fits halted leaving a n = Unit

-- No call holds an idle processor, and one any other.
Held : ProcessorState → List Phase → Bool → ℕ → Type 0
Held s [] a n = s ≡ idle
Held s (r ∷ []) a n = Fits s r a n
Held s (r ∷ r' ∷ rs) a n = ⊥

Moves-Held :
    {from upto : Phase} {rs rs' : List Phase} (s s' : ProcessorState) (a a' : Bool) (n n' : ℕ)
    → (Fits s from a n → Fits s' upto a' n')
    → Moves from upto rs rs'
    → Held s rs a n
    → Held s' rs' a' n'
unfolding Held
Moves-Held s s' a a' n n' f (here {rs = []}) h = f h
Moves-Held s s' a a' n n' f (here {rs = r ∷ rs}) h = absurd h
Moves-Held s s' a a' n n' f (there here) h = absurd h
Moves-Held s s' a a' n n' f (there (there m)) h = absurd h

Returns-Held :
    {from : Phase} {rs rs' : List Phase} (s : ProcessorState) (a : Bool) (n : ℕ)
    → Returns from rs rs'
    → Held s rs a n
    → Held idle rs' a n
unfolding Held
Returns-Held s a n (now {rs = []}) h = refl
Returns-Held s a n (now {rs = r ∷ rs}) h = absurd h
Returns-Held s a n (later now) h = absurd h
Returns-Held s a n (later (later m)) h = absurd h

clear-Fits : (s : ProcessorState) (a : Bool) (n : ℕ) → Fits s entered a n → Fits s cleared false n
unfolding Fits
clear-Fits idle a n f = f
clear-Fits starting a n f = f
clear-Fits running a n f = f
clear-Fits halted a n f = f

give_up-Fits :
    (s : ProcessorState) (a : Bool) (n : ℕ) → s ≢ starting → Fits s cleared a n → Fits s leaving a n
unfolding Fits
give_up-Fits idle a n e f = f
give_up-Fits starting a n e f = absurd (e refl)
give_up-Fits running a n e f = absurd f
give_up-Fits halted a n e f = f

stop-Fits : (s : ProcessorState) (a : Bool) (n : ℕ) → Fits s looping a n → Fits s leaving a n
unfolding Fits
stop-Fits idle a n f = f
stop-Fits starting a n f = f
stop-Fits running a n f = f
stop-Fits halted a n f = tt

halt-Fits : (r : Phase) (a : Bool) (n : ℕ) → Fits halted r a (n + 1)
unfolding Fits
halt-Fits entered a n = tt
halt-Fits cleared a n = tt
halt-Fits looping a n = inr (omega arith)
halt-Fits leaving a n = tt

alert-Fits : (s : ProcessorState) (r : Phase) (a : Bool) (n m : ℕ) → Fits s r a n → Fits s r true m
unfolding Fits
alert-Fits idle r a n m f = f
alert-Fits starting entered a n m f = f
alert-Fits starting cleared a n m f = f
alert-Fits starting looping a n m f = f
alert-Fits starting leaving a n m f = f
alert-Fits running entered a n m f = f
alert-Fits running cleared a n m f = f
alert-Fits running looping a n m f = f
alert-Fits running leaving a n m f = f
alert-Fits halted looping a n m f = inl refl
alert-Fits halted entered a n m f = f
alert-Fits halted cleared a n m f = f
alert-Fits halted leaving a n m f = f

-- Steps that change the state or the alert and no call.
halt-Held :
    (s : ProcessorState) (rs : List Phase) (a : Bool) (n : ℕ)
    → s ≢ idle
    → Held s rs a n
    → Held halted rs a (n + 1)
unfolding Held
halt-Held s [] a n e h = absurd (e h)
halt-Held s (r ∷ []) a n e h = halt-Fits r a n
halt-Held s (r ∷ r' ∷ rs) a n e h = h

alert-Held :
    (s : ProcessorState) (rs : List Phase) (a : Bool) (n m : ℕ) → Held s rs a n → Held s rs true m
unfolding Held
alert-Held s [] a n m h = h
alert-Held s (r ∷ []) a n m h = alert-Fits s r a n m h
alert-Held s (r ∷ r' ∷ rs) a n m h = h

enter-Held :
    (s : ProcessorState) (rs : List Phase) (a : Bool) (n : ℕ)
    → s ≡ idle
    → Held s rs a n
    → Held starting (entered ∷ rs) a n
unfolding Held Fits
enter-Held s [] a n e h = tt
enter-Held idle (r ∷ []) a n e h = h
enter-Held starting (r ∷ []) a n e h = absurd (ground (arith, e))
enter-Held running (r ∷ []) a n e h = absurd (ground (arith, e))
enter-Held halted (r ∷ []) a n e h = absurd (ground (arith, e))
enter-Held s (r ∷ r' ∷ rs) a n e h = h

busy_lem : (s : ProcessorState) → (s ≡ starting) ⊎ (s ≡ running) → s ≢ idle
busy_lem idle (inl e) i = ground (arith, e)
busy_lem idle (inr e) i = ground (arith, e)
busy_lem starting e i = ground (arith, i)
busy_lem running e i = ground (arith, i)
busy_lem halted e i = ground (arith, i)

Step-Held :
    {l l' : Life}
    → Step l l'
    → Held l.state l.runs l.is_alerted l.halts
    → Held l'.state l'.runs l'.is_alerted l'.halts
unfolding Fits
Step-Held {l = l} (enter e) h = enter-Held l.state l.runs l.is_alerted l.halts e h
Step-Held (refuse e) h = h
Step-Held {l = l} (clear m) h =
    Moves-Held l.state l.state l.is_alerted false l.halts l.halts
      (clear-Fits l.state l.is_alerted l.halts) m h
Step-Held {l = l} (begin e m) h =
    Moves-Held l.state running l.is_alerted l.is_alerted l.halts l.halts begin-Fits m h
  where
    begin-Fits :
        Fits l.state cleared l.is_alerted l.halts → Fits running looping l.is_alerted l.halts
    begin-Fits f = tt
Step-Held {l = l} (give_up e m) h =
    Moves-Held l.state l.state l.is_alerted l.is_alerted l.halts l.halts
      (give_up-Fits l.state l.is_alerted l.halts e) m h
Step-Held {l = l} (stop m) h =
    Moves-Held l.state l.state l.is_alerted l.is_alerted l.halts l.halts
      (stop-Fits l.state l.is_alerted l.halts) m h
Step-Held {l = l} (leave m) h = Returns-Held l.state l.is_alerted l.halts m h
Step-Held {l = l} (halt e) h = halt-Held l.state l.runs l.is_alerted l.halts (busy_lem l.state e) h
Step-Held (halt_idle e) h = h
Step-Held {l = l} (alert n e) h = alert-Held l.state l.runs l.is_alerted l.halts n h

Reachable-Held : {l : Life} → Reachable l → Held l.state l.runs l.is_alerted l.halts
unfolding Held
Reachable-Held (fresh a) = refl
Reachable-Held (then r s) = Step-Held s (Reachable-Held r)

few-Held : (s : ProcessorState) (rs : List Phase) (a : Bool) (n : ℕ) → Held s rs a n → length rs ≤ 1
unfolding Held
few-Held s [] a n h = omega arith
few-Held s (r ∷ []) a n h = omega arith
few-Held s (r ∷ r' ∷ rs) a n h = absurd h

idle-Held : (rs : List Phase) (a : Bool) (n : ℕ) → Held idle rs a n → rs ≡ []
unfolding Held Fits
idle-Held [] a n h = refl
idle-Held (r ∷ []) a n h = absurd h
idle-Held (r ∷ r' ∷ rs) a n h = absurd h

starting-Held :
    (rs : List Phase) (a : Bool) (n : ℕ)
    → Held starting rs a n
    → (rs ≡ entered ∷ []) ⊎ (rs ≡ cleared ∷ [])
unfolding Held Fits
starting-Held [] a n h = absurd (ground (arith, h))
starting-Held (entered ∷ []) a n h = inl refl
starting-Held (cleared ∷ []) a n h = inr refl
starting-Held (looping ∷ []) a n h = absurd h
starting-Held (leaving ∷ []) a n h = absurd h
starting-Held (r ∷ r' ∷ rs) a n h = absurd h

running-Held :
    (rs : List Phase) (a : Bool) (n : ℕ)
    → Held running rs a n
    → (rs ≡ looping ∷ []) ⊎ (rs ≡ leaving ∷ [])
unfolding Held Fits
running-Held [] a n h = absurd (ground (arith, h))
running-Held (entered ∷ []) a n h = absurd h
running-Held (cleared ∷ []) a n h = absurd h
running-Held (looping ∷ []) a n h = inl refl
running-Held (leaving ∷ []) a n h = inr refl
running-Held (r ∷ r' ∷ rs) a n h = absurd h

told-Held : (a : Bool) (n : ℕ) → Held halted (looping ∷ []) a n → n ≡ 0 → a ≡ true
unfolding Held Fits
told-Held a n (inl e) z = e
told-Held a n (inr lt) z = absurd (omega (arith, lt, z))

-- What the state says of the calls of `Run`.
pub record IsSound (l : Life) : Type 0 where
  pub few : length l.runs ≤ 1
  pub idle_iff : (l.state ≡ idle) ↔ (l.runs ≡ [])
  pub started : l.state ≡ starting → (l.runs ≡ entered ∷ []) ⊎ (l.runs ≡ cleared ∷ [])
  pub going : l.state ≡ running → (l.runs ≡ looping ∷ []) ⊎ (l.runs ≡ leaving ∷ [])
  pub told : l.state ≡ halted → l.runs ≡ looping ∷ [] → l.halts ≡ 0 → l.is_alerted ≡ true

-- However the calls of `Run` and `Halt` from any number of goroutines interleave, at most one call of
-- `Run` is past its first swap, and the processor is idle exactly when none is. A processor that
-- starts is before its loop, and one that runs is in its loop or on its way out. And no halt is lost:
-- while the loop of a halted processor goes on, the barrier is alerted, once every `Halt` that
-- halted it has alerted too.
pub Reachable-IsSound : (l : Life) → Reachable l → IsSound l
unfolding Held
Reachable-IsSound l r =
    let h = Reachable-Held r in
    let in_state : (s : ProcessorState) → l.state ≡ s → Held s l.runs l.is_alerted l.halts =
      λ s e. subst (λ s. Held s l.runs l.is_alerted l.halts) e h in
    record {
      few = few-Held l.state l.runs l.is_alerted l.halts h;
      idle_iff = (
        λ e. idle-Held l.runs l.is_alerted l.halts (in_state idle e),
        λ e. subst (λ rs. Held l.state rs l.is_alerted l.halts) e h,
      );
      started = λ e. starting-Held l.runs l.is_alerted l.halts (in_state starting e);
      going = λ e. running-Held l.runs l.is_alerted l.halts (in_state running e);
      told = λ e f z.
          told-Held l.is_alerted l.halts
            (subst (λ rs. Held halted rs l.is_alerted l.halts) f (in_state halted e)) z;
    }
