-- ===== src/Sequencer/Closing.antt =====
-- sequencer.go: what `Close` leaves behind.
use disruptor_go.Prelude.{◌≡◌, refl, sym, ap, true, if_elim, arith}
use disruptor_go.Heap.{needs_signals}
use disruptor_go.Sequencer.{SequencerBase, close, close_body, remove_gate_signals}

-- A base that nothing can be claimed from any more.
record IsShut (b : SequencerBase) : Type 0 where
  once : b.close_once ≡ true
  sealed : b.is_sealed ≡ true

remove_gate_signals-IsShut : (b : SequencerBase) → IsShut b → IsShut (remove_gate_signals b)
unfolding remove_gate_signals
remove_gate_signals-IsShut b s =
    if_elim IsShut (needs_signals b.producer_wait b.heap) _ b
      (λ blocking. record { once = s.once; sealed = s.sealed }) (λ busy. s)

close-IsShut : (b : SequencerBase) → IsShut (close b)
unfolding close close_body
close-IsShut b =
    if_elim IsShut b.close_once (record b { is_sealed = true })
      (close_body (record b { is_sealed = true })) (λ again. record { once = again; sealed = refl })
      (λ first. remove_gate_signals-IsShut _ (record { once = refl; sealed = refl }))

close_shut : (b : SequencerBase) → IsShut b → close b ≡ b
unfolding close
close_shut b s =
    if_elim (λ c. c ≡ b) b.close_once (record b { is_sealed = true })
      (close_body (record b { is_sealed = true }))
      (λ again. ap (λ v. record b { is_sealed = v }) (sym s.sealed))
      (λ first. absurd (ground (arith, first, s.once)))

-- `Close` may be called again: a later call changes nothing.
pub close-close : (b : SequencerBase) → close (close b) ≡ close b
close-close b = close_shut (close b) (close-IsShut b)
