-- ===== src/Heap/Laws.antt =====
-- What a signal leaves alone, and the least of a group of sequences.
use disruptor_go.Prelude.{
  ℕ, ◌≤◌, ◌<◌, ◌≡◌, refl, ◌∙◌, List, [], ◌∷◌, arith, ltb, ◌==◌, if◌then◌else◌, All,
}
use disruptor_go.Heap.{
  Heap, signal_waiter, signal_each, signal_all, load, store_value, store, minimum_from, add_signal,
  remove_signal, minimum_sequence, load_group, initial_sequence,
}

pub sequences-signal_waiter : (w : ℕ) (h : Heap) → (signal_waiter w h).sequences ≡ h.sequences
unfolding signal_waiter
sequences-signal_waiter w h = ground arith

sequences-signal_each : (ws : List ℕ) (h : Heap) → (signal_each ws h).sequences ≡ h.sequences
unfolding signal_each
sequences-signal_each [] h = refl
sequences-signal_each (w ∷ ws) h =
    sequences-signal_each ws (signal_waiter w h) ∙ sequences-signal_waiter w h

pub sequences-signal_all : (p : ℕ) (h : Heap) → (signal_all p h).sequences ≡ h.sequences
unfolding signal_all
sequences-signal_all p h = sequences-signal_each (h.sequences p).signals h

pub sequences-store : (p v : ℕ) (h : Heap) → (store p v h).sequences ≡ (store_value p v h).sequences
unfolding store
sequences-store p v h = sequences-signal_all p (store_value p v h)

pub load-store : (p v q : ℕ) (h : Heap) → load q (store p v h) ≡ (if p == q then v else load q h)
load-store p v q h = rw (sequences-store p v h) (ground arith)

-- A group is bounded below by what bounds its members, and above by each of them.
from-ge :
    (h : Heap) (lo m : ℕ) (ps : List ℕ)
    → lo ≤ m
    → All (λ p. lo ≤ load p h) ps
    → lo ≤ minimum_from h m ps
unfolding minimum_from
from-ge h lo m [] p a = p
from-ge h lo m (x ∷ xs) p a =
    from-ge h lo (if ltb (load x h) m then load x h else m) xs (ground (arith, a)) a.1

from-le : (h : Heap) (m : ℕ) (ps : List ℕ) → minimum_from h m ps ≤ m
unfolding minimum_from
from-le h m [] = omega arith
from-le h m (x ∷ xs) = ground (arith, from-le h (if ltb (load x h) m then load x h else m) xs)

All-from-le : (h : Heap) (m : ℕ) (ps : List ℕ) → All (λ p. minimum_from h m ps ≤ load p h) ps
unfolding minimum_from
All-from-le h m [] = tt
All-from-le h m (x ∷ xs) = (
  ground (arith, from-le h (if ltb (load x h) m then load x h else m) xs),
  All-from-le h (if ltb (load x h) m then load x h else m) xs,
)

pub minimum-ge :
    (h : Heap) (lo fallback : ℕ) (ps : List ℕ)
    → lo ≤ fallback
    → All (λ p. lo ≤ load p h) ps
    → lo ≤ minimum_sequence h ps fallback
unfolding minimum_sequence
minimum-ge h lo fallback [] p a = p
minimum-ge h lo fallback (x ∷ xs) p a = from-ge h lo (load x h) xs a.0 a.1

pub minimum-le :
    (h : Heap) (hi fallback : ℕ) (ps : List ℕ)
    → fallback ≤ hi
    → All (λ p. load p h ≤ hi) ps
    → minimum_sequence h ps fallback ≤ hi
unfolding minimum_sequence
minimum-le h hi fallback [] p a = p
minimum-le h hi fallback (x ∷ xs) p a = omega (arith, from-le h (load x h) xs, a.0)

pub All-minimum-le :
    (h : Heap) (fallback : ℕ) (ps : List ℕ)
    → All (λ p. minimum_sequence h ps fallback ≤ load p h) ps
unfolding minimum_sequence
All-minimum-le h fallback [] = tt
All-minimum-le h fallback (x ∷ xs) = (from-le h (load x h) xs, All-from-le h (load x h) xs)

-- A change of a list of signals moves no sequence.
pub load-add_signal : (p w q : ℕ) (h : Heap) → load q (add_signal p w h) ≡ load q h
unfolding add_signal
load-add_signal p w q h = ground arith

pub load-remove_signal : (p w q : ℕ) (h : Heap) → load q (remove_signal p w h) ≡ load q h
unfolding remove_signal
load-remove_signal p w q h = ground arith

pub load-signal_waiter : (w q : ℕ) (h : Heap) → load q (signal_waiter w h) ≡ load q h
load-signal_waiter w q h = rw (sequences-signal_waiter w h)

pub load-signal_all : (p q : ℕ) (h : Heap) → load q (signal_all p h) ≡ load q h
load-signal_all p q h = rw (sequences-signal_all p h)

pub load_group-lt :
    (h : Heap) (hi : ℕ) (ps : List ℕ)
    → initial_sequence < hi
    → ((p : ℕ) → load p h < hi)
    → load_group h ps < hi
unfolding load_group
load_group-lt h hi [] start all = start
load_group-lt h hi (x ∷ xs) start all = omega (arith, from-le h (load x h) xs, all x)
