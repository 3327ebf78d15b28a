-- ===== src/Telnet/Ring/Stream.antt =====
-- A ring of output from its start: what is written comes to the sink in order.
use mathlib.Core.Path.{subst}
use netkit.Base.{
  take, ℕ, zero, suc, ◌+◌, ◌-◌, ◌≤◌, ◌<◌, ◌≡◌, refl, ap, sym, ◌∙◌, Bool, true, false, Option, none,
  some, List, [], ◌∷◌, ◌++◌, append-nil, append_assoc, length, ◌&&◌, inl, inr, arith,
}
use netkit.Telnet.Ring.{Ring, init, set_mark, put, write_loop, write, Flushed, flush}
use netkit.Telnet.Ring.Cells.{cells}
use netkit.Telnet.Ring.Queue.{contents, write_loop-contents}
use netkit.Telnet.Ring.Drain.{IsOutput, IsMarked}
use netkit.Telnet.Ring.Output.{sent, IsSink, Drains, flush-Drains}

-- What a client does with a ring of output: `urgent` is `set_mark`.
pub data Op : Type 0 where
  op_write : List ℕ → Op
  op_urgent : Op
  op_flush : Bool → (ℕ → ℕ → Option ℕ) → Op

-- What the sink has got, the last write first; the ring; and whether no assertion has failed.
pub record Stream : Type 0 where
  pub got : List (Bool × List ℕ)
  pub ring : Ring
  pub sound : Bool

is_some : Option Flushed → Bool
is_some none = false
is_some (some code) = true

unfoldable pub step : Op → Stream → Stream
unfolding is_some
step (op_write cs) s = record s { ring = write cs s.ring }
step op_urgent s = record s { ring = set_mark s.ring }
step (op_flush busy sink) s =
    let f = flush busy sink s.ring in
    record { got = f.written ++ s.got; ring = f.ring; sound = s.sound && is_some f.result }

unfoldable pub run : List Op → Stream → Stream
unfolding step
run [] s = s
run (op ∷ ops) s = run ops (step op s)

-- The bytes that are written.
unfoldable pub put_in : Op → List ℕ
put_in (op_write cs) = cs
put_in _ = []

unfoldable pub all_put_in : List Op → List ℕ
unfolding put_in
all_put_in [] = []
all_put_in (op ∷ ops) = put_in op ++ all_put_in ops

-- A write leaves a byte free, and a sink takes no more than it is given.
abbrev pub Fits : Op → Stream → Type 0
Fits (op_write cs) s = s.ring.count + length cs < s.ring.size
Fits op_urgent s = Unit
Fits (op_flush busy sink) s = IsSink sink

unfoldable pub AllFit : List Op → Stream → Type 0
unfolding step
AllFit [] s = Unit
AllFit (op ∷ ops) s = Fits op s × AllFit ops (step op s)

-- What holds after each operation.
pub record Delivers (bytes : List ℕ) (s : Stream) : Type 0 where
  pub valid : IsOutput s.ring
  pub kept : s.sound ≡ true
  pub order : sent s.got ++ contents s.ring ≡ bytes

take-all : (n : ℕ) (cs : List ℕ) → length cs ≤ n → take n cs ≡ cs
take-all zero [] h = refl
take-all zero (c ∷ cs) h = absurd (ground (arith, h))
take-all (suc n) [] h = refl
take-all (suc n) (c ∷ cs) h = ap (λ x. c ∷ x) (take-all n cs (omega (arith, h)))

sent-append : (v w : List (Bool × List ℕ)) → sent (v ++ w) ≡ sent w ++ sent v
unfolding sent
sent-append [] w = sym (append-nil (sent w))
sent-append ((u, cs) ∷ v) w =
    ap (λ x. x ++ cs) (sent-append v w) ∙ append_assoc (sent w) (sent v) cs

-- The mark stays where it is as bytes are put behind it.
put-IsMarked : (c : ℕ) (r : Ring) → IsMarked r → IsMarked (put c r)
unfolding put
put-IsMarked c r (inl e) = inl e
put-IsMarked c r (inr (m, k, e, b, l)) = inr (m, k, e, b, omega (arith, l))

write_loop-IsMarked : (cs : List ℕ) (r : Ring) → IsMarked r → IsMarked (write_loop cs r)
unfolding write_loop
write_loop-IsMarked [] r v = v
write_loop-IsMarked (c ∷ cs) r v = write_loop-IsMarked cs (put c r) (put-IsMarked c r v)

write-IsOutput :
    (cs : List ℕ) (r : Ring)
    → IsOutput r
    → r.count + length cs < r.size
    → IsOutput (write cs r) × (contents (write cs r) ≡ contents r ++ cs)
unfolding write
write-IsOutput cs r v h =
    let all = take-all (r.size - r.count) cs (omega (arith, h)) in
    let (a, b, c, d) = write_loop-contents cs r v.valid (omega (arith, h)) in
    rw all (record { valid = a; mark = write_loop-IsMarked cs r v.mark; spare = rw (c, d) h }, b)

set_mark-IsOutput : (r : Ring) → IsOutput r → IsOutput (set_mark r)
unfolding set_mark
set_mark-IsOutput r v = record {
  valid = v.valid;
  mark = inr (r.head, r.count, refl, v.valid, omega arith);
  spare = v.spare;
}

set_mark-order :
    (s : Stream) → sent s.got ++ contents (set_mark s.ring) ≡ sent s.got ++ contents s.ring
unfolding set_mark contents
set_mark-order s = refl

step-Delivers :
    (op : Op) (bytes : List ℕ) (s : Stream)
    → Delivers bytes s
    → Fits op s
    → Delivers (bytes ++ put_in op) (step op s)
unfolding step put_in is_some sent
step-Delivers (op_write cs) bytes s d h =
    let (v, e) = write-IsOutput cs s.ring d.valid h in
    record {
      valid = v;
      kept = d.kept;
      order =
          ap (λ x. sent s.got ++ x) e
          ∙ sym (append_assoc (sent s.got) (contents s.ring) cs)
          ∙ ap (λ x. x ++ cs) d.order;
    }
step-Delivers op_urgent bytes s d h = record {
  valid = set_mark-IsOutput s.ring d.valid;
  kept = d.kept;
  order = set_mark-order s ∙ d.order ∙ sym (append-nil bytes);
}
step-Delivers (op_flush busy sink) bytes s d h =
    let f = flush busy sink s.ring in
    let g : Drains [] s.ring f = flush-Drains busy sink s.ring h d.valid in
    record {
      valid = g.valid;
      kept = rw (d.kept, g.ends) refl;
      order =
          ap (λ x. x ++ contents f.ring) (sent-append f.written s.got)
          ∙ append_assoc (sent s.got) (sent f.written) (contents f.ring)
          ∙ ap (λ x. sent s.got ++ x) g.order
          ∙ d.order
          ∙ sym (append-nil bytes);
    }

run-Delivers :
    (ops : List Op) (bytes : List ℕ) (s : Stream)
    → Delivers bytes s
    → AllFit ops s
    → Delivers (bytes ++ all_put_in ops) (run ops s)
unfolding run all_put_in AllFit
run-Delivers [] bytes s d h = subst (λ x. Delivers x s) (sym (append-nil bytes)) d
run-Delivers (op ∷ ops) bytes s d (h, hs) =
    subst (λ x. Delivers x (run ops (step op s))) (append_assoc bytes (put_in op) (all_put_in ops))
      (run-Delivers ops (bytes ++ put_in op) (step op s) (step-Delivers op bytes s d h) hs)

unfoldable pub start : (ℕ → ℕ) → ℕ → Stream
unfolding init
start memory sz = record { got = []; ring = init memory sz; sound = true }

start-Delivers : (memory : ℕ → ℕ) (sz : ℕ) → 0 < sz → Delivers [] (start memory sz)
unfolding start init contents cells sent
start-Delivers memory sz h = record {
  valid = record { valid = ground (arith, h); mark = inl refl; spare = h };
  kept = refl;
  order = refl;
}

-- A ring of output, from `init` on: whatever is written, marked as urgent and flushed, where each
-- write leaves a byte free, and whatever the sink takes, no assertion fails, and what the sink got
-- with what the ring still holds behind it is what was written, in order.
pub run-start-Delivers :
    (ops : List Op) (memory : ℕ → ℕ) (sz : ℕ)
    → 0 < sz
    → AllFit ops (start memory sz)
    → Delivers (all_put_in ops) (run ops (start memory sz))
run-start-Delivers ops memory sz h fits =
    run-Delivers ops [] (start memory sz) (start-Delivers memory sz h) fits
