-- ===== src/PacketSession/Channels.antt =====
-- The channels that crates/neoncore-kernel/src/packet_session.rs opens for the requests, over any
-- sequence of its operations.

use neon_core_atlas.PacketSession.{
  Reply, PacketWaiter, Demux, register, deliver_from, deliver, deliver_loop, remove_by_id,
  deliver_next, fail_all,
}
use neon_core_atlas.Prelude.{
  All, All-append, ◌<◌, ◌≡◌, refl, ◌≢◌, Bool, false, Option, none, some, List, [], ◌∷◌, ◌++◌, arith,
  ℕ,
}
use neon_core_atlas.Std.Map.{lookup}
use neon_core_atlas.Std.Text.{Text}

pub data Operation : Type 0 where
  asks leaves : (key : Text) (request_id : ℕ) → Operation
  answers : (key : Text) (reply : Reply) → Operation
  answers_next : (reply : Reply) → Operation
  fails : (message : Text) → Operation

-- An operation, with the channel whose receiver the caller gets.
perform : Operation → Demux → List ℕ × Demux
perform (asks key id) d = ((register key id d).0.receiver ∷ [], (register key id d).1)
perform (leaves key id) d = ([], remove_by_id key id d)
perform (answers key reply) d = ([], (deliver key reply d).1)
perform (answers_next reply) d = ([], (deliver_next reply d).1)
perform (fails message) d = ([], fail_all message d)

-- The receivers that the callers of a sequence of operations get.
pub receivers : List Operation → Demux → List ℕ
receivers [] d = []
receivers (op ∷ ops) d = (perform op d).0 ++ receivers ops (perform op d).1

deliver_from-next_channel :
    (key : Text) (reply : Reply) (queue : List PacketWaiter) (d : Demux)
    → (deliver_from key reply queue d).1.next_channel ≡ d.next_channel
unfolding deliver_from
deliver_from-next_channel key reply [] d = refl
deliver_from-next_channel key reply (w ∷ queue) d = refl

deliver-next_channel :
    (key : Text) (reply : Reply) (d : Demux) → (deliver key reply d).1.next_channel ≡ d.next_channel
unfolding deliver
deliver-next_channel key reply d =
    elim (lookup key d.pending)
      as (λ (o : Option (List PacketWaiter)).
        (◌≡◌ {A = ℕ}
          (elim o as (λ x. Bool × Demux) [
            | none ↦ (false, d)
            | some queue ↦ deliver_from key reply queue d
          ]).1.next_channel
          d.next_channel)) [
            | none ↦ refl
            | some queue ↦ deliver_from-next_channel key reply queue d
          ]

deliver_loop-next_channel :
    (reply : Reply) (fifo : List (Text × ℕ)) (d : Demux)
    → (deliver_loop reply fifo d).1.next_channel ≡ d.next_channel
unfolding deliver_loop
deliver_loop-next_channel reply [] d = refl
deliver_loop-next_channel reply ((key, id) ∷ fifo) d =
    ground (arith, deliver_loop-next_channel reply fifo d)

-- A channel below the next one stays below it, and the caller gets another one.
perform-other :
    (op : Operation) (d : Demux) (n : ℕ)
    → n < d.next_channel
    → All (λ c. c ≢ n) (perform op d).0 × (n < (perform op d).1.next_channel)
unfolding perform register remove_by_id deliver_next fail_all
perform-other (asks key id) d n h = (((λ e. omega arith), tt), omega arith)
perform-other (leaves key id) d n h = (tt, h)
perform-other (answers key reply) d n h = (tt, omega (arith, deliver-next_channel key reply d))
perform-other (answers_next reply) d n h =
    (tt, omega (arith, deliver_loop-next_channel reply d.fifo d))
perform-other (fails message) d n h = (tt, h)

pub receivers-other :
    (ops : List Operation) (d : Demux) (n : ℕ)
    → n < d.next_channel
    → All (λ c. c ≢ n) (receivers ops d)
unfolding receivers
receivers-other [] d n h = tt
receivers-other (op ∷ ops) d n h =
    let (here, below) = perform-other op d n h in
    All-append (λ c. c ≢ n) (perform op d).0 (receivers ops (perform op d).1) here
      (receivers-other ops (perform op d).1 n below)
