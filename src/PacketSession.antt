-- ===== src/PacketSession.antt =====
-- crates/neoncore-kernel/src/packet_session.rs: replies of a packet connection are handed to the
-- requests that wait for them. A oneshot channel is a number, taken from `next_channel`; `sent` is the
-- log of what was sent, newest first. The lock is held through each operation, so an operation is
-- one step; a poisoned lock is not modelled.
pub mod Spec
pub mod Queues
pub mod Channels
pub mod Refines
pub mod Delivery
pub mod Failing
use neon_core_atlas.Prelude.{
  ◌==◌, if◌then◌else◌, length, ◌+◌, Bool, true, false, ◌&&◌, Option, none, some, List, [], ◌∷◌,
  ◌++◌, ℕ,
}
use neon_core_atlas.Std.Bytes.{Bytes, bytes_eq}
use neon_core_atlas.Std.Map.{lookup, remove, insert}
use neon_core_atlas.Std.Number.{show_u16}
use neon_core_atlas.Std.Text.{Text, to_ascii_lowercase}

-- `anyhow::Result<Vec<u8>>`
pub data Reply : Type 0 where
  payload : Bytes → Reply
  failure : Text → Reply

pub record PacketWaiter : Type 0 where
  pub request_id : ℕ
  pub sender : ℕ

pub record PacketSessionWait : Type 0 where
  pub key : Text
  pub request_id : ℕ
  pub receiver : ℕ

pub record Demux : Type 0 where
  pub pending : List (Text × List PacketWaiter)
  pub fifo : List (Text × ℕ)
  pub next_channel : ℕ
  pub sent : List (ℕ × Reply)

abbrev pub new_demux : Demux
new_demux = record { pending = []; fifo = []; next_channel = 0; sent = [] }

unfoldable pub count_waiters : List (Text × List PacketWaiter) → ℕ
count_waiters [] = 0
count_waiters ((k, queue) ∷ m) = length queue + count_waiters m

unfoldable pub pending_count : Demux → ℕ
unfolding count_waiters
pending_count d = count_waiters d.pending

-- `entry(key).or_default()`
unfoldable pub queue_at : Text → List (Text × List PacketWaiter) → List PacketWaiter
queue_at key m = elim (lookup key m) [ none ↦ [] | some queue ↦ queue ]

unfoldable pub register : Text → ℕ → Demux → PacketSessionWait × Demux
register key request_id d =
    let waiter : PacketWaiter = record { request_id = request_id; sender = d.next_channel } in
    (
      record { key = key; request_id = request_id; receiver = d.next_channel },
      record d {
        pending = insert key (queue_at key d.pending ++ (waiter ∷ [])) d.pending;
        fifo = d.fifo ++ ((key, request_id) ∷ []);
        next_channel = d.next_channel + 1;
      },
    )

-- `if queue.is_empty() { pending.remove(key) }`
unfoldable pub put_queue :
    Text → List PacketWaiter → List (Text × List PacketWaiter) → List (Text × List PacketWaiter)
put_queue key [] m = remove key m
put_queue key (w ∷ queue) m = insert key (w ∷ queue) m

-- `fifo.retain(|(k, i)| k != key || i != id)`
unfoldable pub retain_fifo : Text → ℕ → List (Text × ℕ) → List (Text × ℕ)
retain_fifo key id [] = []
retain_fifo key id ((k, i) ∷ fifo) =
    if bytes_eq k key && i == id then retain_fifo key id fifo else (k, i) ∷ retain_fifo key id fifo

-- `queue.retain(|waiter| waiter.request_id != id)`
unfoldable pub retain_queue : ℕ → List PacketWaiter → List PacketWaiter
retain_queue id [] = []
retain_queue id (w ∷ queue) =
    if w.request_id == id then retain_queue id queue else w ∷ retain_queue id queue

unfoldable pub remove_by_id : Text → ℕ → Demux → Demux
remove_by_id key id d = record d {
  pending = elim (lookup key d.pending) [
    | none ↦ d.pending
    | some queue ↦ put_queue key (retain_queue id queue) d.pending
  ];
  fifo = retain_fifo key id d.fifo;
}

unfoldable pub remove_wait : PacketSessionWait → Demux → Demux
unfolding remove_by_id
remove_wait wait d = remove_by_id wait.key wait.request_id d

-- `waiter.sender.send(result)`
abbrev pub send_to : ℕ → Reply → Demux → Demux
send_to channel reply d = record d { sent = (channel, reply) ∷ d.sent }

-- `pop_front` and what follows it under the lock; an empty queue is removed and nobody is answered.
unfoldable pub deliver_from : Text → Reply → List PacketWaiter → Demux → Bool × Demux
deliver_from key reply [] d = (false, record d { pending = put_queue key [] d.pending })
deliver_from key reply (w ∷ queue) d = (
  true,
  send_to w.sender reply (record d {
    pending = put_queue key queue d.pending;
    fifo = retain_fifo key w.request_id d.fifo;
  }),
)

unfoldable pub deliver : Text → Reply → Demux → Bool × Demux
unfolding deliver_from
deliver key reply d = elim (lookup key d.pending) [
  | none ↦ (false, d)
  | some queue ↦ deliver_from key reply queue d
]

-- `position` of the request and `queue.remove(position)`: the waiter and the others.
unfoldable pub take_id : ℕ → List PacketWaiter → Option (PacketWaiter × List PacketWaiter)
take_id id [] = none
take_id id (w ∷ queue) =
    let rest : Option (PacketWaiter × List PacketWaiter) = elim (take_id id queue) [
      | none ↦ none
      | some (v, others) ↦ some (v, w ∷ others)
    ] in
    if w.request_id == id then some (w, queue) else rest

-- The queue and the request that a key and a number of the FIFO stand for, if both are there.
unfoldable pub find_waiter :
    Text → ℕ → List (Text × List PacketWaiter) → Option (PacketWaiter × List PacketWaiter)
unfolding take_id
find_waiter key id m = elim (lookup key m) [ none ↦ none | some queue ↦ take_id id queue ]

-- The loop of `deliver_next`: entries with no waiter are dropped, the first with one is answered.
unfoldable pub deliver_loop : Reply → List (Text × ℕ) → Demux → Bool × Demux
deliver_loop reply [] d = (false, record d { fifo = [] })
deliver_loop reply ((key, id) ∷ fifo) d = elim (find_waiter key id d.pending) [
  | none ↦ deliver_loop reply fifo d
  | some (w, others) ↦ (
    true,
    send_to w.sender reply (record d { pending = put_queue key others d.pending; fifo = fifo }),
  )
]

unfoldable pub deliver_next : Reply → Demux → Bool × Demux
deliver_next reply d = deliver_loop reply d.fifo d

-- All waiters, queue by queue, get the message.
unfoldable pub fail_queue : Text → List PacketWaiter → List (ℕ × Reply) → List (ℕ × Reply)
fail_queue message [] sent = sent
fail_queue message (w ∷ queue) sent = fail_queue message queue ((w.sender, failure message) ∷ sent)

unfoldable pub fail_queues :
    Text → List (Text × List PacketWaiter) → List (ℕ × Reply) → List (ℕ × Reply)
unfolding fail_queue
fail_queues message [] sent = sent
fail_queues message ((k, queue) ∷ m) sent = fail_queues message m (fail_queue message queue sent)

unfoldable pub fail_all : Text → Demux → Demux
fail_all message d = record d {
  pending = [];
  fifo = [];
  sent = fail_queues message d.pending d.sent;
}

unfoldable pub packet_target_key : Text → ℕ → Text
packet_target_key host port = to_ascii_lowercase host ++ (b':' ∷ show_u16 port)
