-- ===== src/PacketSession/Refines.antt =====
-- `PacketSessionDemux` of crates/neoncore-kernel/src/packet_session.rs implements the list of waiting
-- requests.

use neon_core_atlas.PacketSession.{
  PacketWaiter, Demux, queue_at, register, remove_by_id, retain_queue, new_demux, retain_fifo,
}
use neon_core_atlas.PacketSession.Channels.{receivers-other, Operation, receivers}
use neon_core_atlas.PacketSession.Queues.{
  queue_of-append, keys-append, Distinct-append, lookup-put_queue, retain_fifo-drop_id,
  queue_of-drop_id,
}
use neon_core_atlas.PacketSession.Spec.{
  Fresh, Distinct, Entry, Holds, drop_id, stored, queue_of, keys,
}
use neon_core_atlas.Prelude.{
  ◌≡◌, refl, sym, ap, ◌∙◌, some, List, [], ◌∷◌, ◌++◌, append-nil, arith, ℕ, All, ◌≢◌,
}
use neon_core_atlas.Std.Bytes.{bytes_eq_iff}
use neon_core_atlas.Std.Map.{lookup-insert, lookup}
use neon_core_atlas.Std.Text.{Text}

pub new_demux-Holds : Holds [] new_demux
unfolding lookup queue_of stored keys
new_demux-Holds = record { queues = λ k. refl; order = refl; distinct = tt }

queue_at-stored :
    (k : Text) (m : List (Text × List PacketWaiter)) (q : List PacketWaiter)
    → lookup k m ≡ stored q
    → queue_at k m ≡ q
unfolding queue_at stored
queue_at-stored k m [] e = rw (e, queue_at)
queue_at-stored k m (w ∷ q) e = rw (e, queue_at)

stored_snoc :
    (q : List PacketWaiter) (w : PacketWaiter) → some (q ++ (w ∷ [])) ≡ stored (q ++ (w ∷ []))
unfolding stored
stored_snoc [] w = refl
stored_snoc (x ∷ q) w = refl

-- The entry that a registration adds.
abbrev pub entry : Text → ℕ → Demux → Entry
entry key id d = record { key = key; waiter = record { request_id = id; sender = d.next_channel } }

register-queues :
    (es : List Entry) (d : Demux) (key : Text) (id : ℕ)
    → Holds es d
    → (k : Text)
    → lookup k (register key id d).1.pending ≡ stored (queue_of k (es ++ (entry key id d ∷ [])))
unfolding register queue_of
register-queues es d key id h k = ground (
  arith,
  lookup-insert key k
      (queue_at key d.pending ++ (record { request_id = id; sender = d.next_channel } ∷ []))
      d.pending,
  queue_at-stored key d.pending (queue_of key es) (h.queues key),
  h.queues k,
  queue_of-append k es (entry key id d ∷ []),
  stored_snoc (queue_of key es) (record { request_id = id; sender = d.next_channel }),
  bytes_eq_iff key k,
  append-nil (queue_of k es),
)

-- Registering a request whose number is not waiting under its key adds it behind all others and
-- answers nobody. The caller gets the receiver of the channel that the new entry sends to, and whatever
-- operations follow, no later registration gets the same one.
pub register-Holds :
    (es : List Entry) (d : Demux) (key : Text) (id : ℕ)
    → Holds es d
    → Fresh key id es
    → (ops : List Operation)
    → Holds (es ++ (entry key id d ∷ [])) (register key id d).1
      × ((register key id d).0.receiver ≡ (entry key id d).waiter.sender)
      × ((register key id d).1.sent ≡ d.sent)
      × All (λ c. c ≢ (register key id d).0.receiver) (receivers ops (register key id d).1)
unfolding register keys
register-Holds es d key id h f ops = (
  record {
    queues = register-queues es d key id h;
    order =
        ap (λ (l : List (Text × ℕ)). l ++ ((key, id) ∷ [])) h.order
        ∙ sym (keys-append es (entry key id d ∷ []));
    distinct = Distinct-append es (entry key id d) h.distinct f;
  },
  refl,
  refl,
  receivers-other ops (register key id d).1 d.next_channel (omega arith),
)

Fresh-drop_id :
    (key k : Text) (id i : ℕ) (es : List Entry) → Fresh k i es → Fresh k i (drop_id key id es)
unfolding drop_id
Fresh-drop_id key k id i [] f = tt
Fresh-drop_id key k id i (e ∷ es) (f, fs) = ground (arith, Fresh-drop_id key k id i es fs)

Distinct-drop_id :
    (key : Text) (id : ℕ) (es : List Entry) → Distinct es → Distinct (drop_id key id es)
unfolding drop_id
Distinct-drop_id key id [] d = tt
Distinct-drop_id key id (e ∷ es) (f, d) =
    ground
      (arith, Distinct-drop_id key id es d, Fresh-drop_id key e.key id e.waiter.request_id es f)

remove_by_id-queues :
    (es : List Entry) (d : Demux) (key : Text) (id : ℕ) (q : List PacketWaiter)
    → Holds es d
    → queue_of key es ≡ q
    → (k : Text)
    → lookup k (remove_by_id key id d).pending ≡ stored (queue_of k (drop_id key id es))
unfolding remove_by_id stored retain_queue
remove_by_id-queues es d key id [] h e k =
    ground (arith, h.queues key, h.queues k, queue_of-drop_id key k id es, bytes_eq_iff key k)
remove_by_id-queues es d key id (w ∷ q) h e k = ground (
  arith,
  h.queues key,
  h.queues k,
  lookup-put_queue key k (retain_queue id (w ∷ q)) d.pending,
  queue_of-drop_id key k id es,
)

-- A request that gives up leaves the list, and every other request stays where it was; nobody is
-- answered.
pub remove_by_id-Holds :
    (es : List Entry) (d : Demux) (key : Text) (id : ℕ)
    → Holds es d
    → Holds (drop_id key id es) (remove_by_id key id d) × ((remove_by_id key id d).sent ≡ d.sent)
unfolding remove_by_id
remove_by_id-Holds es d key id h = (
  record {
    queues = remove_by_id-queues es d key id (queue_of key es) h refl;
    order = ap (retain_fifo key id) h.order ∙ retain_fifo-drop_id key id es;
    distinct = Distinct-drop_id key id es h.distinct;
  },
  refl,
)
