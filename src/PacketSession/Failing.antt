-- ===== src/PacketSession/Failing.antt =====
-- What `fail_all` of crates/neoncore-kernel/src/packet_session.rs promise.

use neon_core_atlas.PacketSession.{
  Reply, PacketWaiter, Demux, fail_queue, fail_queues, fail_all, failure,
}
use neon_core_atlas.PacketSession.Spec.{Entry, Holds, queue_of, stored, keys}
use neon_core_atlas.Prelude.{
  Bool-cases, ◌≡◌, refl, ap, subst, ◌∙◌, inl, inr, some, List, [], ◌∷◌, arith, ℕ, Among, sym,
}
use neon_core_atlas.Std.Bytes.{bytes_eq, bytes_eq_refl}
use neon_core_atlas.Std.Map.{lookup}
use neon_core_atlas.Std.Text.{Text}

module _ (message : Text) where
  fail_queue-keeps :
      (x : ℕ × Reply) (q : List PacketWaiter) (sent : List (ℕ × Reply))
      → Among x sent
      → Among x (fail_queue message q sent)
  unfolding fail_queue
  fail_queue-keeps x [] sent h = h
  fail_queue-keeps x (w ∷ q) sent h =
      fail_queue-keeps x q ((w.sender, failure message) ∷ sent) (inr h)

  fail_queue-Among :
      (w : PacketWaiter) (q : List PacketWaiter) (sent : List (ℕ × Reply))
      → Among w q
      → Among (w.sender, failure message) (fail_queue message q sent)
  unfolding fail_queue
  fail_queue-Among w [] sent h = absurd h
  fail_queue-Among w (v ∷ q) sent (inl e) =
      fail_queue-keeps _ q ((v.sender, failure message) ∷ sent)
        (inl (ap (λ (u : PacketWaiter). (u.sender, failure message)) e))
  fail_queue-Among w (v ∷ q) sent (inr h) =
      fail_queue-Among w q ((v.sender, failure message) ∷ sent) h

  fail_queues-keeps :
      (x : ℕ × Reply) (m : List (Text × List PacketWaiter)) (sent : List (ℕ × Reply))
      → Among x sent
      → Among x (fail_queues message m sent)
  unfolding fail_queues
  fail_queues-keeps x [] sent h = h
  fail_queues-keeps x ((k, q) ∷ m) sent h =
      fail_queues-keeps x m (fail_queue message q sent) (fail_queue-keeps x q sent h)

  fail_queues-Among :
      (k : Text) (w : PacketWaiter) (q : List PacketWaiter) (m : List (Text × List PacketWaiter))
      (sent : List (ℕ × Reply))
      → lookup k m ≡ some q
      → Among w q
      → Among (w.sender, failure message) (fail_queues message m sent)
  unfolding fail_queues lookup
  fail_queues-Among k w q [] sent e h = cc
  fail_queues-Among k w q ((j, r) ∷ m) sent e h = elim (Bool-cases (bytes_eq j k)) [
    | inl hit ↦
        fail_queues-keeps _ m (fail_queue message r sent)
          (fail_queue-Among w r sent (subst (Among w) (ground (arith)) h))
    | inr miss ↦ fail_queues-Among k w q m (fail_queue message r sent) (ground arith) h
  ]

queue_of-Among : (e : Entry) (es : List Entry) → Among e es → Among e.waiter (queue_of e.key es)
unfolding queue_of
queue_of-Among e [] h = absurd h
queue_of-Among e (x ∷ es) (inl p) =
    subst (λ (y : Entry). Among e.waiter (queue_of e.key (y ∷ es))) (sym p)
      (rw (bytes_eq_refl e.key) (inl refl))
queue_of-Among e (x ∷ es) (inr h) = elim (Bool-cases (bytes_eq x.key e.key)) [
  | inl same ↦ rw same (inr (queue_of-Among e es h))
  | inr other ↦ rw other (queue_of-Among e es h)
]

stored-Among : (w : PacketWaiter) (q : List PacketWaiter) → Among w q → stored q ≡ some q
unfolding stored
stored-Among w [] h = absurd h
stored-Among w (v ∷ q) h = refl

-- When the connection fails, every waiting request is answered with the message, what was sent before
-- stays sent, and nobody waits any more.
pub fail_all-everyone :
    (es : List Entry) (d : Demux) (message : Text)
    → Holds es d
    → ((e : Entry)
        → Among e es
        → Among (e.waiter.sender, failure message) (fail_all message d).sent)
      × ((x : ℕ × Reply) → Among x d.sent → Among x (fail_all message d).sent)
      × Holds [] (fail_all message d)
unfolding fail_all lookup queue_of stored keys
fail_all-everyone es d message h = (
  λ e i.
      fail_queues-Among message e.key e.waiter (queue_of e.key es) d.pending d.sent
        (h.queues e.key ∙ stored-Among e.waiter (queue_of e.key es) (queue_of-Among e es i))
        (queue_of-Among e es i),
  λ x i. fail_queues-keeps message x d.pending d.sent i,
  record { queues = λ k. refl; order = refl; distinct = tt },
)
