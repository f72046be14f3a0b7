-- ===== src/Tests/Sessions.antt =====
-- The theorems on the demultiplexer of packet sessions, at concrete inputs.

use neon_core_atlas.PacketSession.{
  Reply, Demux, new_demux, register, deliver, deliver_next, failure, remove_by_id, fail_all,
  payload,
}
use neon_core_atlas.PacketSession.Channels.{receivers, leaves, asks, fails}
use neon_core_atlas.PacketSession.Delivery.{deliver-oldest, deliver_next-oldest}
use neon_core_atlas.PacketSession.Failing.{fail_all-everyone}
use neon_core_atlas.PacketSession.Refines.{
  new_demux-Holds, register-Holds, remove_by_id-Holds, entry,
}
use neon_core_atlas.PacketSession.Spec.{Entry, Holds, queue_of, drop_id, drop_first}
use neon_core_atlas.Prelude.{Among, ◌≡◌, refl, true, List, [], ◌∷◌, ◌++◌, ℕ, All, ◌≢◌}
use neon_core_atlas.Std.Bytes.{bytes_eq}
use neon_core_atlas.Std.Text.{Text, ascii}

abbrev key : Text
key = ascii "1.1.1.1:53"

abbrev waiting : List Entry
waiting = entry key 7 new_demux ∷ []

abbrev one : Demux
one = (register key 7 new_demux).1

one-Holds : Holds waiting one
one-Holds = (register-Holds [] new_demux key 7 new_demux-Holds tt []).0

register-Holds_example :
    Holds ([] ++ (entry key 7 new_demux ∷ [])) (register key 7 new_demux).1
    × ((register key 7 new_demux).0.receiver ≡ (entry key 7 new_demux).waiter.sender)
    × ((register key 7 new_demux).1.sent ≡ new_demux.sent)
    × All
        (λ c. c ≢ (register key 7 new_demux).0.receiver)
        (receivers
          (leaves key 7 ∷ asks key 8 ∷ fails [] ∷ asks key 7 ∷ [])
          (register key 7 new_demux).1)
register-Holds_example =
    register-Holds [] new_demux key 7 new_demux-Holds tt
      (leaves key 7 ∷ asks key 8 ∷ fails [] ∷ asks key 7 ∷ [])

remove_by_id-Holds_example :
    Holds (drop_id key 7 waiting) (remove_by_id key 7 one)
    × ((remove_by_id key 7 one).sent ≡ one.sent)
remove_by_id-Holds_example = remove_by_id-Holds waiting one key 7 one-Holds

queued : queue_of key waiting ≡ record { request_id = 7; sender = 0 } ∷ []
unfolding queue_of bytes_eq
queued = refl

deliver-oldest_example :
    ((deliver key (payload (1 ∷ [])) one).0 ≡ true)
    × ((deliver key (payload (1 ∷ [])) one).1.sent ≡ (0, payload (1 ∷ [])) ∷ one.sent)
    × Holds (drop_first key waiting) (deliver key (payload (1 ∷ [])) one).1
deliver-oldest_example =
    deliver-oldest waiting one key (payload (1 ∷ [])) (record { request_id = 7; sender = 0 }) []
      one-Holds queued

none_queued : queue_of key [] ≡ []
unfolding queue_of
none_queued = refl

deliver_next-oldest_example :
    ((deliver_next (payload (1 ∷ [])) one).0 ≡ true)
    × ((deliver_next (payload (1 ∷ [])) one).1.sent ≡ (0, payload (1 ∷ [])) ∷ one.sent)
    × Holds [] (deliver_next (payload (1 ∷ [])) one).1
deliver_next-oldest_example =
    deliver_next-oldest (entry key 7 new_demux) [] one (payload (1 ∷ [])) one-Holds

fail_all-everyone_example :
    ((e : Entry)
      → Among e waiting
      → Among (e.waiter.sender, failure (ascii "closed")) (fail_all (ascii "closed") one).sent)
    × ((x : ℕ × Reply) → Among x one.sent → Among x (fail_all (ascii "closed") one).sent)
    × Holds [] (fail_all (ascii "closed") one)
fail_all-everyone_example = fail_all-everyone waiting one (ascii "closed") one-Holds
