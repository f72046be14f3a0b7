-- ===== src/Kernel/Vless/RecordLimit/Boundaries.antt =====
-- A limited connection knows where it stands in the TLS records
-- (crates/neoncore-kernel/src/adapter/vless.rs).

use neon_core_atlas.Kernel.Vless.RecordLimit.{
  RecordLimitedTcp, read_body, read_header, poll_read, after_read, read_limit, new_limited,
}
use neon_core_atlas.Kernel.Vless.RecordLimit.Records.{Part, read_header-IsAt, read_body-IsAt, IsAt}
use neon_core_atlas.Prelude.{
  length, ◌≤◌, ◌<◌, ◌≡◌, refl, sym, ap, ◌∙◌, true, false, Option, none, some, List, [], ◌∷◌, ◌++◌,
  arith, ℕ, append_assoc, ◌==◌, Bool-cases, length-append, ◌-◌, subst, inl, inr, append-nil,
  if◌then◌else◌, Option-cases, take, drop, length-take, Bool, ◌||◌,
}
use neon_core_atlas.Std.Bytes.{Bytes}
use neon_core_atlas.Stream.{flatten}

-- What a poll gives, with nothing for a pause.
unfoldable pub given : Option Bytes → Bytes
given none = []
given (some bytes) = bytes

after_read_header :
    (s : RecordLimitedTcp) (chunk : Bytes)
    → s.remaining_body ≡ none
    → after_read s chunk ≡ read_header (s.header ++ chunk)
unfolding after_read
after_read_header s chunk e =
    ap
      (λ (o : Option ℕ). elim o [
        | some remaining ↦ read_body s.header remaining (length chunk)
        | none ↦ read_header (s.header ++ chunk)
      ])
      e

after_read_body :
    (s : RecordLimitedTcp) (chunk : Bytes) (n : ℕ)
    → s.remaining_body ≡ some n
    → after_read s chunk ≡ read_body s.header n (length chunk)
unfolding after_read
after_read_body s chunk n e =
    ap
      (λ (o : Option ℕ). elim o [
        | some remaining ↦ read_body s.header remaining (length chunk)
        | none ↦ read_header (s.header ++ chunk)
      ])
      e

read_limit_header :
    (s : RecordLimitedTcp) (room : ℕ)
    → s.remaining_body ≡ none
    → read_limit s room ≤ 5 - length s.header
unfolding read_limit
read_limit_header s room e = ground (arith, e)

read_limit_body :
    (s : RecordLimitedTcp) (room n : ℕ) → s.remaining_body ≡ some n → read_limit s room ≤ n
unfolding read_limit
read_limit_body s room n e = ground (arith, e)

after_read-IsAt :
    (s : RecordLimitedTcp) (room : ℕ) (tcp seen : Bytes)
    → IsAt s seen
    → IsAt (after_read s (take (read_limit s room) tcp)) (seen ++ take (read_limit s room) tcp)
unfolding after_read
after_read-IsAt s room tcp seen a = elim (Option-cases s.remaining_body) [
  | inl e ↦
      subst (λ (t : RecordLimitedTcp). IsAt t (seen ++ chunk)) (sym (to_header e))
        (read_header-IsAt s seen chunk a e
          (omega (arith, header_room e, size, length-append s.header chunk, short e)))
  | inr (remaining, e) ↦
      subst (λ (t : RecordLimitedTcp). IsAt t (seen ++ chunk)) (sym (to_body remaining e))
        (read_body-IsAt s seen chunk a remaining e (omega (arith, body_room remaining e, size)))
]
  where
    chunk : Bytes
    chunk = take (read_limit s room) tcp

    size : length chunk ≤ read_limit s room
    size = omega (arith, length-take (read_limit s room) tcp)

    to_header : s.remaining_body ≡ none → after_read s chunk ≡ read_header (s.header ++ chunk)
    to_header e = after_read_header s chunk e

    to_body :
        (n : ℕ)
        → s.remaining_body ≡ some n
        → after_read s chunk ≡ read_body s.header n (length chunk)
    to_body n e = after_read_body s chunk n e

    short : s.remaining_body ≡ none → length s.header < 5
    short e = (subst (λ (o : Option ℕ). Part o s.header a.part) e a.here).1

    header_room : s.remaining_body ≡ none → read_limit s room ≤ 5 - length s.header
    header_room e = read_limit_header s room e

    body_room : (n : ℕ) → s.remaining_body ≡ some n → read_limit s room ≤ n
    body_room n e = read_limit_body s room n e

-- What holds of the state before a poll holds of what it leaves and gives.
abbrev Gives : Bytes → Option Bytes × Bytes × RecordLimitedTcp → Type 0
Gives seen r = IsAt r.2 (seen ++ given r.0)

poll_read-IsAt :
    (s : RecordLimitedTcp) (room : ℕ) (tcp seen : Bytes)
    → IsAt s seen
    → Gives seen (poll_read s room tcp)
unfolding poll_read given
poll_read-IsAt s room tcp seen a = elim (Bool-cases s.pending_yield) [
  | inl e ↦
      subst (λ (t : Bool). Gives seen (if t then paused else unpaused)) (sym e)
        (nothing_read _ refl)
  | inr e ↦ subst (λ (t : Bool). Gives seen (if t then paused else unpaused)) (sym e) (open_read _)
]
  where
    paused : Option Bytes × Bytes × RecordLimitedTcp
    paused = (none, tcp, record s { pending_yield = false })

    limit : ℕ
    limit = read_limit s room

    unpaused : Option Bytes × Bytes × RecordLimitedTcp
    unpaused =
        if (room == 0) || (length (take limit tcp) == 0)
        then (some [], tcp, s)
        else (some (take limit tcp), drop limit tcp, after_read s (take limit tcp))

    nothing_read : (y : Bool) → y ≡ false → IsAt (record s { pending_yield = y }) (seen ++ [])
    nothing_read y e = record {
      records = a.records;
      part = a.part;
      whole = a.whole;
      joined = append-nil seen ∙ a.joined;
      here = a.here;
      pause = λ k. cc;
    }

    open_read :
        (b : Bool)
        → Gives seen (
            if b
            then (some [], tcp, s)
            else (some (take limit tcp), drop limit tcp, after_read s (take limit tcp)))
    open_read true = subst (IsAt s) (sym (append-nil seen)) a
    open_read false = after_read-IsAt s room tcp seen a

-- Polls of the connection with room in the reader's buffer, as bytes arrive: what was read, and how the
-- connection stands.
unfoldable pub poll_all : RecordLimitedTcp → List ℕ → Bytes → Bytes × Bytes × RecordLimitedTcp
poll_all s [] tcp = ([], tcp, s)
poll_all s (room ∷ rooms) tcp =
    let (out, left, s') = poll_read s room tcp in
    let (more, end, s'') = poll_all s' rooms left in (given out ++ more, end, s'')

poll_all-IsAt :
    (s : RecordLimitedTcp) (rooms : List ℕ) (tcp seen : Bytes)
    → IsAt s seen
    → IsAt (poll_all s rooms tcp).2 (seen ++ (poll_all s rooms tcp).0)
unfolding poll_all
poll_all-IsAt s [] tcp seen a = subst (IsAt s) (sym (append-nil seen)) a
poll_all-IsAt s (room ∷ rooms) tcp seen a =
    let (out, left, s') = poll_read s room tcp in
    subst (IsAt (poll_all s' rooms left).2)
      (append_assoc seen (given out) (poll_all s' rooms left).0)
      (poll_all-IsAt s' rooms left (seen ++ given out) (poll_read-IsAt s room tcp seen a))

-- However often a new connection is polled and with whatever room, what was read are whole TLS records
-- and the part of one that the state is in, and a read pauses only between two records.
pub poll_all-new_limited :
    (rooms : List ℕ) (tcp : Bytes)
    → IsAt (poll_all new_limited rooms tcp).2 (poll_all new_limited rooms tcp).0
unfolding flatten
poll_all-new_limited rooms tcp = poll_all-IsAt new_limited rooms tcp [] begin
  where
    begin : IsAt new_limited []
    begin = record {
      records = [];
      part = [];
      whole = tt;
      joined = refl;
      here = (refl, omega arith);
      pause = λ e. refl;
    }
