-- ===== src/Guest/Deadlines.antt =====
-- The beat (`enforceDeadlinesLocked` of core/usecase/deadlines.go): every deadline in its order, on a
-- guest and on a host.
use kanpachi.Base.{
  ℕ, ◌+◌, ◌*◌, ◌^◌, ◌≤◌, Bool, true, false, not, ◌&&◌, ◌⊎◌, ◌≡◌, ◌≢◌, refl, List, [], ◌∷◌, ◌++◌,
  Option, arith, if◌then◌else◌, Text, is_empty, codes, Bool-cases, inl, inr,
}
use kanpachi.Net.{Time, elapsed, Addr}
use kanpachi.Policy.{is_host, is_guest}
use kanpachi.Members.{forget}
use kanpachi.State.{
  in_room, host_silent, set_host_present, should_leave_for_host_absence,
  should_leave_for_reconnect_timeout, host_absence_limit, reconnect_limit,
}
use kanpachi.State.Types.{RoomState, idle, exit_host_gone, exit_tunnel_lost}
use kanpachi.Session.Issuing.{renew_credentials}
use kanpachi.Session.Notices.{tell_stale_members}
use kanpachi.Guest.{
  Guest, GuestCall, announces, republishes, renews_all, close_for_good, leave_locked,
}
use kanpachi.Guest.Return.{is_returning}
use kanpachi.Guest.Leaving.{is_returning-leave_locked}

-- `timing.KickGrace`, `AnnounceInterval`, `RepublishInterval` and `RenewInterval`, in nanoseconds.
abbrev pub kick_grace : ℕ
kick_grace = 30 * 10 ^ 9

abbrev pub announce_interval : ℕ
announce_interval = 2 * 60 * 10 ^ 9

abbrev pub republish_interval : ℕ
republish_interval = 3600 * 10 ^ 9

abbrev pub renew_interval : ℕ
renew_interval = 3600 * 10 ^ 9

-- What the registry of the room answers to a publication; `no_directory` where it cannot be opened.
pub data PublishAnswer : Type 0 where
  no_directory published unknown_room no_answer : PublishAnswer

abbrev pub after_publish : PublishAnswer → RoomState → RoomState
after_publish published r = record r { code_lost = false }
after_publish unknown_room r = record r { code_lost = true }
after_publish _ r = r

abbrev pub publish_calls : PublishAnswer → List GuestCall
publish_calls no_directory = []
publish_calls _ = republishes ∷ []

-- The readings of the clock of a beat, whether the health of the game or its redirection changed, the
-- answers of the registry and of the engine, and whom a notice reaches.
pub record Beat : Type 0 where
  pub now : Time
  pub absent_at : Time
  pub played_at : Time
  pub saved_at : Time
  pub game_changed : Bool
  pub announced_at : Time
  pub repeated_at : Time
  pub published_at : Time
  pub publish : PublishAnswer
  pub renewed_at : Time
  pub told_at : Time
  pub renewal : Text → Option Time
  pub reaches : Addr → Bool

-- What is let go, and the silence of the host, which is dated by the last sign of it.
unfoldable pub hear : Beat → Guest → Guest
hear b s =
    let r = s.state in
    let quiet = host_silent r b.now && r.host_present in
    record s {
      members = forget b.now kick_grace s.members;
      state = if quiet then set_host_present r false r.host_last_heard else r;
    }

-- The announcement of a change of the game.
unfoldable pub announce_game : Beat → Guest → Guest × List GuestCall
announce_game b s =
    if b.game_changed
    then (record s { last_announce = b.announced_at }, announces ∷ [])
    else (s, [])

unfoldable pub announce_again : Beat → Guest → Guest × List GuestCall
announce_again b s =
    if elapsed b.now s.last_announce announce_interval
    then (record s { last_announce = b.repeated_at }, announces ∷ [])
    else (s, [])

-- The step with `republishCardLocked`: a room without a card publishes none, and the instant is noted
-- whatever the answer.
unfoldable pub republish : Beat → Guest → Guest × List GuestCall
republish b s =
    if elapsed b.now s.last_publish republish_interval && not (is_empty s.sealed_card)
    then (
      record s { last_publish = b.published_at; state = after_publish b.publish s.state },
      publish_calls b.publish,
    )
    else (s, [])

unfoldable pub renew : Beat → Guest → Guest × List GuestCall
renew b s =
    if elapsed b.now s.last_renew renew_interval
    then (
      record s {
        last_renew = b.renewed_at;
        members = renew_credentials b.renewal b.renewed_at s.members;
      },
      renews_all ∷ [],
    )
    else (s, [])

unfoldable pub tell_stale : Beat → Guest → Guest
tell_stale b s = record s {
  members = (tell_stale_members b.reaches b.told_at s.state.peers s.members).0;
}

-- What the beat of a host does, in order.
unfoldable pub host_beat : Beat → Guest → Guest × List GuestCall
host_beat b s =
    let (s₁, c₁) = announce_game b s in
    let (s₂, c₂) = announce_again b s₁ in
    let (s₃, c₃) = republish b s₂ in
    let (s₄, c₄) = renew b s₃ in (tell_stale b s₄, c₁ ++ (c₂ ++ (c₃ ++ c₄)))

-- The wordings of the exits.
abbrev pub host_gone : Text
host_gone = codes "el host lleva veinte minutos sin aparecer"

abbrev pub tunnel_gone : Text
tunnel_gone = codes "el túnel no volvió a levantar"

-- `enforceDeadlinesLocked`, and whether it left the room.
unfoldable pub enforce_deadlines : Beat → Guest → Guest × List GuestCall × Bool
enforce_deadlines b s =
    if not (in_room s.state.conn)
    then (s, [], false)
    else (let s₁ = hear b s in
        if should_leave_for_host_absence s₁.state b.absent_at
        then (let (s', calls) =
              leave_locked b.played_at b.saved_at host_gone exit_host_gone close_for_good s₁ in
            (s', calls, true))
        else if should_leave_for_reconnect_timeout s₁.state b.now
        then (let (s', calls) =
              leave_locked b.played_at b.saved_at tunnel_gone exit_tunnel_lost close_for_good s₁ in
            (s', calls, true))
        else if is_host s₁.state.role
        then (let (s', calls) = host_beat b s₁ in (s', calls, false))
        else (s₁, [], false))

pub hear_same :
    (b : Beat) (s : Guest)
    → ((hear b s).state.conn ≡ s.state.conn)
      × ((hear b s).state.role ≡ s.state.role)
      × ((hear b s).state.room ≡ s.state.room)
      × ((hear b s).state.reconnecting_since ≡ s.state.reconnecting_since)
unfolding hear set_host_present
hear_same b s = elim (Bool-cases (host_silent s.state b.now && s.state.host_present)) [
  | inl e ↦ rw e (refl, refl, refl, refl)
  | inr e ↦ rw e (refl, refl, refl, refl)
]

-- The beat notices by itself that the host has not been heard of for twenty minutes.
silent-leaves :
    (b : Beat) (s : Guest)
    → is_guest s.state.role ≡ true
    → s.state.host_last_heard ≢ 0
    → s.state.host_present ≡ true
    → s.state.host_last_heard + host_absence_limit ≤ b.now
    → b.now ≤ b.absent_at
    → should_leave_for_host_absence (hear b s).state b.absent_at ≡ true
unfolding hear set_host_present host_silent should_leave_for_host_absence
silent-leaves b s g z p h a =
    let q : host_silent s.state b.now ≡ true = ground (arith, g, z, h) in
    rw q (rw p (ground (arith, g, z, h, a)))

tunnel-leaves :
    (b : Beat) (s : Guest)
    → in_room s.state.conn ≡ true
    → s.state.reconnecting_since ≢ 0
    → s.state.reconnecting_since + reconnect_limit ≤ b.now
    → should_leave_for_reconnect_timeout (hear b s).state b.now ≡ true
unfolding should_leave_for_reconnect_timeout
tunnel-leaves b s i n l = let (x, y, z, v) = hear_same b s in rw x (rw v (ground (arith, i, n, l)))

-- A beat twenty minutes after the last sign of the host, of which no absence was noticed before,
-- makes a guest leave, and a beat ten minutes after its tunnel went down does too; it is then on its
-- way back to the room. The room has an invite ID, and the clock does not go back during the beat.
pub enforce_deadlines-leave_locked :
    (b : Beat) (s : Guest)
    → in_room s.state.conn ≡ true
    → is_guest s.state.role ≡ true
    → is_empty s.state.room.invite_id ≡ false
    → b.now ≤ b.absent_at
    → ((s.state.host_last_heard ≢ 0)
        × (s.state.host_present ≡ true)
        × (s.state.host_last_heard + host_absence_limit ≤ b.now))
      ⊎ ((s.state.reconnecting_since ≢ 0) × (s.state.reconnecting_since + reconnect_limit ≤ b.now))
    → let (s', calls, out) = enforce_deadlines b s in
      (out ≡ true) × (s'.state.conn ≡ idle) × (is_returning s' ≡ true)
unfolding enforce_deadlines
enforce_deadlines-leave_locked b s i g e a w =
    let (x, y, z, v) = hear_same b s in
    let s₁ = hear b s in
    let i' : in_room s₁.state.conn ≡ true = rw x i in
    let h' : is_host s₁.state.role ≡ false = rw y (ground (arith, g)) in
    let e' : is_empty s₁.state.room.invite_id ≡ false = rw z e in
    let gone =
      is_returning-leave_locked b.played_at b.saved_at host_gone exit_host_gone close_for_good s₁ h'
        i' e' in
    let lost =
      is_returning-leave_locked b.played_at b.saved_at tunnel_gone exit_tunnel_lost close_for_good
        s₁ h' i' e' in
    rw i (elim (Bool-cases (should_leave_for_host_absence s₁.state b.absent_at)) [
      | inl q ↦ rw q (refl, gone.0, gone.3)
      | inr q ↦ elim w [
        | inl (n, p, l) ↦ absurd (ground (arith, q, silent-leaves b s g n p l a))
        | inr (n, l) ↦ let r = tunnel-leaves b s i n l in rw q (rw r (refl, lost.0, lost.3))
      ]
    ])
