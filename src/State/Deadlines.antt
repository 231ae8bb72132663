-- ===== src/State/Deadlines.antt =====
-- The clocks that make a machine leave its room (core/domain/state.go).
use kanpachi.Base.{◌+◌, true, false, ◌≡◌, ◌≢◌, refl, List, [], ◌∷◌, arith, leb}
use kanpachi.Net.{Time}
use kanpachi.Policy.{is_guest}
use kanpachi.State.Types.{RoomState}
use kanpachi.State.{
  set_host_present, note_host_alive, host_silent, should_leave_for_host_absence, host_absence_limit,
  host_silence_limit, set_tunnel_down, set_tunnel_up, should_leave_for_reconnect_timeout,
  reconnect_limit, in_room,
}

-- Beats at which the host is not there.
unfoldable pub absent_beats : RoomState → List Time → RoomState
absent_beats r [] = r
absent_beats r (t ∷ ts) = absent_beats (set_host_present r false t) ts

-- The absence is counted from `first`.
abbrev IsGone : Time → RoomState → Type 0
IsGone first r = (r.host_present ≡ false) × (r.host_gone_since ≡ first)

beat-IsGone :
    (first t : Time) (r : RoomState)
    → first ≢ 0
    → IsGone first r
    → IsGone first (set_host_present r false t)
unfolding set_host_present
beat-IsGone first t r z g = ground arith

beats-IsGone :
    (first : Time) (ts : List Time) (r : RoomState)
    → first ≢ 0
    → IsGone first r
    → IsGone first (absent_beats r ts) × ((absent_beats r ts).role ≡ r.role)
unfolding absent_beats set_host_present
beats-IsGone first [] r z g = (g, refl)
beats-IsGone first (t ∷ ts) r z g =
    let (i, same) =
      beats-IsGone first ts (set_host_present r false t) z (beat-IsGone first t r z g) in
    (i, same)

-- The counter of an absence starts at the first beat without the host and is not restarted by later
-- ones: after any of them a guest leaves exactly from twenty minutes after the first beat on, and a
-- host never leaves its own room for this.
pub absence_counts_from_first :
    (r : RoomState) (first : Time) (later : List Time) (now : Time)
    → first ≢ 0
    → r.host_present ≡ true
    → let gone = absent_beats r (first ∷ later) in
      (is_guest r.role ≡ true
        → should_leave_for_host_absence gone now ≡ leb (first + host_absence_limit) now)
      × (is_guest r.role ≡ false → should_leave_for_host_absence gone now ≡ false)
unfolding absent_beats should_leave_for_host_absence set_host_present
absence_counts_from_first r first later now z h =
    let s = set_host_present r false first in
    let b = beats-IsGone first later s z (ground arith) in
    (λ g. ground (arith, b), λ g. ground (arith, b))

-- Any sign of life from the host stops a guest's count of absence and starts the count of silence
-- anew; on a host it changes nothing.
pub note_host_alive_lem :
    (r : RoomState) (at now : Time)
    → at ≢ 0
    → (is_guest r.role ≡ true
        → (should_leave_for_host_absence (note_host_alive r at) now ≡ false)
          × (host_silent (note_host_alive r at) now ≡ leb (at + host_silence_limit) now))
      × (is_guest r.role ≡ false → note_host_alive r at ≡ r)
unfolding note_host_alive should_leave_for_host_absence host_silent set_host_present
note_host_alive_lem r at now z = (λ g. (ground arith, ground arith), λ g. ground arith)

-- Reports that the tunnel is down.
unfoldable pub down_reports : RoomState → List Time → RoomState
down_reports r [] = r
down_reports r (t ∷ ts) = down_reports (set_tunnel_down r t) ts

down-since :
    (first : Time) (ts : List Time) (r : RoomState)
    → first ≢ 0
    → r.reconnecting_since ≡ first
    → down_reports r ts ≡ r
unfolding down_reports set_tunnel_down
down-since first [] r z g = refl
down-since first (t ∷ ts) r z g = ground (arith, down-since first ts r z g)

-- The outage is counted from the first report, in both roles: in a room the machine leaves exactly
-- from ten minutes after it on, and a tunnel that comes back stops the count.
pub outage_counts_from_first :
    (r : RoomState) (first : Time) (later : List Time) (now : Time)
    → first ≢ 0
    → r.reconnecting_since ≡ 0
    → in_room r.conn ≡ true
    → let down = down_reports r (first ∷ later) in
      (should_leave_for_reconnect_timeout down now ≡ leb (first + reconnect_limit) now)
      × (should_leave_for_reconnect_timeout (set_tunnel_up down) now ≡ false)
unfolding down_reports should_leave_for_reconnect_timeout set_tunnel_up set_tunnel_down
outage_counts_from_first r first later now z h i =
    let s = set_tunnel_down r first in
    let b = down-since first later s z (ground arith) in (ground (arith, b), ground arith)
