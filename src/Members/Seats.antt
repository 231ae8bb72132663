-- ===== src/Members/Seats.antt =====
-- What the notes on one member add up to (core/domain/member.go).
use kanpachi.Base.{ℕ, ◌+◌, ◌-◌, ◌≤◌, ◌<◌, true, false, ◌≡◌, ◌≢◌, some, arith}
use kanpachi.Net.{Time}
use kanpachi.Members.{
  Member, PathKind, Credential, note_mesh, note_out_of_mesh, away_for, is_member, is_away,
  seat_frees_in, is_expired, has_seat, no_path,
}

-- A member seen in the mesh at `seen` and lost later is away since that sighting, and not since the
-- loss; it keeps its seat exactly as long as its credential is neither revoked nor expired.
pub away_for-note_out_of_mesh :
    (m : Member) (seen now : Time) (path : PathKind) (rtt : ℕ)
    → seen ≢ 0
    → seen ≤ now
    → let lost = note_out_of_mesh (note_mesh m seen path rtt) in
      (away_for lost now ≡ now - seen)
      × (lost.path ≡ no_path)
      × (m.presence.kicked ≡ false → is_member lost now ≡ has_seat m.cred now)
      × (m.presence.kicked ≡ false → is_away lost now ≡ has_seat m.cred now)
unfolding away_for note_out_of_mesh note_mesh is_member is_away
away_for-note_out_of_mesh m seen now path rtt z le = ground arith

-- A seat that is held has time left, to the expiry of the credential, and none is left after it.
pub seat_frees_in_lem :
    (m : Member) (now : Time) (c : Credential)
    → m.cred ≡ some c
    → c.expires_at ≢ 0
    → ((is_expired c now ≡ true → seat_frees_in m now ≡ 0)
        × (is_expired c now ≡ false
            → (0 < seat_frees_in m now) × (now + seat_frees_in m now ≡ c.expires_at)))
unfolding seat_frees_in is_expired
seat_frees_in_lem m now c e z = ground arith
