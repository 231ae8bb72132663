-- ===== src/Guest/Upkeep.antt =====
-- What a host's beat keeps up (`enforceDeadlinesLocked` of core/usecase/deadlines.go): the
-- announcements, the card in the registry and the credentials.
use kanpachi.Base.{false, ◌&&◌, ◌||◌, ◌≡◌, List, any, if◌then◌else◌}
use kanpachi.Net.{Addr, addr_eq}
use kanpachi.Session.Issuing.{renewed_cred}
use kanpachi.Session.Turns.{entry}
use kanpachi.Guest.{Guest, GuestCall}
use kanpachi.Guest.Deadlines.{Beat}
use kanpachi.Guest.Keeping.{
  is_announce, is_publish, has_directory, is_lost_after, publish_due, again_due, renew_due,
}

-- What an upkeep asks for, and what it leaves.
abbrev pub Upkeep : Beat → Guest → Guest → List GuestCall → Type 0
Upkeep b s s' calls =
    (s'.state.conn ≡ s.state.conn)
    × (any is_announce calls ≡ (b.game_changed || again_due b s))
    × (any is_publish calls ≡ (publish_due b s && has_directory b.publish))
    × (s'.state.code_lost ≡ (
        if publish_due b s then is_lost_after b.publish s.state.code_lost else s.state.code_lost))
    × ((ip : Addr)
        → (entry ip s'.members).cred ≡ (
            if renew_due b s
            then renewed_cred b.renewal b.renewed_at (entry ip s.members).presence.in_mesh
                (entry ip s.members).cred
            else (entry ip s.members).cred))
    × (again_due b s' ≡ false)
    × (publish_due b s' ≡ false)
    × (renew_due b s' ≡ false)
