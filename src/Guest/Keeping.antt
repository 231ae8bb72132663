-- ===== src/Guest/Keeping.antt =====
-- The steps of a host's beat (`enforceDeadlinesLocked` of core/usecase/deadlines.go), one by one: what
-- each asks for when it is due, and what it leaves.
use kanpachi.Base.{
  ◌≤◌, Bool, true, false, not, ◌&&◌, ◌||◌, ◌≡◌, refl, List, [], ◌∷◌, ◌++◌, Option, arith, is_empty,
  Bool-cases, inl, inr, ◌∙◌, any, any-append, if◌then◌else◌, ◌==◌, lookup, Text,
}
use kanpachi.Net.{Time, elapsed, Addr, addr_eq}
use kanpachi.Members.{MemberTable}
use kanpachi.State.Types.{RoomState}
use kanpachi.Session.Issuing.{renew_credentials, renewed_cred}
use kanpachi.Session.Turns.{entry}
use kanpachi.Guest.{Guest, GuestCall, announces, republishes}
use kanpachi.Guest.Deadlines.{
  announce_interval, republish_interval, renew_interval, Beat, PublishAnswer, no_directory,
  published, unknown_room, no_answer, after_publish, publish_calls, announce_game, announce_again,
  republish, renew,
}

abbrev pub is_announce : GuestCall → Bool
is_announce announces = true
is_announce _ = false

abbrev pub is_publish : GuestCall → Bool
is_publish republishes = true
is_publish _ = false

abbrev pub has_directory : PublishAnswer → Bool
has_directory no_directory = false
has_directory _ = true

-- Whether the code of the room counts as lost after an answer of the registry.
abbrev pub is_lost_after : PublishAnswer → Bool → Bool
is_lost_after published lost = false
is_lost_after unknown_room lost = true
is_lost_after _ lost = lost

abbrev pub publish_due : Beat → Guest → Bool
publish_due b s = elapsed b.now s.last_publish republish_interval && not (is_empty s.sealed_card)

abbrev pub again_due : Beat → Guest → Bool
again_due b s = elapsed b.now s.last_announce announce_interval

abbrev pub renew_due : Beat → Guest → Bool
renew_due b s = elapsed b.now s.last_renew renew_interval

-- What the announcements leave as it is.
abbrev pub Kept : Guest → Guest → Type 0
Kept s x =
    (x.state ≡ s.state)
    × (x.sealed_card ≡ s.sealed_card)
    × (x.last_publish ≡ s.last_publish)
    × (x.last_renew ≡ s.last_renew)
    × (x.members ≡ s.members)

game-Kept : (b : Beat) (s : Guest) → Kept s (announce_game b s).0
unfolding announce_game
game-Kept b s = elim (Bool-cases b.game_changed) [
  | inl e ↦ rw e (refl, refl, refl, refl, refl)
  | inr e ↦ rw e (refl, refl, refl, refl, refl)
]

again-Kept : (b : Beat) (s : Guest) → Kept s (announce_again b s).0
unfolding announce_again
again-Kept b s = elim (Bool-cases (again_due b s)) [
  | inl e ↦ rw e (refl, refl, refl, refl, refl)
  | inr e ↦ rw e (refl, refl, refl, refl, refl)
]

pub both-Kept : (b : Beat) (s : Guest) → Kept s (announce_again b (announce_game b s).0).0
both-Kept b s =
    let (a, c, p, r, m) = game-Kept b s in
    let (a', c', p', r', m') = again-Kept b (announce_game b s).0 in
    (a' ∙ a, c' ∙ c, p' ∙ p, r' ∙ r, m' ∙ m)

pub announced_iff :
    (b : Beat) (s : Guest)
    → (any is_announce (announce_game b s).1
        || any is_announce (announce_again b (announce_game b s).0).1)
      ≡ (b.game_changed || again_due b s)
unfolding announce_game announce_again
announced_iff b s = elim (Bool-cases b.game_changed) [
  | inl e ↦ rw e refl
  | inr e ↦ rw e (elim (Bool-cases (again_due b s)) [ inl f ↦ rw f refl | inr f ↦ rw f refl ])
]

pub no_publish :
    (b : Beat) (s : Guest)
    → (any is_publish (announce_game b s).1 ≡ false)
      × (any is_publish (announce_again b s).1 ≡ false)
      × (any is_publish (renew b s).1 ≡ false)
unfolding announce_game announce_again renew
no_publish b s = (
  elim (Bool-cases b.game_changed) [ inl e ↦ rw e refl | inr e ↦ rw e refl ],
  elim (Bool-cases (again_due b s)) [ inl e ↦ rw e refl | inr e ↦ rw e refl ],
  elim (Bool-cases (renew_due b s)) [ inl e ↦ rw e refl | inr e ↦ rw e refl ],
)

publish_calls-lem :
    (a : PublishAnswer)
    → (any is_publish (publish_calls a) ≡ has_directory a)
      × (any is_announce (publish_calls a) ≡ false)
publish_calls-lem no_directory = (refl, refl)
publish_calls-lem published = (refl, refl)
publish_calls-lem unknown_room = (refl, refl)
publish_calls-lem no_answer = (refl, refl)

pub no_announce :
    (b : Beat) (s : Guest)
    → (any is_announce (republish b s).1 ≡ false) × (any is_announce (renew b s).1 ≡ false)
unfolding republish renew
no_announce b s = (
  elim (Bool-cases (publish_due b s)) [
    | inl e ↦ rw e (publish_calls-lem b.publish).1
    | inr e ↦ rw e refl
  ],
  elim (Bool-cases (renew_due b s)) [ inl e ↦ rw e refl | inr e ↦ rw e refl ],
)

pub again_announced :
    (b : Beat) (s : Guest) → b.now ≤ b.repeated_at → again_due b (announce_again b s).0 ≡ false
unfolding announce_again
again_announced b s n = elim (Bool-cases (again_due b s)) [
  | inl e ↦ rw e (ground (arith, n))
  | inr e ↦ rw e (rw e refl)
]

after_publish-lem :
    (a : PublishAnswer) (r : RoomState)
    → ((after_publish a r).conn ≡ r.conn)
      × ((after_publish a r).code_lost ≡ is_lost_after a r.code_lost)
after_publish-lem no_directory r = (refl, refl)
after_publish-lem published r = (refl, refl)
after_publish-lem unknown_room r = (refl, refl)
after_publish-lem no_answer r = (refl, refl)

-- The step that publishes the card.
pub republish_lem :
    (b : Beat) (s : Guest)
    → b.now ≤ b.published_at
    → let (x, calls) = republish b s in
      (any is_publish calls ≡ (publish_due b s && has_directory b.publish))
      × (publish_due b x ≡ false)
      × (x.state.conn ≡ s.state.conn)
      × (x.state.code_lost ≡ (
          if publish_due b s then is_lost_after b.publish s.state.code_lost else s.state.code_lost))
      × (x.last_announce ≡ s.last_announce)
      × (x.last_renew ≡ s.last_renew)
      × (x.members ≡ s.members)
unfolding republish
republish_lem b s n =
    let (c, l) = after_publish-lem b.publish s.state in
    elim (Bool-cases (publish_due b s)) [
      | inl e ↦ rw e ((publish_calls-lem b.publish).0, ground (arith, n), c, l, refl, refl, refl)
      | inr e ↦ rw e (refl, e, refl, refl, refl, refl, refl)
    ]

-- The step that renews the credentials.
pub renew_lem :
    (b : Beat) (s : Guest)
    → b.now ≤ b.renewed_at
    → let x = (renew b s).0 in
      (renew_due b x ≡ false)
      × (x.state ≡ s.state)
      × (x.sealed_card ≡ s.sealed_card)
      × (x.last_announce ≡ s.last_announce)
      × (x.last_publish ≡ s.last_publish)
      × (x.members ≡ (
          if renew_due b s then renew_credentials b.renewal b.renewed_at s.members else s.members))
unfolding renew
renew_lem b s n = elim (Bool-cases (renew_due b s)) [
  | inl e ↦ rw e (ground (arith, n), refl, refl, refl, refl, refl)
  | inr e ↦ rw e (e, refl, refl, refl, refl, refl)
]

pub entry-renew :
    (engine : Text → Option Time) (now : Time) (ip : Addr) (t : MemberTable)
    → (entry ip (renew_credentials engine now t)).cred
      ≡ renewed_cred engine now (entry ip t).presence.in_mesh (entry ip t).cred
unfolding renew_credentials lookup renewed_cred
entry-renew engine now ip [] = refl
entry-renew engine now ip ((j, m) ∷ t) = elim (Bool-cases (j == ip)) [
  | inl q ↦ rw q refl
  | inr q ↦ rw q (entry-renew engine now ip t)
]

pub calls-any :
    (p : GuestCall → Bool) (a c d e : List GuestCall)
    → any p (a ++ (c ++ (d ++ e))) ≡ (any p a || (any p c || (any p d || any p e)))
calls-any p a c d e =
    any-append p a (c ++ (d ++ e)) ∙ rw (any-append p c (d ++ e)) (rw (any-append p d e) refl)
