-- ===== src/State/Machine.antt =====
-- The transitions of the connection and leaving the room
-- (core/domain/state.go).
use kanpachi.Base.{
  ◌+◌, ◌%◌, ◌^◌, true, false, ◌≡◌, refl, List, [], ◌∷◌, none, some, arith, Text, Bool-cases, inl,
  inr, ◌⊎◌, if◌then◌else◌, ◌∙◌, ap, sym, subst,
}
use kanpachi.Net.{no_addr, no_prefix, Prefix}
use kanpachi.Profile.{no_game}
use kanpachi.Policy.{role_unset, is_guest}
use kanpachi.Canary.{no_check}
use kanpachi.State.Types.{ConnState, idle, ExitReason, RoomState, no_room}
use kanpachi.State.{can_go_to, clear_room, transition_with_exit, in_room, is_exit_none}

-- Nothing of a room is left.
pub record IsCleared (r : RoomState) : Type 0 where
  pub no_role : r.role ≡ role_unset
  pub no_code : r.room ≡ no_room
  pub no_name : r.name ≡ []
  pub no_peers : r.peers ≡ []
  pub no_host : r.host_present ≡ false
  pub no_absence : r.host_gone_since ≡ 0
  pub no_voice : r.host_last_heard ≡ 0
  pub no_outage : r.reconnecting_since ≡ 0
  pub no_profile : r.game ≡ no_game
  pub no_address : r.local_ip ≡ no_addr
  pub no_alerts : r.alerts ≡ []
  pub no_canary : r.canary ≡ no_check
  pub code_safe : r.code_lost ≡ false

-- The subnet after a room is left: a guest's came with the room.
abbrev pub kept_subnet : RoomState → Prefix
kept_subnet r = if is_guest r.role then no_prefix else r.subnet

can_go_to-idle : (s : ConnState) → can_go_to s idle ≡ true
unfolding can_go_to
can_go_to-idle s = ground arith

-- What leaving makes of a state.
abbrev after_leave : RoomState → ExitReason → RoomState
after_leave r exit =
    let left = clear_room (record r { conn = idle }) in
    if is_exit_none exit then left else record left { last_exit = exit }

leave-eq :
    (r : RoomState) (reason : Text) (exit : ExitReason)
    → transition_with_exit r idle reason exit ≡ (after_leave r exit, none)
unfolding transition_with_exit
leave-eq r reason exit = rw (can_go_to-idle r.conn) refl

pub leave-conn :
    (r : RoomState) (reason : Text) (exit : ExitReason)
    → (transition_with_exit r idle reason exit).0.conn ≡ idle
unfolding clear_room
leave-conn r reason exit =
    rw (leave-eq r reason exit)
      (elim (Bool-cases (is_exit_none exit)) [ inl e ↦ rw e refl | inr e ↦ rw e refl ])

after_leave-IsCleared : (r : RoomState) (exit : ExitReason) → IsCleared (after_leave r exit)
unfolding clear_room
after_leave-IsCleared r exit = elim (Bool-cases (is_exit_none exit)) [
  | inl e ↦ rw e (record {
    no_role = refl;
    no_code = refl;
    no_name = refl;
    no_peers = refl;
    no_host = refl;
    no_absence = refl;
    no_voice = refl;
    no_outage = refl;
    no_profile = refl;
    no_address = refl;
    no_alerts = refl;
    no_canary = refl;
    code_safe = refl;
  })
  | inr e ↦ rw e (record {
    no_role = refl;
    no_code = refl;
    no_name = refl;
    no_peers = refl;
    no_host = refl;
    no_absence = refl;
    no_voice = refl;
    no_outage = refl;
    no_profile = refl;
    no_address = refl;
    no_alerts = refl;
    no_canary = refl;
    code_safe = refl;
  })
]

-- Leaving works from every state. It clears the room, counts one generation more, keeps the subnet
-- except a guest's, keeps the machine's own measurements, and sets the reason if one is given.
pub leave_lem :
    (r : RoomState) (reason : Text) (exit : ExitReason)
    → let (r', e) = transition_with_exit r idle reason exit in
      (e ≡ none)
      × (r'.conn ≡ idle)
      × IsCleared r'
      × (r'.gen ≡ (r.gen + 1) % 2 ^ 64)
      × (r'.subnet ≡ kept_subnet r)
      × (r'.net.nat_kind ≡ r.net.nat_kind)
      × (r'.net.seed_rtt ≡ r.net.seed_rtt)
      × (r'.quarantine ≡ r.quarantine)
      × (r'.last_exit ≡ (if is_exit_none exit then r.last_exit else exit))
unfolding clear_room
leave_lem r reason exit = rw (leave-eq r reason exit) (elim (Bool-cases (is_exit_none exit)) [
  | inl e ↦ (
    refl,
    rw e refl,
    after_leave-IsCleared r exit,
    rw e refl,
    rw e refl,
    rw e refl,
    rw e refl,
    rw e refl,
    rw e refl,
  )
  | inr e ↦ (
    refl,
    rw e refl,
    after_leave-IsCleared r exit,
    rw e refl,
    rw e refl,
    rw e refl,
    rw e refl,
    rw e refl,
    rw e refl,
  )
])

-- A transition is refused exactly if the table does not allow it; then nothing changes and the error
-- names both states. Else the state is the next one, and with a next state in a room only it changes.
pub transition_with_exit_lem :
    (r : RoomState) (next : ConnState) (reason : Text) (exit : ExitReason)
    → let (r', e) = transition_with_exit r next reason exit in
      (can_go_to r.conn next ≡ false
        → (r' ≡ r) × (e ≡ some (record { from = r.conn; to = next; reason = reason })))
      × (can_go_to r.conn next ≡ true → (r'.conn ≡ next) × (e ≡ none))
      × (can_go_to r.conn next ≡ true → in_room next ≡ true → r' ≡ record r { conn = next })
unfolding transition_with_exit
transition_with_exit_lem r next reason exit =
    (λ h. (ground arith, ground arith), λ h. (ground arith, ground arith), λ h k. ground arith)

-- One transition of a sequence.
abbrev pub Move : Type 0
Move = ConnState × Text × ExitReason

abbrev pub move_all : RoomState → List Move → RoomState
move_all r [] = r
move_all r ((next, reason, exit) ∷ ms) = move_all (transition_with_exit r next reason exit).0 ms

-- What a session is after a room: nothing of the room is left, and of the subnet and its reason only
-- what this machine chose as a host. What describes the machine stays.
pub record IsLeft (r r' : RoomState) : Type 0 where
  pub cleared : IsCleared r'
  pub subnet_same : r'.subnet ≡ kept_subnet r
  pub net_subnet_same : r'.net.subnet ≡ (if is_guest r.role then no_prefix else r.net.subnet)
  pub reason_same : r'.net.subnet_reason ≡ (if is_guest r.role then [] else r.net.subnet_reason)
  pub machine_same :
      (r'.net.nat_kind ≡ r.net.nat_kind)
      × (r'.net.udp_blocked ≡ r.net.udp_blocked)
      × (r'.net.seed_rtt ≡ r.net.seed_rtt)
      × (r'.net.mtu ≡ r.net.mtu)
      × (r'.quarantine ≡ r.quarantine)

after_leave-IsLeft : (r : RoomState) (exit : ExitReason) → IsLeft r (after_leave r exit)
unfolding clear_room
after_leave-IsLeft r exit = record {
  cleared = after_leave-IsCleared r exit;
  subnet_same = (elim (Bool-cases (is_exit_none exit)) [ inl e ↦ rw e refl | inr e ↦ rw e refl ]);
  net_subnet_same = (elim (Bool-cases (is_exit_none exit)) [
    | inl e ↦ rw e refl
    | inr e ↦ rw e refl
  ]);
  reason_same = (elim (Bool-cases (is_exit_none exit)) [ inl e ↦ rw e refl | inr e ↦ rw e refl ]);
  machine_same = (elim (Bool-cases (is_exit_none exit)) [
    | inl e ↦ rw e (refl, refl, refl, refl, refl)
    | inr e ↦ rw e (refl, refl, refl, refl, refl)
  ]);
}

-- Leaving again changes nothing of that.
IsLeft-again : (r r' r'' : RoomState) → IsLeft r r' → IsLeft r' r'' → IsLeft r r''
IsLeft-again r r' r'' p q =
    let (a, b, c, d, e) = p.machine_same in
    let (a', b', c', d', e') = q.machine_same in
    let n : is_guest r'.role ≡ false = rw (p.cleared.no_role) refl in
    record {
      cleared = q.cleared;
      subnet_same = rw n at q.subnet_same ∙ p.subnet_same;
      net_subnet_same = rw n at q.net_subnet_same ∙ p.net_subnet_same;
      reason_same = rw n at q.reason_same ∙ p.reason_same;
      machine_same = (a' ∙ a, b' ∙ b, c' ∙ c, d' ∙ d, e' ∙ e);
    }

-- A session that was in a room is in it still, or has left it.
abbrev StaysOrLeft : RoomState → RoomState → Type 0
StaysOrLeft r r' = ((r' ≡ record r { conn = r'.conn }) × (in_room r'.conn ≡ true)) ⊎ IsLeft r r'

leave-IsLeft :
    (r r' : RoomState) (exit : ExitReason) → StaysOrLeft r r' → IsLeft r (after_leave r' exit)
leave-IsLeft r r' exit (inl (e, i)) =
    subst (λ x. IsLeft r (after_leave x exit)) (sym e) (after_leave-IsLeft r exit)
leave-IsLeft r r' exit (inr l) =
    IsLeft-again r r' (after_leave r' exit) l (after_leave-IsLeft r' exit)

move-StaysOrLeft :
    (r r' : RoomState) (next : ConnState) (reason : Text) (exit : ExitReason)
    → StaysOrLeft r r'
    → StaysOrLeft r (transition_with_exit r' next reason exit).0
move-StaysOrLeft r r' idle reason exit h =
    rw (leave-eq r' reason exit) (inr (leave-IsLeft r r' exit h))
move-StaysOrLeft r r' next reason exit h =
    let (refused, taken, still) = transition_with_exit_lem r' next reason exit in
    elim (Bool-cases (can_go_to r'.conn next)) [
      | inr g ↦ rw (refused g).0 h
      | inl g ↦ rw (still g refl) (elim h [
        | inl (e, i) ↦ inl (ap (λ (x : RoomState). record x { conn = next }) e, refl)
        | inr l ↦ inr (record {
          cleared = record {
            no_role = l.cleared.no_role;
            no_code = l.cleared.no_code;
            no_name = l.cleared.no_name;
            no_peers = l.cleared.no_peers;
            no_host = l.cleared.no_host;
            no_absence = l.cleared.no_absence;
            no_voice = l.cleared.no_voice;
            no_outage = l.cleared.no_outage;
            no_profile = l.cleared.no_profile;
            no_address = l.cleared.no_address;
            no_alerts = l.cleared.no_alerts;
            no_canary = l.cleared.no_canary;
            code_safe = l.cleared.code_safe;
          };
          subnet_same = l.subnet_same;
          net_subnet_same = l.net_subnet_same;
          reason_same = l.reason_same;
          machine_same = l.machine_same;
        })
      ])
    ]

move_all-StaysOrLeft :
    (r r' : RoomState) (ms : List Move) → StaysOrLeft r r' → StaysOrLeft r (move_all r' ms)
move_all-StaysOrLeft r r' [] h = h
move_all-StaysOrLeft r r' ((next, reason, exit) ∷ ms) h =
    move_all-StaysOrLeft r (transition_with_exit r' next reason exit).0 ms
      (move-StaysOrLeft r r' next reason exit h)

-- Whatever transitions follow in a room, refused ones included, where they end without a room its
-- role, code, name, members, profile, address and alerts, its check of the wall and the marks of an
-- absent host, a fallen tunnel and a lost code are gone. So are the subnet and the reason for it if
-- this machine was a guest, to which they came with the room; a host keeps those that it chose. The
-- measurements of the machine and its quarantine stay.
pub move_all-IsTidy :
    (r : RoomState) (ms : List Move)
    → in_room r.conn ≡ true
    → (move_all r ms).conn ≡ idle
    → IsLeft r (move_all r ms)
move_all-IsTidy r ms i e = elim (move_all-StaysOrLeft r r ms (inl (refl, i))) [
  | inl (same, inside) ↦ absurd (ground (arith, rw e at inside))
  | inr l ↦ l
]
