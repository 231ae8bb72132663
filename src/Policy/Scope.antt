-- ===== src/Policy/Scope.antt =====
-- The two rules of the room's channel, the twin rules of a redirected game, and how the two kinds
-- of rule are told apart (`ControlRules`, `MirrorLocal` and `IsControl` of core/domain/policy.go).
use kanpachi.Base.{
  ℕ, Bool, true, false, ◌&&◌, not, ◌≡◌, ◌≢◌, refl, subst, List, [], ◌∷◌, ◌++◌, arith, leb, contains,
  any, any_empty, any-sort, All, All-sort, Bool-cases, inl, inr, ◌⊎◌, ◌↔◌, Text, codes, has_prefix,
  ok, err, is_empty, sort, text_order, ◌==◌,
}
use kanpachi.Net.{Addr, is_valid, addr_eq}
use kanpachi.Ports.{Proto, proto_tcp, PortRange}
use kanpachi.Policy.{
  Role, role_unset, host, guest, role_text, is_host, FirewallRule, RuleSet, rule_key, allows,
  normalize_members, rule_name, control_port, in_lobby_space, room_prefix, is_control, door_rule,
  room_rule, room_rules, control_rules, rule_wide_open, mirrored, mirror_local, rule_for,
  proto_text, spec,
}
use kanpachi.Policy.Members.{contains-normalize_members}

module _ (lobby room : Addr) (members : List Addr) where
  -- What a rule of the channel may be: TCP on the channel's port, and either the door, open to the
  -- /24 of the lobby address and to nobody by name, or the room, open by name to members only.
  pub record IsChannel (r : FirewallRule) : Type 0 where
    pub tcp : r.proto ≡ proto_tcp
    pub low : r.from ≡ control_port
    pub high : r.to ≡ control_port
    pub marked : is_control r ≡ true
    pub scoped :
        ((r.local ≡ lobby)
          × (in_lobby_space lobby ≡ true)
          × (r.remote ≡ [])
          × (r.nets ≡ room_prefix lobby ∷ []))
        ⊎ ((r.local ≡ room)
            × (is_valid room ≡ true)
            × (r.nets ≡ [])
            × (is_empty r.remote ≡ false)
            × ((a : Addr) → contains a r.remote ≡ true → (contains a members ≡ true) × (a ≢ room)))

  door-IsChannel : in_lobby_space lobby ≡ true → IsChannel (door_rule lobby)
  unfolding is_control
  door-IsChannel h = record {
    tcp = refl;
    low = refl;
    high = refl;
    marked = refl;
    scoped = inl (refl, h, refl, refl);
  }

  room-IsChannel :
      is_valid room ≡ true
      → is_empty (normalize_members room members) ≡ false
      → IsChannel (room_rule room (normalize_members room members))
  unfolding is_control
  room-IsChannel v n = record {
    tcp = refl;
    low = refl;
    high = refl;
    marked = refl;
    scoped = inr (
      refl,
      v,
      refl,
      n,
      λ a c. ground (
        arith,
        contains-normalize_members room a members,
        (addr_eq.equal_iff a room).0,
        (addr_eq.equal_iff a room).1,
      ),
    );
  }

  rooms-IsChannel : All IsChannel (room_rules room members)
  rooms-IsChannel =
      elim (Bool-cases (is_valid room && not (is_empty (normalize_members room members)))) [
        | inl e ↦ rw e (room-IsChannel (ground (arith, e)) (ground (arith, e)), tt)
        | inr e ↦ rw e tt
      ]

  -- A guest opens nothing for the channel. A host is refused exactly if the lobby address is valid
  -- and outside the lobby space; else all the rules are channel rules.
  pub control_rules_lem :
      ((role : Role) → is_host role ≡ false → control_rules role lobby room members ≡ ok [])
      × ((control_rules host lobby room members ≡ err (rule_wide_open lobby))
          ↔ ((is_valid lobby ≡ true) × (in_lobby_space lobby ≡ false)))
      × ((rules : List FirewallRule)
          → control_rules host lobby room members ≡ ok rules
          → All IsChannel rules)
  unfolding control_rules
  control_rules_lem =
      (λ role h. rw h refl, (λ h. ground arith, λ h. ground arith), λ rules h. go rules h)
    where
      go :
          (rules : List FirewallRule)
          → control_rules host lobby room members ≡ ok rules
          → All IsChannel rules
      go rules h = elim (Bool-cases (is_valid lobby)) [
        | inr e ↦
            let q : sort rule_key (room_rules room members) ≡ rules = ground (arith, e, h) in
            subst (All IsChannel) q
              (All-sort rule_key IsChannel (room_rules room members) rooms-IsChannel)
        | inl e ↦ elim (Bool-cases (in_lobby_space lobby)) [
          | inr f ↦ ground (arith, e, f)
          | inl f ↦
              let q : sort rule_key (door_rule lobby ∷ room_rules room members) ≡ rules =
                ground (arith, e, f, h) in
              subst (All IsChannel) q (
                All-sort rule_key IsChannel (door_rule lobby ∷ room_rules room members)
                  (door-IsChannel f, rooms-IsChannel))
        ]
      ]

-- No space in a text, as in the id of a profile.
abbrev pub NoSpace : Text → Type 0
NoSpace = All (λ c. c ≢ 32)

-- What stands behind the group in the name of a game's rule is not the channel's mark.
not_mark :
    (role : Role) (id rest : Text)
    → NoSpace id
    → has_prefix (id ++ (codes " " ++ (role_text role ++ rest))) (codes "canal de control ") ≡ false
not_mark role [] rest h = refl
not_mark role (a ∷ []) rest h = ground arith
not_mark role (a ∷ b ∷ []) rest h = ground arith
not_mark role (a ∷ b ∷ c ∷ []) rest h = ground arith
not_mark role (a ∷ b ∷ c ∷ d ∷ []) rest h = ground arith
not_mark role_unset (a ∷ b ∷ c ∷ d ∷ e ∷ []) rest h = ground arith
not_mark host (a ∷ b ∷ c ∷ d ∷ e ∷ []) rest h = ground arith
not_mark guest (a ∷ b ∷ c ∷ d ∷ e ∷ []) rest h = ground arith
not_mark role (a ∷ b ∷ c ∷ d ∷ e ∷ f ∷ id) rest h = ground arith

-- No rule that a profile asks for is taken for a rule of the channel, in any role, if the
-- profile's id has no space.
pub is_control-rule_for :
    (id : Text) (role : Role) (local : Addr) (members : List Addr) (r : PortRange) (q : Proto)
    → NoSpace id
    → is_control (rule_for id role local members r q) ≡ false
unfolding is_control rule_name
is_control-rule_for id role local members r q h =
    not_mark role id (codes " " ++ (proto_text q ++ (codes " " ++ spec r))) h

-- The test for a rule anchored at `at` that holds a port.
abbrev pub opens : Addr → ℕ → FirewallRule → Bool
opens at port r = r.local == at && leb r.from port && leb port r.to

module _ (addr_text : Addr → Text) (addr : Addr) where
  any-mirrored :
      (rs : List FirewallRule) (port : ℕ)
      → any (λ r. leb r.from port && leb port r.to) (mirrored addr_text addr rs)
        ≡ any (λ r. leb r.from port && leb port r.to) rs
  unfolding mirrored
  any-mirrored [] port = refl
  any-mirrored (r ∷ rs) port = ground (arith, any-mirrored rs port)

  any-mirrored-addr :
      (rs : List FirewallRule) (port : ℕ)
      → any (opens addr port) (mirrored addr_text addr rs)
        ≡ any (λ r. leb r.from port && leb port r.to) rs
  unfolding mirrored
  any-mirrored-addr [] port = refl
  any-mirrored-addr (r ∷ rs) port =
      ground (arith, any-mirrored-addr rs port, addr_eq.equal_iff addr addr)

  any-mirrored-other :
      (at : Addr) (rs : List FirewallRule) (port : ℕ)
      → (addr == at) ≡ false
      → any (opens at port) (mirrored addr_text addr rs) ≡ any (opens at port) rs
  unfolding mirrored
  any-mirrored-other at [] port h = refl
  any-mirrored-other at (r ∷ rs) port h = ground (arith, any-mirrored-other at rs port h)

  -- The twins open no port that was closed and close none, at every other address nothing
  -- changes, and at the new address each port is open that was open at any.
  pub mirror_local_lem :
      (rs : RuleSet)
      → is_valid addr ≡ true
      → ((port : ℕ) → allows (mirror_local addr_text rs addr) port ≡ allows rs port)
        × ((port : ℕ)
            → any (opens addr port) (mirror_local addr_text rs addr).rules ≡ allows rs port)
        × ((at : Addr) (port : ℕ)
            → (addr == at) ≡ false
            → any (opens at port) (mirror_local addr_text rs addr).rules
              ≡ any (opens at port) rs.rules)
  unfolding mirror_local allows
  mirror_local_lem rs v = elim (Bool-cases (is_empty rs.rules)) [
    | inl e ↦ (
      λ port. ground (arith, v, e),
      λ port. ground (
        arith,
        v,
        e,
        any_empty (opens addr port) rs.rules e,
        any_empty (λ r. leb r.from port && leb port r.to) rs.rules e,
      ),
      λ at port h. ground (arith, v, e),
    )
    | inr e ↦ (
      λ port.
          ground (
            arith,
            v,
            e,
            sorted (λ r. leb r.from port && leb port r.to),
            any-mirrored rs.rules port,
          ),
      λ port. ground (arith, v, e, sorted (opens addr port), any-mirrored-addr rs.rules port),
      λ at port h.
          ground (arith, v, e, sorted (opens at port), any-mirrored-other at rs.rules port h),
    )
  ]
    where
      sorted :
          (p : FirewallRule → Bool)
          → any p (sort rule_key (mirrored addr_text addr rs.rules))
            ≡ any p (mirrored addr_text addr rs.rules)
      sorted p = any-sort rule_key p (mirrored addr_text addr rs.rules)
