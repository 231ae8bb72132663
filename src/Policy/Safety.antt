-- ===== src/Policy/Safety.antt =====
-- What `BuildRuleSet` of core/domain/policy.go grants, and what it never grants.
use kanpachi.Base.{
  ℕ, ◌≤◌, true, false, ◌&&◌, ◌||◌, ◌≡◌, refl, sym, ◌∙◌, List, [], ◌∷◌, ◌++◌, map, arith, leb,
  nat_eq, contains, any, any-append, any_empty, any-sort, All, All-append, All-sort, Bool-cases,
  inl, inr, ◌⊎◌, none, Option-cases, Text, text_order, ok, Result-cases, ap₂, subst, is_empty, find,
  sort,
}
use kanpachi.Net.{Addr, is_valid, addr_eq}
use kanpachi.Ports.{
  Proto, proto_both, proto_tcp, proto_udp, proto_unset, PortRange, forbidden_ports, hits_forbidden,
  expand,
}
use kanpachi.Profile.{GameProfile, is_zero_profile}
use kanpachi.Policy.{
  Role, FirewallRule, RuleSet, rule_key, allows, normalize_members, rule_for, rules_of, role_ports,
  build_rule_set, empty_rules,
}
use kanpachi.Policy.Members.{contains-normalize_members}

-- A port lies in a range.
abbrev pub Within : ℕ → ℕ → ℕ → Type 0
Within from to port = (from ≤ port) × (port ≤ to)

-- What a rule of a game may be: no forbidden port lies in it, it has one protocol, it is anchored
-- at this machine's address, and it names members, at least one, and nobody else.
pub record IsSafe (local : Addr) (members : List Addr) (r : FirewallRule) : Type 0 where
  pub no_forbidden : (port : ℕ) → contains port forbidden_ports ≡ true → ¬ Within r.from r.to port
  pub one_proto : r.proto ≡ proto_both → ⊥
  pub anchored : r.local ≡ local
  pub named : is_empty r.remote ≡ false
  pub members_only :
      (a : Addr)
      → contains a r.remote ≡ true
      → (contains a members ≡ true) × (is_valid a ≡ true) × (a ≡ local → ⊥)
  pub no_nets : r.nets ≡ []

find-none :
    (from to port : ℕ) (ps : List ℕ)
    → find (λ p. leb from p && leb p to) ps ≡ none
    → contains port ps ≡ true
    → ¬ Within from to port
find-none from to port [] h c w = cc
find-none from to port (p ∷ ps) h c w = ground (arith, find-none from to port ps)

hits_forbidden-none :
    (r : PortRange) (port : ℕ)
    → hits_forbidden r ≡ none
    → contains port forbidden_ports ≡ true
    → ¬ Within r.from r.to port
unfolding hits_forbidden
hits_forbidden-none r port = find-none r.from r.to port forbidden_ports

module _ (id : Text) (role : Role) (local : Addr) (members : List Addr) where
  abbrev remote : List Addr
  remote = normalize_members local members

  rule_for-IsSafe :
      (r : PortRange) (q : Proto)
      → hits_forbidden r ≡ none
      → is_empty remote ≡ false
      → (q ≡ proto_both → ⊥)
      → IsSafe local members (rule_for id role local remote r q)
  rule_for-IsSafe r q h n one = record {
    no_forbidden = λ port c. hits_forbidden-none r port h c;
    one_proto = one;
    anchored = refl;
    named = n;
    members_only = λ a c. ground (
      arith,
      contains-normalize_members local a members,
      (addr_eq.equal_iff a local).0,
      (addr_eq.equal_iff a local).1,
    );
    no_nets = refl;
  }

  expand-IsSafe :
      (r : PortRange)
      → hits_forbidden r ≡ none
      → is_empty remote ≡ false
      → All (IsSafe local members) (map (rule_for id role local remote r) (expand r.proto))
  expand-IsSafe r h n = split r.proto
    where
      split :
          (q : Proto)
          → All (IsSafe local members) (map (rule_for id role local remote r) (expand q))
      split proto_unset = (rule_for-IsSafe r proto_unset h n (λ e. cc), tt)
      split proto_tcp = (rule_for-IsSafe r proto_tcp h n (λ e. cc), tt)
      split proto_udp = (rule_for-IsSafe r proto_udp h n (λ e. cc), tt)
      split proto_both = (
        rule_for-IsSafe r proto_tcp h n (λ e. cc),
        (rule_for-IsSafe r proto_udp h n (λ e. cc), tt),
      )

  -- The rules of all the ranges, one after the other.
  abbrev wanted : List PortRange → List FirewallRule
  wanted [] = []
  wanted (r ∷ rs) = map (rule_for id role local remote r) (expand r.proto) ++ wanted rs

  abbrev AllAllowed : List PortRange → Type 0
  AllAllowed = All (λ r. hits_forbidden r ≡ none)

  -- The loop succeeds exactly on ranges without forbidden ports, with their rules.
  pub rules_of-eq-ok :
      (rs : List PortRange) (rules : List FirewallRule)
      → rules_of id role local remote rs ≡ ok rules
      → AllAllowed rs × (rules ≡ wanted rs)
  unfolding rules_of
  rules_of-eq-ok [] rules h = (tt, cc)
  rules_of-eq-ok (r ∷ rs) rules h = elim (Option-cases (hits_forbidden r)) [
    | inr (bad, e) ↦ ground (arith, e)
    | inl e ↦ elim (Result-cases (rules_of id role local remote rs)) [
      | inl (rest, f) ↦
          let (allowed, same) = rules_of-eq-ok rs rest f in
          ((e, allowed), ground (arith, e, f, same))
      | inr (bad, f) ↦ ground (arith, e, f)
    ]
  ]

  pub rules_of_allowed :
      (rs : List PortRange) → AllAllowed rs → rules_of id role local remote rs ≡ ok (wanted rs)
  unfolding rules_of
  rules_of_allowed [] h = refl
  rules_of_allowed (r ∷ rs) (h, hs) = ground (arith, h, rules_of_allowed rs hs)

  wanted-IsSafe :
      (rs : List PortRange)
      → is_empty remote ≡ false
      → AllAllowed rs
      → All (IsSafe local members) (wanted rs)
  wanted-IsSafe [] n h = tt
  wanted-IsSafe (r ∷ rs) n (h, hs) =
      All-append (IsSafe local members) (map (rule_for id role local remote r) (expand r.proto))
        (wanted rs) (expand-IsSafe r h n) (wanted-IsSafe rs n hs)

  any-expand :
      (r : PortRange) (port : ℕ) (q : Proto)
      → any
          (λ r. leb r.from port && leb port r.to)
          (map (rule_for id role local remote r) (expand q))
        ≡ (leb r.from port && leb port r.to)
  any-expand r port proto_unset = ground arith
  any-expand r port proto_tcp = ground arith
  any-expand r port proto_udp = ground arith
  any-expand r port proto_both = ground arith

  any-wanted :
      (rs : List PortRange) (port : ℕ)
      → any (λ r. leb r.from port && leb port r.to) (wanted rs)
        ≡ any (λ r. leb r.from port && leb port r.to) rs
  any-wanted [] port = refl
  any-wanted (r ∷ rs) port =
      let each = λ (r : FirewallRule). leb r.from port && leb port r.to in
      any-append each (map (rule_for id role local remote r) (expand r.proto)) (wanted rs)
      ∙ ap₂ ◌||◌ (any-expand r port r.proto) (any-wanted rs port)

module _ (p : GameProfile) (role : Role) (local : Addr) (members : List Addr) where
  abbrev ports : List PortRange
  ports = role_ports p role

  branch :
      (rs : RuleSet)
      → build_rule_set p role local members ≡ ok rs
      → (rs ≡ empty_rules)
        ⊎ ((rules : List FirewallRule) × (rules_of p.id role local
                (normalize_members local members)
                ports
              ≡ ok rules)
            × (is_empty (normalize_members local members) ≡ false)
            × (rs.rules ≡ sort rule_key rules))
  unfolding build_rule_set
  branch rs h =
      elim (Result-cases (rules_of p.id role local (normalize_members local members) ports)) [
        | inr (bad, f) ↦ ground (arith, f)
        | inl (rules, f) ↦ elim (Bool-cases (is_empty (normalize_members local members))) [
          | inl e ↦ ground (arith, e, f)
          | inr e ↦ choose rules f e (ground (arith, e, f))
        ]
      ]
    where
      choose :
          (rules : List FirewallRule)
          → rules_of p.id role local (normalize_members local members) ports ≡ ok rules
          → is_empty (normalize_members local members) ≡ false
          → (rs ≡ empty_rules) ⊎ (rs.rules ≡ sort rule_key rules)
          → (rs ≡ empty_rules)
            ⊎ ((rules : List FirewallRule) × (rules_of p.id role local
                    (normalize_members local members)
                    ports
                  ≡ ok rules)
                × (is_empty (normalize_members local members) ≡ false)
                × (rs.rules ≡ sort rule_key rules))
      choose rules f e (inl same) = inl same
      choose rules f e (inr same) = inr (rules, f, e, same)

  -- Whatever the profile asks for, every rule that `BuildRuleSet` returns holds no forbidden port,
  -- has one protocol, is anchored at this machine's address, and names at least one address, all of
  -- them valid addresses of members and none this machine's own.
  pub build_rule_set-IsSafe :
      (rs : RuleSet)
      → build_rule_set p role local members ≡ ok rs
      → All (IsSafe local members) rs.rules
  build_rule_set-IsSafe rs h = elim (branch rs h) [
    | inl e ↦ rw e tt
    | inr (rules, f, n, same) ↦
        let (allowed, w) = rules_of-eq-ok p.id role local members ports rules f in
        rw same (
          All-sort rule_key (IsSafe local members) rules (
            subst (λ l. All (IsSafe local members) l) (sym w)
              (wanted-IsSafe p.id role local members ports n allowed)))
  ]

  -- With a game, an address, a range for the role and a member to name, where no range of the role
  -- holds a forbidden port, `BuildRuleSet` succeeds, and its rules leave a port reachable exactly if
  -- a range of the role holds it.
  pub build_rule_set-allows :
      is_zero_profile p ≡ false
      → is_valid local ≡ true
      → is_empty (normalize_members local members) ≡ false
      → All (λ r. hits_forbidden r ≡ none) ports
      → (rs : RuleSet) × (build_rule_set p role local members ≡ ok rs)
        × ((port : ℕ) → allows rs port ≡ any (λ r. leb r.from port && leb port r.to) ports)
  unfolding build_rule_set allows
  build_rule_set-allows z v n a = elim (Bool-cases (is_empty ports)) [
    | inl e ↦ (
      empty_rules,
      ground (arith, z, v, n, e),
      λ port. sym (any_empty (λ r. leb r.from port && leb port r.to) ports e),
    )
    | inr e ↦ (
      record { rules = sort rule_key (wanted p.id role local members ports) },
      ground (arith, z, v, n, e, rules_of_allowed p.id role local members ports a),
      λ port.
          any-sort rule_key (λ r. leb r.from port && leb port r.to)
            (wanted p.id role local members ports)
          ∙ any-wanted p.id role local members ports port,
    )
  ]
