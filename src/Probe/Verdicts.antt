-- ===== src/Probe/Verdicts.antt =====
-- What a verdict means (core/domain/probe.go), and what the probe asks.
use kanpachi.Base.{
  ℕ, Bool, true, false, not, ◌&&◌, ◌||◌, ◌≡◌, ◌≢◌, ◌↔◌, refl, List, [], ◌∷◌, some, arith, nat_beq,
  is_empty, any, filter, if◌then◌else◌, lookup, lookup-store, nat_eq, nat_order, Text, IsSorted,
  sort-IsSorted,
}
use kanpachi.Profile.{GameProfile}
use kanpachi.Ports.{PortRange, proto_beq, proto_tcp, proto_both}
use kanpachi.Policy.{control_port}
use kanpachi.Probe.{
  ProbeTarget, ProbeResult, ProbeReport, blind, leaky, unreachable, sealed, is_forbidden_kind,
  is_reference_kind, reached, judge, verdict, leaks, by_port, probe_targets, channel_target,
  put_game, targets, target_port, put, labelled, game,
}

-- A forbidden port that was reached; a reference port that was.
abbrev pub is_leak : ProbeResult → Bool
is_leak r = is_forbidden_kind r.target.kind && reached r.outcome

abbrev pub is_contact : ProbeResult → Bool
is_contact r = is_reference_kind r.target.kind && reached r.outcome

judge_lem :
    (rs : List ProbeResult) (seen : Bool)
    → judge rs seen ≡ (
        if any is_leak rs then leaky else if seen || any is_contact rs then sealed else unreachable)
unfolding judge
judge_lem [] seen = ground arith
judge_lem (r ∷ rs) seen =
    ground (arith, judge_lem rs (seen || (is_reference_kind r.target.kind && reached r.outcome)))

any-filter : (rs : List ProbeResult) → is_empty (filter is_leak rs) ≡ not (any is_leak rs)
any-filter [] = refl
any-filter (r ∷ rs) = ground (arith, any-filter rs)

-- Each verdict says what it names, whatever the order of the results: blind is an unmeasured report;
-- of a measured one, leaky is a reached forbidden port, exactly what `Leaks` lists; unreachable is no
-- leak and no reached reference; sealed is no leak and a reached reference, so silence is never sealed.
pub verdict_lem :
    (r : ProbeReport)
    → ((verdict r ≡ blind) ↔ (r.measured_at ≡ 0))
      × (r.measured_at ≢ 0
          → ((verdict r ≡ leaky) ↔ (is_empty (leaks r) ≡ false))
            × ((verdict r ≡ unreachable)
                ↔ ((is_empty (leaks r) ≡ true) × (any is_contact r.results ≡ false)))
            × ((verdict r ≡ sealed)
                ↔ ((is_empty (leaks r) ≡ true) × (any is_contact r.results ≡ true))))
unfolding verdict leaks
verdict_lem r = (
  (λ h. ground (arith, judge_lem r.results false), λ h. ground arith),
  λ m. (
    (
      λ h. ground (arith, judge_lem r.results false, any-filter r.results),
      λ h. ground (arith, judge_lem r.results false, any-filter r.results),
    ),
    (
      λ h. (
        ground (arith, judge_lem r.results false, any-filter r.results),
        ground (arith, judge_lem r.results false),
      ),
      λ h. ground (arith, judge_lem r.results false, any-filter r.results),
    ),
    (
      λ h. (
        ground (arith, judge_lem r.results false, any-filter r.results),
        ground (arith, judge_lem r.results false),
      ),
      λ h. ground (arith, judge_lem r.results false, any-filter r.results),
    ),
  ),
)

-- A range of the game that the probe can ask about starts at the port.
abbrev pub asks_game : List PortRange → ℕ → Bool
asks_game rs port =
    any (λ r. (proto_beq r.proto proto_tcp || proto_beq r.proto proto_both) && nat_beq r.from port)
      rs

lookup-put_game :
    (name : Text) (rs : List PortRange) (port : ℕ) (m : List (ℕ × ProbeTarget))
    → lookup port (put_game name rs m) ≡ (
        if asks_game rs port
        then some (record { port = port; kind = game; label = name })
        else lookup port m)
unfolding put_game
lookup-put_game name [] port m = refl
lookup-put_game name (r ∷ rs) port m =
    let t : ProbeTarget = record { port = r.from; kind = game; label = name } in
    let tcp = proto_beq r.proto proto_tcp || proto_beq r.proto proto_both in
    ground (
      arith,
      lookup-put_game name rs port (if tcp then put t m else m),
      lookup-store r.from port t m,
    )

-- Whatever the game, the room's channel is asked as the reference; at any other port a game range
-- that starts there and speaks TCP is asked as the game's, and else the labelled ports stand as
-- forbidden, in rising order of ports.
pub probe_targets_lem :
    (g : GameProfile)
    → IsSorted target_port (probe_targets g)
      × ((port : ℕ)
          → lookup port (by_port g) ≡ (
              if nat_beq control_port port
              then some channel_target
              else if asks_game g.host_ports port
              then some (record { port = port; kind = game; label = g.name })
              else lookup port labelled))
unfolding probe_targets by_port
probe_targets_lem g = (
  sort-IsSorted target_port (targets (by_port g)),
  λ port. ground (
    arith,
    lookup-store control_port port channel_target (put_game g.name g.host_ports labelled),
    lookup-put_game g.name g.host_ports port labelled,
  ),
)
