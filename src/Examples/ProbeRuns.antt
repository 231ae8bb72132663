-- ===== src/Examples/ProbeRuns.antt =====
-- A probe, a round of the canary, the quarantine and the listeners of a game, on small inputs.
use kanpachi.Base.{
  true, false, ◌≡◌, inl, refl, List, [], ◌∷◌, Option, none, some, arith, Text, codes, if◌then◌else◌,
  ◌==◌, nat_order, nat_eq, text_eq,
}
use kanpachi.Net.{Addr, v4, addr_eq}
use kanpachi.Ports.{proto_tcp}
use kanpachi.Profile.{GameProfile, no_game}
use kanpachi.Probe.{
  ProbeReport, ProbeOutcome, answered, silent, forbidden, reference, verdict, leaky, judge,
}
use kanpachi.Canary.{CanaryCheck, CanaryReport, record_all, needs_attention, clears_alarm}
use kanpachi.Canary.Rounds.{IsSound, alarm_lem, record_all-needs_attention}
use kanpachi.Reach.{Listener}

abbrev leaking_probe : ProbeReport
leaking_probe = record {
  target = v4 1;
  name = codes "ana";
  measured_at = 9;
  results =
      record {
        target = record { port = 47830; kind = reference; label = [] };
        outcome = answered;
        rtt = 3;
      }
      ∷ record {
        target = record { port = 445; kind = forbidden; label = [] };
        outcome = answered;
        rtt = 3;
      }
      ∷ [];
}

leaking_probe_found : verdict leaking_probe ≡ leaky
unfolding verdict judge
leaking_probe_found = refl

abbrev doom : GameProfile
doom = record no_game {
  name = codes "Doom";
  host_ports = record { proto = proto_tcp; from = 5900; to = 5901 } ∷ [];
}

abbrev round : CanaryCheck
round = record {
  measured_at = 4;
  port = 40000;
  asked = record { at = v4 2; name = codes "ana" } ∷ record { at = v4 3; name = codes "beto" } ∷ [];
  touched = true;
  answers = [];
}

abbrev says : Addr → ProbeOutcome → CanaryReport
says from outcome = record { from = from; port = 40000; tcp = outcome; udp = silent }

abbrev reports : List CanaryReport
reports = says (v4 2) silent ∷ says (v4 2) answered ∷ says (v4 9) answered ∷ []

round-IsSound : IsSound round
round-IsSound = record { from_asked = tt; once = tt }

record_all-needs_attention_example :
    (needs_attention (record_all round reports) ≡ true)
    × (clears_alarm (record_all round reports) ≡ false)
record_all-needs_attention_example =
    record_all-needs_attention round reports ((alarm_lem round).1.1 (omega arith, inl refl))

-- Reads two spellings and no other.
abbrev read_addr : Text → Option Addr
read_addr t =
    if t == codes "10.0.0.1"
    then some (v4 1)
    else if t == codes "10.0.0.9"
    then some (v4 9)
    else none

abbrev sockets : List Listener
sockets =
    record { proto = proto_tcp; port = 5900; address = codes "10.0.0.9"; pid = 1 }
    ∷ record { proto = proto_tcp; port = 5901; address = codes " 10.0.0.1"; pid = 1 }
    ∷ []
