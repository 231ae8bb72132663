-- ===== src/Examples/AddressRuns.antt =====
-- Choosing a /24, and reading and writing an invite ID.
use kanpachi.Base.{
  ℕ, ◌+◌, ◌*◌, ◌<◌, ◌↔◌, ◌⊎◌, true, false, ◌≡◌, refl, List, [], ◌∷◌, some, arith, codes, ok, err,
}
use kanpachi.Net.{v4, Prefix, prefix}
use kanpachi.Addressing.{
  no_subnet, AddressPlan, no_conflict, shared_in_use, shared_space, fallback_space, plan_addresses,
  pick_subnet, pick_from, pick_loop, random_index, random_tries, first_overlap, candidate, count_of,
}
use kanpachi.Addressing.Search.{clashes, pick_subnet_lem}
use kanpachi.Addressing.Plan.{IsRoomOf, plan_addresses_lem}
use kanpachi.InviteId.{parse_invite_id, normalize, print_invite_id, group, new_invite_id, symbols}
use kanpachi.InviteId.RoundTrip.{Spells, done, separate, same, lowered}

-- A home network in 192.168.0.0/24, and one in 100.64.0.0/24.
abbrev home : List Prefix
home = prefix (v4 3232235520) 24 ∷ []

abbrev carrier : List Prefix
carrier = prefix (v4 1681915904) 24 ∷ []

abbrev home_plan : AddressPlan
home_plan = record { subnet = prefix (v4 (1681915904 + 7 * 256)) 24; reason = no_conflict }

home_planned : plan_addresses home (16391 ∷ []) ≡ ok home_plan
unfolding plan_addresses first_overlap pick_subnet pick_from pick_loop random_index random_tries
home_planned = refl

carrier_planned :
    plan_addresses carrier (7 ∷ [])
    ≡ ok (record {
      subnet = prefix (v4 (174260224 + 7 * 256)) 24;
      reason = shared_in_use (prefix (v4 1681915904) 24);
    })
unfolding plan_addresses first_overlap pick_subnet pick_from pick_loop random_index random_tries
carrier_planned = refl

plan_addresses_example :
    (clashes home home_plan.subnet ≡ false)
    × (IsRoomOf fallback_space home_plan.subnet
        ⊎ (IsRoomOf shared_space home_plan.subnet × (clashes home shared_space ≡ false)))
plan_addresses_example = plan_addresses_lem home (16391 ∷ []) home_plan home_planned

pick_subnet_example :
    ((pick_subnet (prefix (v4 174260224) 16) home (9 ∷ [])).0 ≡ err no_subnet)
    ↔ ((idx : ℕ) → idx < count_of 16 → clashes home (candidate 174260224 idx) ≡ true)
pick_subnet_example = pick_subnet_lem 174260224 16 9 home [] (omega arith) (omega arith)

-- `a7k2-m9qx` spells A7K2M9QX.
hand : Spells (codes "a7k2-m9qx") (codes "A7K2M9QX")
hand = lowered refl refl (
    same refl (
      lowered refl refl (
        same refl (
          separate refl
            (lowered refl refl (same refl (lowered refl refl (lowered refl refl done))))))))

parsed : parse_invite_id (codes "A7K2 M9QX") ≡ ok (codes "A7K2M9QX")
unfolding parse_invite_id normalize
parsed = refl

printed : print_invite_id (codes "A7K2M9QX") ≡ codes "A7K2-M9QX"
unfolding group
printed = refl

abbrev entropy : List ℕ
entropy = 0 ∷ 33 ∷ 255 ∷ 31 ∷ 8 ∷ 9 ∷ 10 ∷ 11 ∷ []

made : new_invite_id entropy ≡ some (codes "23ZZABCD")
unfolding symbols
made = refl
