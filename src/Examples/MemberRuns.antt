-- ===== src/Examples/MemberRuns.antt =====
-- A member that is seen, lost and forgotten; a table of three.
use kanpachi.Base.{
  true, false, not, ◌&&◌, ◌≡◌, refl, [], ◌∷◌, some, codes, lookup, contains, IsStrict, ◌==◌, sort,
  insert,
}
use kanpachi.Net.{Addr, v4, no_prefix, is_valid, addr_eq, addr_order}
use kanpachi.Members.{
  Member, Credential, MemberTable, new_member, is_member, is_expired, member_ips_of, member_loop,
}
use kanpachi.Members.Table.{counts, member_ips_of_lem}

abbrev pass : Credential
pass = record {
  id = codes "c1";
  token = codes "t1";
  network_name = codes "net";
  name = codes "ana";
  virtual_ip = v4 2;
  subnet = no_prefix;
  issued_at = 10;
  expires_at = 100;
  member_key = [];
  revoked = false;
}

-- Holds a credential and is out of the mesh.
abbrev ana : Member
ana = record (new_member (v4 2)) { name = codes "ana"; cred = some pass }

-- Was thrown out at 20 and is still in the mesh.
abbrev beto : Member
beto =
    let m = new_member (v4 3) in
    record m {
      presence = record m.presence { in_mesh = true; mesh_at = 20; kicked = true; kicked_at = 20 };
    }

abbrev table : MemberTable
table = (v4 3, beto) ∷ (v4 2, ana) ∷ (v4 1, new_member (v4 1)) ∷ []

members_now : member_ips_of 50 (v4 1) table ≡ v4 2 ∷ []
unfolding member_ips_of member_loop is_member is_expired sort insert
members_now = refl

member_ips_of_example :
    IsStrict (member_ips_of 50 (v4 1) table)
    × ((a : Addr)
        → contains a (member_ips_of 50 (v4 1) table)
          ≡ (not (a == v4 1) && is_valid a && counts 50 (lookup a table)))
member_ips_of_example = member_ips_of_lem 50 (v4 1) table (refl, (refl, (refl, tt)))
