-- ===== src/Lib.antt =====
-- Kanpachi connects friends' machines in a virtual private network for games: a daemon on each
-- machine (core/, daemon/) keeps the room, the firewall and the addresses; a seed (registry/) keeps
-- the rooms that can be found by an invite ID. This library models the rules of the core and the
-- seed's store, and proves what they promise, together with the seed's API and the host's side of
-- credentials. The commands, adapters and transports are glue around them.
--
-- How the parts work together. A game profile (Profile, its ports in Ports) is accepted by the
-- check of Validation; Policy turns an accepted profile, the role and the members that count
-- (Members) into the rules the firewall is to hold; Enforcement compares these with what the
-- firewall holds and makes the report that the user sees; Canary and Probe ask from other machines
-- whether the rules hold; Quarantine lists the standing blocks; Catalog settles which layer's
-- profile of a game counts; KnownHosts says whether a host was met before; Reach says whether the
-- game listens at all. State is what the daemon knows of its room, its states and its deadlines.
-- Addressing picks the room's subnet when a room is opened. The seed's Registry hands out rooms
-- under invite IDs (InviteId). Its Api lets requests through to the Registry behind Limits and
-- behind the tokens of SeedAuth, and closes rooms on the signed messages of RoomClose. A RoomCode
-- names a room and its seed to the people who join. Session is the host who gives credentials at
-- free addresses of the subnet, and who puts members out, on the tables of Members. Book keeps the
-- host's credentials over a restart, under names that Nick accepts. Guest is the other side: a
-- machine that loses its room asks its host for a seat again, gives the room up, and goes back to
-- it; its beat also keeps up the room of a host. Saved holds the files of both over a restart.
--
--   Base        lists, texts, sorting, association lists, results; Net: instants, addresses, prefixes
--   Ports       core/domain/gameprofile.go: `Proto`, `PortRange`, `forbiddenPorts`
--   Profile     core/domain/gameprofile.go: the types of a profile
--   Validation  core/domain/gameprofile.go: `NewGameProfile`, `validate`, `validProfileID`
--   Policy      core/domain/policy.go: `BuildRuleSet`, `ControlRules`, `MirrorLocal`, `normalizeMembers`
--   Members     core/domain/member.go: `Member`, `MemberTable`; `Credential` of core/domain/peer.go
--   Enforcement core/domain/enforcement.go: `Diff`; core/domain/exposurereport.go: `NewExposureReport`
--   Canary      core/domain/canary.go: `Record`, `Verdict`, `NeedsAttention`, `ClearsAlarm`
--   Probe       core/domain/probe.go: `ProbeTargets`, `Verdict`, `Leaks`
--   Quarantine  core/domain/quarantine.go: `BaseQuarantineFor`, `MeasuredQuarantine`
--   Reach       core/domain/gamehealth.go: `GameReachOf`; `Listener` of core/domain/discovery.go
--   State       core/domain/state.go: `CanGoTo`, `TransitionWithExit`, `clearRoom`, the deadlines
--   Addressing  core/domain/addressing.go: `PlanAddresses`, `pickSubnet`, `randomIndex`
--   InviteId    core/domain/inviteid.go: `ParseInviteID`, `String`, `NewInviteID`
--   Catalog     core/domain/catalog.go: `BuildCatalog`, `Find`
--   KnownHosts  core/domain/knownhost.go: `Judge`, `Record`, `evictOldest`
--   RoomCode    core/domain/room.go: `ParseRoom`, `InviteURL`, `parseSeedHost`, `CheckSeedAddr`
--   RoomClose   core/domain/roomclose.go: `RoomCloseMessage`, `CheckRoomCloseTime`
--   SeedAuth    registry/auth.go: `Auth`, `storedCredential`; core/domain/seedauth.go: `SeedAuthProof`
--   Limits      registry/http.go: `limiter`, `throttle`
--   Registry    registry/store.go: `Issue`, `publish`, `retire`, `lookup`, `Sweep`
--   Api         registry/http.go: `Handler`, `guarded`, `emitir`, `publicar`, `cerrar`, `resolver`, `login`
--   Session     core/usecase/issuecredential.go: `IssueCredentialFor`, `nextFreeAddress`;
--               core/usecase/kickmember.go: `KickMember`; core/usecase/persist.go: `saveMembersLocked`,
--               and `tellStaleMembersLocked` and `OnMemberChannelUp` of kickmember.go
--   Nick        core/domain/nickname.go: `ParseNickname`, `NicknameFromHost`
--   Book        core/domain/credentialbook.go: `Encode`, `DecodeCredentialBook`;
--               core/usecase/persist.go: `loadMembersLocked`, `saveMembersLocked`, `saveRoomLocked`;
--               core/usecase/resumeroom.go: `DiscardSavedRoom`
--   Guest       core/usecase/returnroom.go: `Return`, `stopReturningLocked`; core/usecase/rejoin.go:
--               `Rejoin`; core/usecase/leaveroom.go: `leaveLocked`, `OnRoomNotice`;
--               core/usecase/deadlines.go: `enforceDeadlinesLocked`;
--               core/usecase/resumeroom.go: `republishCardLocked`
--   Saved       core/domain/hostedroom.go: `HostedRoom`, `LastRoom`, their `Encode` and `Decode`;
--               core/usecase/returnroom.go: `loadLast`
--   Examples    tests on concrete inputs
--
-- Each part is a file with the definitions; its children hold the theorems. A method that changes
-- its receiver is a function to the new value, an `error` is an `Option` or a `Result`, and error
-- texts are reduced to their sentinel and the data they carry.
--
-- Choices. An instant is its nanoseconds after the zero `time.Time`; a duration is in nanoseconds.
-- A text is the list of its code points, which stands for strings in valid UTF-8. A map is an
-- association list without repeated keys; where Go ranges over a map, the result is sorted
-- afterwards or does not depend on the order, except where a credential is looked for by its key:
-- there the order of the list stands for that of the iteration. `sort.Slice` is a stable insertion
-- sort by the same key. Wrap-around is written out where the code has it: the generation of the
-- room, the seconds in tokens and stamps and the durations between instants on 64 bits, the
-- addresses on 32. A request to the seed, an issue of a credential and an expulsion carry what they
-- meet: the readings of the clock, random bytes, the answers of the ports.
--
-- Parameters: the check of signatures and the derivation of names in the registry,
-- `netip.ParseAddr` in Reach, the spelling of an address in `MirrorLocal`, `strings.ToLower` in the
-- catalog, `strings.EqualFold` among the known hosts. The code points of a host are lowered by
-- `unicode.ToLower`, and base64url, HMAC, SHA-256, Argon2id and ed25519 are functions of which only
-- the stated laws are used: what was encoded is decoded again, and a MAC has 32 bytes. In Book and
-- Saved JSON, base64 and the texts of addresses, prefixes and dates are functions that read back
-- what they wrote (a date to the second), and a file that is read back has the generation that was
-- written. Random bytes are the list that the source gives before it fails.
--
-- Recursion is on the lists and on the numbers of turns that the loops have: eight rounds in
-- `Issue`, 64 tries in `randomIndex`, one turn for each /24 in `pickSubnet`, one for each address
-- of the subnet in `nextFreeAddress`. Two functions have fuel that is always enough: `evictOldest`
-- as many turns as there are hosts, and `decimal` one more than the number it writes.
--
-- Not modelled: the other use cases of the session (creating, joining, and of a return the exchange
-- with the host, whose outcome is an argument of `rejoin`), files of catalogs, cards, JSON, the
-- copy of the registry on disk, the seed's page, the daemon's adapters and transports, the user
-- interface.
pub mod Base
pub mod Net
pub mod Ports
pub mod Profile
pub mod Validation
pub mod Policy
pub mod Members
pub mod Enforcement
pub mod Canary
pub mod Probe
pub mod Quarantine
pub mod Reach
pub mod State
pub mod Addressing
pub mod InviteId
pub mod Catalog
pub mod KnownHosts
pub mod RoomCode
pub mod RoomClose
pub mod SeedAuth
pub mod Limits
pub mod Registry
pub mod Api
pub mod Session
pub mod Nick
pub mod Book
pub mod Guest
pub mod Saved
pub mod Examples
