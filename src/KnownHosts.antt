-- ===== src/KnownHosts.antt =====
-- The hosts that a machine has met (core/domain/knownhost.go). `same_nick` is `strings.EqualFold`; a
-- key is the list of its bytes, and the clock's zone plays no part.
pub mod Keys
pub mod Book
use kanpachi.Base.{
  ℕ, zero, suc, ◌+◌, Bool, true, false, ◌&&◌, not, List, [], ◌∷◌, ◌++◌, Option, none, some, ltb,
  nat_beq, if◌then◌else◌, ◌==◌, Text, text_eq, is_empty, find, filter, any, length,
}
use kanpachi.Net.{Time}

-- `MaxKnownHosts` and `ed25519.PublicKeySize`
abbrev pub max_known_hosts : ℕ
max_known_hosts = 200

abbrev pub public_key_size : ℕ
public_key_size = 32

pub record KnownHost : Type 0 where
  pub key : List ℕ
  pub nick : Text
  pub first_seen : Time
  pub last_seen : Time
  pub rooms : ℕ

pub data HostVerdict : Type 0 where
  unverified new known renamed key_changed : HostVerdict

-- `keyEqual`
abbrev pub key_equal : List ℕ → List ℕ → Bool
key_equal a b = not (is_empty a) && a == b

-- `byKey`
abbrev pub by_key : List KnownHost → List ℕ → Option KnownHost
by_key hosts key = find (λ h. key_equal h.key key) hosts

-- `remove`
abbrev pub remove : List ℕ → List KnownHost → List KnownHost
remove key hosts = filter (λ h. not (key_equal h.key key)) hosts

-- The loop of `Record` over the hosts, which writes to the first one of the key.
unfoldable pub touch : List ℕ → Text → Time → List KnownHost → List KnownHost
touch key nick now [] = []
touch key nick now (h ∷ hs) =
    let rest = touch key nick now hs in
    if key_equal h.key key
    then record h {
      last_seen = now;
      rooms = h.rooms + 1;
      nick = if is_empty nick then h.nick else nick;
    }
      ∷ hs
    else h ∷ rest

-- The loop of `evictOldest` that finds the oldest: the least `LastSeen`, and the first of these.
unfoldable pub oldest_seen : Time → List KnownHost → Time
oldest_seen t [] = t
oldest_seen t (h ∷ hs) = oldest_seen (if ltb h.last_seen t then h.last_seen else t) hs

-- The list without the first host seen last at `t`.
unfoldable pub drop_seen : Time → List KnownHost → List KnownHost
drop_seen t [] = []
drop_seen t (h ∷ hs) = let rest = drop_seen t hs in if nat_beq h.last_seen t then hs else h ∷ rest

abbrev pub drop_oldest : List KnownHost → List KnownHost
drop_oldest [] = []
drop_oldest (h ∷ hs) = drop_seen (oldest_seen h.last_seen hs) (h ∷ hs)

-- `evictOldest`, on fuel.
unfoldable pub evict : ℕ → List KnownHost → List KnownHost
evict zero hosts = hosts
evict (suc fuel) hosts =
    let rest = evict fuel (drop_oldest hosts) in
    if ltb max_known_hosts (length hosts) then rest else hosts

abbrev pub evict_oldest : List KnownHost → List KnownHost
evict_oldest hosts = evict (length hosts) hosts

-- The entry that `Record` appends.
abbrev pub met : List ℕ → Text → Time → KnownHost
met key nick now = record { key = key; nick = nick; first_seen = now; last_seen = now; rooms = 1 }

module _ (same_nick : Text → Text → Bool) where
  -- `byNick`
  abbrev pub by_nick : List KnownHost → Text → Option KnownHost
  by_nick hosts nick = find (λ h. not (is_empty h.nick) && same_nick h.nick nick) hosts

  -- `Judge`, with the entry it matched.
  unfoldable pub judge_host : List KnownHost → List ℕ → Text → HostVerdict × Option KnownHost
  judge_host hosts key nick =
      if not (nat_beq (length key) public_key_size)
      then (unverified, none)
      else elim (by_key hosts key) [
        | some h ↦
            if not (is_empty nick) && not (same_nick h.nick nick)
            then (renamed, some h)
            else (known, some h)
        | none ↦
            if is_empty nick
            then (new, none)
            else elim (by_nick hosts nick) [ some h ↦ (key_changed, some h) | none ↦ (new, none) ]
      ]

  -- The hosts without the entry that had the nickname.
  abbrev pub without_nick : List KnownHost → Text → List KnownHost
  without_nick hosts nick =
      if is_empty nick
      then hosts
      else elim (by_nick hosts nick) [ some h ↦ remove h.key hosts | none ↦ hosts ]

  -- `Record`
  unfoldable pub record_host : List KnownHost → List ℕ → Text → Time → List KnownHost
  record_host hosts key nick now =
      if not (nat_beq (length key) public_key_size)
      then hosts
      else if any (λ h. key_equal h.key key) hosts
      then touch key nick now hosts
      else evict_oldest (without_nick hosts nick ++ met key nick now ∷ [])
