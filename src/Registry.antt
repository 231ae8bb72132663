-- ===== src/Registry.antt =====
-- The registry's store of rooms (registry/store.go). A reservation is a room under its invite ID.
-- The lock makes `insert`, `publishUnderLock`, `retireUnderLock`, `limpiar` and `lookup` atomic, so
-- each is one function on the map; the readings of the clock are arguments, one for each call of
-- `currentTime`. The signature check of ed25519 and the derivation of the rendezvous name are
-- parameters. The copy on disk and the queue for derivations are left out.
pub mod Ownership
pub mod Visibility
use kanpachi.Base.{
  ℕ, zero, suc, ◌+◌, ◌*◌, ◌^◌, Bool, true, false, not, ◌&&◌, List, [], ◌∷◌, Option, none, some, ltb,
  nat_beq, if◌then◌else◌, ◌==◌, text_eq, Text, length, lookup, store, purge, Result, ok, err,
}
use kanpachi.Net.{Time, is_zero}

-- `Room`
pub record Room : Type 0 where
  pub host_key : List ℕ
  pub card : List ℕ
  pub sig : List ℕ
  pub rendezvous_name : Text
  pub pin_until : Time
  pub closed_at : Time

-- The field `rooms` of `Store`, by `InviteID.Raw`.
abbrev pub Rooms : Type 0
Rooms = List (Text × Room)

pub data StoreError : Type 0 where
  not_found pinned bad_sig exhausted card_too_big no_id cancelled : StoreError

-- `MaxCardBytes`
abbrev pub max_card_bytes : ℕ
max_card_bytes = 512

-- `timing.RoomTTL`, in nanoseconds.
abbrev pub room_ttl : ℕ
room_ttl = 21 * 24 * 3600 * 10 ^ 9

-- `ahora.After(r.PinUntil)`
abbrev pub is_expired : Time → Room → Bool
is_expired now r = ltb r.pin_until now

-- `limpiar`: the rooms that are left, and how many went.
abbrev pub count_expired : Time → Rooms → ℕ
count_expired now [] = 0
count_expired now ((k, r) ∷ m) =
    let rest = count_expired now m in if is_expired now r then suc rest else rest

unfoldable pub sweep : Time → Rooms → Rooms × ℕ
sweep now m = (purge (is_expired now) m, count_expired now m)

-- `ocupado`
unfoldable pub is_taken : Time → Text → Rooms → Bool
is_taken now id m = elim (lookup id m) [ none ↦ false | some r ↦ not (is_expired now r) ]

-- `insert`
unfoldable pub insert_room :
    Time → Time → Text → List ℕ → List ℕ → List ℕ → Text → Rooms → Rooms × Bool
insert_room swept at id host_key card sig network m =
    let kept = purge (is_expired swept) m in
    elim (lookup id kept) [
      | some r ↦ (kept, false)
      | none ↦ (
        store id
            (record {
              host_key = host_key;
              card = card;
              sig = sig;
              rendezvous_name = network;
              pin_until = at + room_ttl;
              closed_at = 0;
            })
            kept,
        true,
      )
    ]

-- `publishUnderLock`
unfoldable pub publish_locked :
    Time → Time → Text → List ℕ → List ℕ → List ℕ → Rooms → Rooms × Result StoreError (Unit {0})
publish_locked swept at id host_key card sig m =
    let kept = purge (is_expired swept) m in
    elim (lookup id kept) [
      | none ↦ (kept, err not_found)
      | some r ↦ if not (r.host_key == host_key) then (kept, err pinned) else (
        store id (record r { card = card; sig = sig; pin_until = at + room_ttl; closed_at = 0 })
            kept,
        ok tt,
      )
    ]

-- `retireUnderLock`, and `retire`, which adds the copy on disk to it.
unfoldable pub retire : Time → Time → Text → List ℕ → Rooms → Rooms × Result StoreError (Unit {0})
retire swept at id host_key m =
    let kept = purge (is_expired swept) m in
    elim (lookup id kept) [
      | none ↦ (kept, err not_found)
      | some r ↦
          if not (r.host_key == host_key)
          then (kept, err pinned)
          else (store id (record r { card = []; sig = []; closed_at = at }) kept, ok tt)
    ]

-- `lookup`
unfoldable pub look_up : Text → Rooms → Result StoreError Room
look_up id m = elim (lookup id m) [
  | none ↦ err not_found
  | some r ↦ if not (is_zero r.closed_at) then err not_found else ok r
]

-- What one round of `Issue` meets: the answer of `newID`, whether the request was cancelled while
-- it waited to derive, and the readings of the clock.
pub record Round : Type 0 where
  pub new_id : Option Text
  pub is_cancelled : Bool
  pub checked : Time
  pub swept : Time
  pub pinned_at : Time

-- `verify` is `ed25519.Verify`, `network` is `DeriveRendezvous(id).NetworkName()`.
module _ (verify : List ℕ → List ℕ → List ℕ → Bool) (network : Text → Text) where
  -- The loop of `Issue`, on the rounds that are left; `round i` is what the round meets before
  -- which `i` are left.
  unfoldable pub issue_rounds :
      ℕ → (ℕ → Round) → List ℕ → List ℕ → List ℕ → Rooms → Rooms × Result StoreError Text
  issue_rounds zero round host_key card sig m = (m, err exhausted)
  issue_rounds (suc left) round host_key card sig m = elim ((round left).new_id) [
    | none ↦ (m, err no_id)
    | some id ↦ elim (is_taken (round left).checked id m) [
      | true ↦ issue_rounds left round host_key card sig m
      | false ↦ elim ((round left).is_cancelled) [
        | true ↦ (m, err cancelled)
        | false ↦
            let (m', inserted) =
              insert_room (round left).swept (round left).pinned_at id host_key card sig
                (network id) m in
            elim inserted [
              | true ↦ (m', ok id)
              | false ↦ issue_rounds left round host_key card sig m'
            ]
      ]
    ]
  ]

  -- `Issue`
  unfoldable pub issue :
      (ℕ → Round) → List ℕ → List ℕ → List ℕ → Rooms → Rooms × Result StoreError Text
  issue round host_key card sig m =
      if ltb max_card_bytes (length card)
      then (m, err card_too_big)
      else if not (verify host_key card sig)
      then (m, err bad_sig)
      else issue_rounds 8 round host_key card sig m

  -- `publish`
  unfoldable pub publish :
      Time → Time → Text → List ℕ → List ℕ → List ℕ → Rooms → Rooms × Result StoreError (Unit {0})
  publish swept at id host_key card sig m =
      if ltb max_card_bytes (length card)
      then (m, err card_too_big)
      else if not (verify host_key card sig)
      then (m, err bad_sig)
      else publish_locked swept at id host_key card sig m

-- A request that reaches the store, with what it meets; `sweep_at` is the periodic `Sweep`.
pub data Request : Type 0 where
  issue_for : (ℕ → Round) → List ℕ → List ℕ → List ℕ → Request
  publish_at : Time → Time → Text → List ℕ → List ℕ → List ℕ → Request
  retire_at : Time → Time → Text → List ℕ → Request
  sweep_at : Time → Request

module _ (verify : List ℕ → List ℕ → List ℕ → Bool) (network : Text → Text) where
  -- The store after a request.
  unfoldable pub serve : Request → Rooms → Rooms
  serve (issue_for round host_key card sig) m = (issue verify network round host_key card sig m).0
  serve (publish_at swept at id host_key card sig) m =
      (publish verify network swept at id host_key card sig m).0
  serve (retire_at swept at id host_key) m = (retire swept at id host_key m).0
  serve (sweep_at now) m = (sweep now m).0

  -- The store after requests in the order in which the lock lets them through.
  unfoldable pub serve_all : List Request → Rooms → Rooms
  serve_all [] m = m
  serve_all (q ∷ qs) m = serve_all qs (serve q m)
