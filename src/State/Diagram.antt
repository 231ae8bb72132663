-- ===== src/State/Diagram.antt =====
-- The connection's states and the transitions between them (`transitions` of core/domain/state.go).
use kanpachi.Base.{Bool, true, false, ◌≡◌, refl, List, [], ◌∷◌, arith, inl, inr, ◌⊎◌, ◌||◌, any}
use kanpachi.State.Types.{ConnState, idle, resolving, connecting, connected, degraded, reconnecting}
use kanpachi.State.{can_go_to, established, same_conn}

-- The diagram in the comment above `transitions`, with leaving as one edge from every state.
infix 40 ◌⟶◌
pub data ◌⟶◌ : ConnState → ConnState → Type 0 where
  join : idle ⟶ resolving
  resolved : resolving ⟶ connecting
  entered : connecting ⟶ connected
  retry : connecting ⟶ reconnecting
  worsen : connected ⟶ degraded
  improve : degraded ⟶ connected
  drop : connected ⟶ reconnecting
  drop_degraded : degraded ⟶ reconnecting
  recover : reconnecting ⟶ connected
  recover_degraded : reconnecting ⟶ degraded
  leave : {s : ConnState} → s ⟶ idle
  stay : {s : ConnState} → s ⟶ s

ruleset edges = (
  join, resolved, entered, retry, worsen, improve, drop, drop_degraded, recover, recover_degraded,
  leave, stay,
)

edge-can_go_to : {s t : ConnState} → s ⟶ t → can_go_to s t ≡ true
unfolding can_go_to
edge-can_go_to join = refl
edge-can_go_to resolved = refl
edge-can_go_to entered = refl
edge-can_go_to retry = refl
edge-can_go_to worsen = refl
edge-can_go_to improve = refl
edge-can_go_to drop = refl
edge-can_go_to drop_degraded = refl
edge-can_go_to recover = refl
edge-can_go_to recover_degraded = refl
edge-can_go_to (leave {s}) = ground arith
edge-can_go_to (stay {s}) = ground arith

-- The table allows exactly the edges of the diagram.
pub can_go_to-⟶ :
    (s t : ConnState) → ((can_go_to s t ≡ true) → s ⟶ t) × (s ⟶ t → can_go_to s t ≡ true)
unfolding can_go_to
can_go_to-⟶ s t = (λ h. grind (arith, edges), λ e. edge-can_go_to e)

-- The states that are passed from `s` on, each allowed by the table.
abbrev pub IsPath : ConnState → List ConnState → Type 0
IsPath s [] = Unit
IsPath s (t ∷ ts) = (can_go_to s t ≡ true) × IsPath t ts

abbrev pub is_outside : ConnState → Bool
is_outside s = same_conn s idle || same_conn s resolving

outside_step :
    (s t : ConnState)
    → is_outside s ≡ true
    → can_go_to s t ≡ true
    → (same_conn t connecting ≡ true) ⊎ ((is_outside t ≡ true) × (established t ≡ false))
unfolding can_go_to
outside_step s t o h = ground arith

-- No path leads from outside a room to a tunnel without passing through `connecting`, where the
-- credential is obtained.
pub established-connecting :
    (s : ConnState) (ts : List ConnState)
    → is_outside s ≡ true
    → IsPath s ts
    → any established ts ≡ true
    → any (λ t. same_conn t connecting) ts ≡ true
established-connecting s [] o p h = cc
established-connecting s (t ∷ ts) o (c, p) h = elim (outside_step s t o c) [
  | inl e ↦ rw e refl
  | inr (out, no_tunnel) ↦
      ground (arith, established-connecting t ts out p (ground (arith, no_tunnel)))
]
