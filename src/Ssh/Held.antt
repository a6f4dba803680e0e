-- ===== src/Ssh/Held.antt =====
-- What the routes of a tunnel (server/ssh.go) hold at any time.
use container_cloudlet.Common.{
  ◌≡◌, refl, Bool, true, false, List, [], ◌∷◌, ◌++◌, arith, ◌⊎◌, inl, inr, if◌then◌else◌,
}
use container_cloudlet.Go.{is_closed_error}
use container_cloudlet.Ssh.Routes.{
  Phase, dialling, abandoned, copying, closed, Route, new_route, dialled, dial_failed, close_route,
  Move, dials, dial_fails, closes, remote_copied, local_copied, MoveIn, this, later, Tunnelled,
  returned, tunnelled, accept_failed, accept_conn, Step, signals, closes_client, clears,
  closes_listener, enters, leaves, accepts, accept_fails, moves, Reach, here, next,
}

-- The connections that are open, by where the route stands.
abbrev pub Held : Bool → Phase → Route → Type 0
Held chan_closed dialling r = (r.local_open ≡ true) × (r.remote_open ≡ false)
Held chan_closed abandoned r = (r.local_open ≡ true) × (r.remote_open ≡ false)
Held chan_closed copying r = (r.local_open ≡ true) × (r.remote_open ≡ true)
Held chan_closed closed r = (r.local_open ≡ false) × (r.remote_open ≡ false) × (chan_closed ≡ true)

abbrev pub AllHeld : Bool → List Route → Type 0
AllHeld chan_closed [] = Unit
AllHeld chan_closed (r ∷ rs) = Held chan_closed r.phase r × AllHeld chan_closed rs

closing-Held : (b : Bool) (ph : Phase) (r : Route) → Held b ph r → Held true ph r
closing-Held b dialling r h = h
closing-Held b abandoned r h = h
closing-Held b copying r h = h
closing-Held b closed r h = (h.0, h.1, refl)

closing-AllHeld : (b : Bool) (rs : List Route) → AllHeld b rs → AllHeld true rs
closing-AllHeld b [] h = tt
closing-AllHeld b (r ∷ rs) h = (closing-Held b r.phase r h.0, closing-AllHeld b rs h.1)

copied-Held :
    (c : Bool) (ph : Phase) (r : Route) (to_remote to_local : Bool)
    → Held c ph r
    → Held c ph (record r { to_remote = to_remote; to_local = to_local })
copied-Held c dialling r u d h = h
copied-Held c abandoned r u d h = h
copied-Held c copying r u d h = h
copied-Held c closed r u d h = h

from_dialling :
    (c : Bool) (ph : Phase) (r : Route)
    → ph ≡ dialling
    → Held c ph r
    → (r.local_open ≡ true) × (r.remote_open ≡ false)
from_dialling c dialling r e h = h
from_dialling c _ r e h = cc

Move-Held : {b c : Bool} {r q : Route} → Move b c r q → Held c r.phase r → Held c q.phase q
unfolding dialled dial_failed close_route
Move-Held {c} {r} (dials e k) h = let g = from_dialling c r.phase r e h in (g.0, refl)
Move-Held {c} {r} (dial_fails e) h = from_dialling c r.phase r e h
Move-Held (closes e k) h = (refl, refl, k)
Move-Held {c} {r} (remote_copied e) h = copied-Held c r.phase r false r.to_local h
Move-Held {c} {r} (local_copied e) h = copied-Held c r.phase r r.to_remote false h

MoveIn-AllHeld : {b c : Bool} {rs qs : List Route} → MoveIn b c rs qs → AllHeld c rs → AllHeld c qs
MoveIn-AllHeld (this rs m) h = (Move-Held m h.0, h.1)
MoveIn-AllHeld (later r m) h = (h.0, MoveIn-AllHeld m h.1)

append-AllHeld :
    (c : Bool) (rs qs : List Route) → AllHeld c rs → AllHeld c qs → AllHeld c (rs ++ qs)
append-AllHeld c [] qs h k = k
append-AllHeld c (r ∷ rs) qs h k = (h.0, append-AllHeld c rs qs h.1 k)

-- And only a closed channel closes the client and the listener.
abbrev pub Sound : Tunnelled → Type 0
Sound s =
    AllHeld s.chan_closed s.routes
    × ((s.chan_closed ≡ true)
        ⊎ ((s.client_open ≡ true) × (s.listening ≡ true) × (s.listener_open ≡ true)))

Step-Sound : {s t : Tunnelled} → Step s t → Sound s → Sound t
unfolding accept_failed accept_conn new_route
Step-Sound {s} (signals e) h = (closing-AllHeld s.chan_closed s.routes h.0, inl refl)
Step-Sound (closes_client e) h = (h.0, inl e)
Step-Sound (clears e) h = (h.0, inl e)
Step-Sound (closes_listener e) h = (h.0, ground arith)
Step-Sound (enters e k) h = h
Step-Sound (leaves e k) h = h
Step-Sound {s} (accepts e k) h =
    (append-AllHeld s.chan_closed s.routes _ h.0 ((refl, refl), tt), h.1)
Step-Sound {s} (accept_fails x e) h =
    elim (is_closed_error x)
      as (λ b. Sound (
        if b
        then record s { acceptor = returned }
        else record s { acceptor = returned; logged = s.logged ++ x ∷ [] })) [
          | true ↦ h
          | false ↦ h
        ]
Step-Sound (moves m) h = (MoveIn-AllHeld m h.0, h.1)

-- In every state that an open tunnel reaches: a route whose `Dial` failed keeps the local connection
-- open, whatever else happens, and no step closes it; a route that copies keeps both open, also when
-- one or both copies have returned, until the channel is closed and its goroutine closes both; the
-- client and the listener are open until the channel is closed.
pub reach-Sound : {s : Tunnelled} → Reach tunnelled s → Sound s
unfolding tunnelled
reach-Sound here = (tt, inr (refl, refl, refl))
reach-Sound (next r st) = Step-Sound st (reach-Sound r)
