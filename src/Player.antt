-- ===== src/Player.antt =====
-- src/PlayerSystem.cpp and .hpp: the connection of players and their authorisation. What the engine
-- tells of a player (its user number and its identifier), the engine's clock, and the listeners of the
-- forwards are parameters. The menu of a player stands with the menus.
pub mod Waiting
use spmod.Common.{
  ℕ, ◌+◌, ◌%◌, ◌^◌, ℤ, pos, Bool, true, false, not, ◌&&◌, ◌||◌, Bytes, codes, bytes_eq, List, [],
  ◌∷◌, ◌++◌, Option, none, some, ◌==◌, leb, if◌then◌else◌, get_elem?, set,
}
use spmod.Forward.{Forward}
use spmod.Forward.Push.{Push}
use spmod.Forward.Exec.{Executed}
use spmod.Forward.Registry.{ForwardMngr, get_forward}
use spmod.Forward.Delivery.{deliver}

pub record Player : Type 0 where
  pub connected : Bool
  pub in_game : Bool
  pub user_id : ℕ
  pub name : Bytes
  pub ip : Bytes
  pub steam_id : Bytes

abbrev pub set_name : Bytes → Player → Player
set_name name p = record p { name = name }

abbrev pub connect : Bytes → Bytes → ℕ → Player → Player
connect name ip user_id p = record p { name = name; ip = ip; connected = true; user_id = user_id }

abbrev pub put_in_server : Player → Player
put_in_server p = record p { in_game = true }

abbrev pub authorize : Bytes → Player → Player
authorize authid p = record p { steam_id = authid }

-- The players by their number, with a null pointer where none was made; those that wait for an
-- identifier, by their numbers; and the forwards.
pub record PlayerMngr (F : Type 0) : Type 0 where
  pub players : List (Option Player)
  pub players_to_auth : List ℕ
  pub next_auth_check : F
  pub players_num : ℕ
  pub forwards : ForwardMngr

abbrev pub pending : Bytes
pending = codes "STEAM_ID_PENDING"

abbrev pub is_empty : Bytes → Bool
is_empty [] = true
is_empty (b ∷ bs) = false

abbrev pub at_pointer : Option (Option Player) → Option Player
at_pointer none = none
at_pointer (some p) = p

-- `getPlayer`; a number out of range gives a null pointer too.
abbrev pub get_player : ℕ → List (Option Player) → Option Player
get_player i ps = at_pointer (get_elem? ps i)

-- The new state of the forward that was looked up by its name.
unfoldable pub put_back : Bytes → Forward → List Forward → List Forward
put_back name f [] = []
put_back name f (g ∷ gs) = if bytes_eq g.name name then f ∷ gs else g ∷ put_back name f gs

abbrev pub connect_post_arguments : ℕ → Bytes → Bytes → List Push
connect_post_arguments i name address =
    Push.int (pos i) ∷ (Push.string name ∷ (Push.string address ∷ []))

module _ {F : Type 0} where
  -- The player is connected, and authorised or put among those that wait.
  abbrev pub welcomed : ℕ → Bytes → Bytes → ℕ → Bytes → Player → PlayerMngr F → PlayerMngr F
  welcomed i name address user_id authid p s =
      let p' = connect name address user_id p in
      let s' = record s { players_num = (s.players_num + 1) % 2 ^ 32 } in
      if is_empty authid || bytes_eq authid pending
      then record s' {
        players = set s.players i (some p');
        players_to_auth = s.players_to_auth ++ (i ∷ []);
      }
      else record s' { players = set s.players i (some (authorize authid p')) }

module _ {W : Type 0} (run : ℕ → Forward → ℤ → Bool → W → ℤ × Bool × W) where
  executed : Bytes → ForwardMngr → Executed W → ForwardMngr × W
  executed name m e = (record m { forwards = put_back name e.forward m.forwards }, e.world)

  execute_found :
      Bytes → List Push → Bool → ForwardMngr → W → Option Forward → Option (ForwardMngr × W)
  execute_found name cs dummy m w none = none
  execute_found name cs dummy m w (some f) =
      some (executed name m (deliver run cs m.callbacks dummy f w))

  -- A forward is looked up, its arguments are pushed, and it is executed; `none` is the use of a null
  -- pointer.
  unfoldable pub execute : Bytes → List Push → Bool → ForwardMngr → W → Option (ForwardMngr × W)
  unfolding execute_found executed
  execute name cs dummy m w = execute_found name cs dummy m w (get_forward name m)

  module _ {F : Type 0} where
    with_forwards : PlayerMngr F → Option (ForwardMngr × W) → Option (PlayerMngr F × W)
    with_forwards s none = none
    with_forwards s (some (forwards, w)) = some (record s { forwards = forwards }, w)

    connect_found :
        ℕ
        → Bytes
        → Bytes
        → ℕ
        → Bytes
        → Bool
        → PlayerMngr F
        → W
        → Option Player
        → Option (PlayerMngr F × W)
    unfolding with_forwards
    connect_found i name address user_id authid dummy s w none = none
    connect_found i name address user_id authid dummy s w (some p) =
        with_forwards (welcomed i name address user_id authid p s) (
          execute (codes "OnClientConnectPost") (connect_post_arguments i name address) dummy
            s.forwards w)

    -- `ClientConnectPost` of the player with the number; `none` is the use of a null pointer.
    unfoldable pub client_connect_post :
        ℕ → Bytes → Bytes → ℕ → Bytes → Bool → PlayerMngr F → W → Option (PlayerMngr F × W)
    unfolding connect_found
    client_connect_post i name address user_id authid dummy s w =
        connect_found i name address user_id authid dummy s w (get_player i s.players)

authorized : Bytes → Option Player → Option Player
authorized authid none = none
authorized authid (some p) = some (authorize authid p)

-- The loop of StartFramePost over those that wait: who is left, and the players.
unfoldable pub auth_loop :
    (ℕ → Bytes) → List ℕ → List (Option Player) → List ℕ × List (Option Player)
unfolding authorized
auth_loop authid [] ps = ([], ps)
auth_loop authid (i ∷ is) ps =
    let done = auth_loop authid is (set ps i (authorized (authid i) (get_player i ps))) in
    let (left, ps') = auth_loop authid is ps in
    if not (is_empty (authid i)) && bytes_eq (authid i) pending then done else (i ∷ left, ps')

abbrev pub none_waits : List ℕ → Bool
none_waits [] = true
none_waits (i ∷ is) = false

module _ {F : Type 0} (less_eq : F → F → Bool) (half_later : F → F) where
  -- `PlayerMngr::StartFramePost` at the time `now`; a player that waits has been made.
  unfoldable pub start_frame_post : (ℕ → Bytes) → F → PlayerMngr F → PlayerMngr F
  start_frame_post authid now s =
      let (left, ps) = auth_loop authid s.players_to_auth s.players in
      if less_eq s.next_auth_check now && not (none_waits s.players_to_auth)
      then record s { next_auth_check = half_later now; players_to_auth = left; players = ps }
      else s
