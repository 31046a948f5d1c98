-- ===== src/Player/Waiting.antt =====
-- Who is authorised, and who hears of a connection.
use spmod.Common.{
  ℕ, ◌+◌, ◌<◌, ◌≡◌, refl, sym, ℤ, Bool, true, false, not, ◌&&◌, Bytes, codes, bytes_eq, List, [],
  ◌∷◌, Option, some, arith, if◌then◌else◌, All,
}
use spmod.Forward.{Forward, multi, stop, new_forward, count_params}
use spmod.Forward.Registry.{get_forward, connect_params}
use spmod.Forward.Arguments.{push_all}
use spmod.Forward.Delivery.{deliver_short}
use spmod.Player.{
  Player, PlayerMngr, pending, get_player, is_empty, put_back, executed, execute_found, execute,
  welcomed, connect_post_arguments, with_forwards, connect_found, client_connect_post, auth_loop,
  start_frame_post,
}

abbrev pub connect_post : Bytes
connect_post = codes "OnClientConnectPost"

auth_loop-known :
    (authid : ℕ → Bytes) (is : List ℕ) (ps : List (Option Player))
    → All (λ i. bytes_eq (authid i) pending ≡ false) is
    → auth_loop authid is ps ≡ (is, ps)
unfolding auth_loop
auth_loop-known authid [] ps known = refl
auth_loop-known authid (i ∷ is) ps (k, known) =
    let no : (not (is_empty (authid i)) && bytes_eq (authid i) pending) ≡ false =
      ground (arith, k) in
    rw (no, auth_loop-known authid is ps known) refl

module _ {F : Type 0} where
  -- The forward OnClientConnectPost as the manager makes it has four parameters, and ClientConnectPost
  -- pushes three arguments: the player is connected, and authorised or made to wait, but no listener
  -- runs, and the forward keeps the arguments and the position that the pushes left.
  pub client_connect_post_unheard :
      {W : Type 0} (run : ℕ → Forward → ℤ → Bool → W → ℤ × Bool × W) (i : ℕ) (name address : Bytes)
      (user_id : ℕ) (authid : Bytes) (dummy : Bool) (s : PlayerMngr F) (w : W) (p : Player)
      → get_player i s.players ≡ some p
      → get_forward connect_post s.forwards
        ≡ some (new_forward connect_post connect_params (multi stop))
      → client_connect_post run i name address user_id authid dummy s w
        ≡ some (
          record (welcomed i name address user_id authid p s) {
            forwards = record s.forwards {
              forwards =
                  put_back connect_post
                    (push_all
                      (connect_post_arguments i name address)
                      (new_forward connect_post connect_params (multi stop))).0
                    s.forwards.forwards;
            };
          },
          w,
        )
  unfolding client_connect_post connect_found execute execute_found executed with_forwards
      new_forward count_params
  client_connect_post_unheard run i name address user_id authid dummy s w p there made =
      rw
        (
          there,
          made,
          deliver_short run (connect_post_arguments i name address) s.forwards.callbacks dummy
              (new_forward connect_post connect_params (multi stop)) w (short (sym four)),
        )
        refl
    where
      four : (new_forward connect_post connect_params (multi stop)).params_num ≡ 4
      four = refl

      short :
          (4 ≡ (new_forward connect_post connect_params (multi stop)).params_num)
          → (new_forward connect_post connect_params (multi stop)).current_pos + 3
            < (new_forward connect_post connect_params (multi stop)).params_num
      short e = omega arith

  -- A player that waits and whose identifier is no longer the pending one is never authorised by
  -- StartFramePost: when this holds for all that wait, they go on waiting and no player changes.
  pub start_frame_post_waits :
      (less_eq : F → F → Bool) (half_later : F → F) (authid : ℕ → Bytes) (now : F)
      (s : PlayerMngr F)
      → All (λ i. bytes_eq (authid i) pending ≡ false) s.players_to_auth
      → let s' = start_frame_post less_eq half_later authid now s in
        (s'.players_to_auth ≡ s.players_to_auth) × (s'.players ≡ s.players)
  unfolding start_frame_post
  start_frame_post_waits less_eq half_later authid now s known =
      rw (auth_loop-known authid s.players_to_auth s.players known) (by_test _)
    where
      by_test :
          (b : Bool)
          → let s' = if b then record s { next_auth_check = half_later now } else s in
            (s'.players_to_auth ≡ s.players_to_auth) × (s'.players ≡ s.players)
      by_test true = (refl, refl)
      by_test false = (refl, refl)
