-- ===== src/Tests/Player.antt =====
-- Players of src/PlayerSystem.cpp: one who connects, and two who wait for an identifier.
use spmod.Common.{
  ℕ, ◌+◌, ◌≡◌, refl, ℤ, pos, Bool, true, false, Bytes, codes, List, [], ◌∷◌, Option, none, some,
  leb,
}
use spmod.Forward.{Forward, multi, stop, new_forward}
use spmod.Forward.Registry.{ForwardMngr, connect_params}
use spmod.Forward.Arguments.{push_all}
use spmod.Player.{
  Player, PlayerMngr, put_back, welcomed, connect_post_arguments, client_connect_post,
  start_frame_post,
}
use spmod.Player.Waiting.{connect_post, client_connect_post_unheard, start_frame_post_waits}

abbrev run : ℕ → Forward → ℤ → Bool → ℕ → ℤ × Bool × ℕ
run k f result flag w = (result, false, w + 1)

abbrev nobody : Player
nobody = record {
  connected = false;
  in_game = false;
  user_id = 0;
  name = [];
  ip = [];
  steam_id = [];
}

abbrev table : ForwardMngr
table = record {
  forwards = new_forward connect_post connect_params (multi stop) ∷ [];
  callbacks = 5 ∷ [];
}

abbrev server : PlayerMngr ℕ
server = record {
  players = none ∷ (some nobody ∷ (some nobody ∷ []));
  players_to_auth = 1 ∷ (2 ∷ []);
  next_auth_check = 0;
  players_num = 0;
  forwards = table;
}

client_connect_post_unheard_example :
    client_connect_post run 1 (codes "Ann") (codes "10.0.0.1") 7 (codes "STEAM_0:1") false server 0
    ≡ some (
      record (welcomed 1 (codes "Ann") (codes "10.0.0.1") 7 (codes "STEAM_0:1") nobody server) {
        forwards = record table {
          forwards =
              put_back connect_post
                (push_all
                  (connect_post_arguments 1 (codes "Ann") (codes "10.0.0.1"))
                  (new_forward connect_post connect_params (multi stop))).0
                table.forwards;
        };
      },
      0,
    )
unfolding spmod.Forward.Registry.get_forward spmod.Forward.Registry.from_find new_forward
    spmod.Common.bytes_eq
client_connect_post_unheard_example =
    client_connect_post_unheard run 1 (codes "Ann") (codes "10.0.0.1") 7 (codes "STEAM_0:1") false
      server 0 nobody refl refl

start_frame_post_waits_example :
    ((start_frame_post leb (λ t. t + 5) (λ i. codes "STEAM_0:1") 10 server).players_to_auth
      ≡ 1 ∷ (2 ∷ []))
    × ((start_frame_post leb (λ t. t + 5) (λ i. codes "STEAM_0:1") 10 server).players
        ≡ server.players)
unfolding spmod.Common.bytes_eq
start_frame_post_waits_example =
    start_frame_post_waits leb (λ t. t + 5) (λ i. codes "STEAM_0:1") 10 server (refl, (refl, tt))
