-- ===== src/Natives/Players.antt =====
-- subprojects/sourcepawn/PlayerNatives.cpp: the natives that tell of a player. What the game tells of
-- one (whether a player lives, is a bot or a proxy) is a parameter. TakeDamage and SendMsg, which call
-- the game and format a text, are left out.
pub mod Address
use spmod.Common.{
  ℕ, ◌%◌, ◌^◌, Bool, true, false, Bytes, List, [], ◌∷◌, Option, none, some, ◌==◌, if◌then◌else◌,
}
use spmod.Player.{Player, get_player}
use spmod.Utils.Copy.{str_copy}
use spmod.Utils.View.{whole}
use spmod.Natives.Packed.{to_size}

-- What a native returns, with the buffer of the plugin that it wrote; `crashed` is a write out of it.
pub data Answer : Type 0 where
  returned : ℕ → Answer
  returned_text : ℕ → Bytes → Answer
  reported crashed : Answer

at_player : Option Player → (Player → Answer) → Answer
at_player none f = reported
at_player (some p) f = f p

with_player : ℕ → (Player → Answer) → List (Option Player) → Answer
unfolding at_player
with_player id f players = at_player (get_player id players) f

copied : Option (ℕ × Bytes) → Answer
copied none = crashed
copied (some (written, buffer)) = returned_text (written % 2 ^ 32) buffer

of_bool : Bool → Answer
of_bool true = returned 1
of_bool false = returned 0

unfoldable pub get_name : ℕ → (buffer : Bytes) (size : ℕ) → List (Option Player) → Answer
unfolding with_player copied
get_name id buffer size =
    with_player id (λ p. copied (str_copy buffer (to_size size) (whole p.name)))

-- The address as `c_str()` reads it once its first colon is a zero.
unfoldable pub without_port : Bytes → Bytes
without_port [] = []
without_port (b ∷ bs) = if b == 58 then [] else b ∷ without_port bs

unfoldable pub get_ip : ℕ → (buffer : Bytes) (size port : ℕ) → List (Option Player) → Answer
unfolding with_player copied
get_ip id buffer size port = with_player id (λ p.
    copied (str_copy buffer (to_size size) (whole (if port == 0 then without_port p.ip else p.ip))))

unfoldable pub get_steam_id : ℕ → (buffer : Bytes) (size : ℕ) → List (Option Player) → Answer
unfolding with_player copied
get_steam_id id buffer size =
    with_player id (λ p. copied (str_copy buffer (to_size size) (whole p.steam_id)))

unfoldable pub get_index : ℕ → List (Option Player) → Answer
unfolding with_player
get_index id = with_player id (λ p. returned id)

unfoldable pub get_user_id : ℕ → List (Option Player) → Answer
unfolding with_player
get_user_id id = with_player id (λ p. returned p.user_id)

unfoldable pub connected_get : ℕ → List (Option Player) → Answer
unfolding with_player of_bool
connected_get id = with_player id (λ p. of_bool p.connected)

unfoldable pub in_game : ℕ → List (Option Player) → Answer
unfolding with_player of_bool
in_game id = with_player id (λ p. of_bool p.in_game)

-- AliveGet, FakeGet and HLTVGet, by what the game tells of the player.
unfoldable pub told_get : (ℕ → Bool) → ℕ → List (Option Player) → Answer
unfolding with_player of_bool
told_get tells id = with_player id (λ p. of_bool (tells id))

-- HealthGet and HealthSet, which return 0 for any player.
unfoldable pub health : ℕ → List (Option Player) → Answer
unfolding with_player
health id = with_player id (λ p. returned 0)
