-- ===== src/Natives/Players/Address.antt =====
-- What Player.GetIP copies.
use spmod.Common.{
  ℕ, ◌-◌, ◌%◌, ◌^◌, ◌≤◌, ◌<◌, ◌≡◌, ◌≢◌, refl, ap, ◌∙◌, Bytes, List, [], ◌∷◌, ◌++◌, Option, some,
  arith, ==_false, ltb-false, if_false, All, length, take, false,
}
use Prim.Native.Nat.{min}
use spmod.Player.{Player, get_player}
use spmod.Utils.Copy.{str_copy, str_copy-reads}
use spmod.Utils.View.{whole, c_string, HasNoNul}
use spmod.Natives.Packed.{is_negative, to_size}
use spmod.Natives.Players.{returned_text, at_player, with_player, copied, without_port, get_ip}

without_port-colon :
    (host port : Bytes) → All (λ b. b ≢ 58) host → without_port (host ++ (58 ∷ port)) ≡ host
unfolding without_port
without_port-colon [] port h = refl
without_port-colon (b ∷ host) port (h, hs) =
    if_false _ _ _ (==_false b 58 h) ∙ ap (◌∷◌ b) (without_port-colon host port hs)

-- The player has an address with a port, whose host has no colon and no zero byte, and the buffer has
-- room for `size` bytes, at least one. Then GetIP without the port returns
-- min (size - 1) (length of the host), and the buffer reads as so many first bytes of the host.
pub get_ip-without_port :
    (id size : ℕ) (buffer host port : Bytes) (p : Player) (players : List (Option Player))
    → get_player id players ≡ some p
    → p.ip ≡ host ++ (58 ∷ port)
    → All (λ b. b ≢ 58) host
    → HasNoNul (host ++ [])
    → 0 < size
    → size < 2 ^ 31
    → size ≤ length buffer
    → (buffer' : Bytes) × (get_ip id buffer size 0 players
        ≡ returned_text (min (size - 1) (length host)) buffer')
      × (c_string buffer' ≡ take (size - 1) host)
      × (length buffer' ≡ length buffer)
unfolding get_ip with_player at_player copied to_size
get_ip-without_port id size buffer host port p players there its colon clean some_room small fits =
    let (buffer', done, reads, long, _) =
      str_copy-reads buffer size (whole host) some_room (omega arith) fits clean in
    let ok : is_negative size ≡ false = ltb-false _ _ (omega arith) in
    let same : to_size size ≡ size = if_false _ _ _ ok in
    let narrow : min (size - 1) (length host) % 2 ^ 32 ≡ min (size - 1) (length host) =
      omega arith in
    (
      buffer',
      ap
            (λ o.
              at_player o
                (λ q. copied (str_copy buffer (to_size size) (whole (without_port q.ip)))))
            there
          ∙ (ap (λ ip. copied (str_copy buffer (to_size size) (whole (without_port ip)))) its
              ∙ (ap (λ h. copied (str_copy buffer (to_size size) (whole h)))
                    (without_port-colon host port colon)
                  ∙ (ap (λ n. copied (str_copy buffer n (whole host))) same
                      ∙ (ap copied done ∙ ap (λ n. returned_text n buffer') narrow)))),
      reads,
      long,
    )
